-- ===== src/Net/Ip.antt =====
-- `read_ipv4_addr`, `read_ipv6_addr`. Of an address the program needs that it parses; the groups
-- are kept as lists of numbers.
use polychrome_php.Prelude.{
  ℕ, zero, suc, ◌+◌, ◌-◌, ◌*◌, Bool, true, false, List, [], ◌∷◌, ◌++◌, none, some, ltb, ◌==◌,
  if◌then◌else◌, length, replicate,
}
use polychrome_php.Net.Number.{
  Parser, ◌>>=◌, ◌>>◌, ret, read_given_char, read_number, read_separator,
}

-- An octet has at most three digits and no leading zero.
abbrev pub octet : Parser ℕ
octet = read_number 10 (some 3) 255 false

pub record Ipv4Addr : Type 0 where
  pub a : ℕ
  pub b : ℕ
  pub c : ℕ
  pub d : ℕ

unfoldable pub read_ipv4_addr : Parser Ipv4Addr
read_ipv4_addr = do
  a ← read_separator b'.' 0 octet
  b ← read_separator b'.' 1 octet
  c ← read_separator b'.' 2 octet
  d ← read_separator b'.' 3 octet
  ret (record { a = a; b = b; c = c; d = d })

abbrev group : Parser ℕ
group = read_number 16 (some 4) 65535 true

pub record Groups : Type 0 where
  pub groups : List ℕ
  pub ends_in_ipv4 : Bool
  pub rest : List ℕ

-- An IPv4 address takes the room of two groups, so it is tried only where two are left.
embedded : ℕ → ℕ → Parser Ipv4Addr
embedded left i s = if ltb 1 left then read_separator b':' i read_ipv4_addr s else none

-- At most `left` groups, from the index `i` on.
read_groups : ℕ → ℕ → List ℕ → Groups
unfolding embedded
read_groups zero i s = record { groups = []; ends_in_ipv4 = false; rest = s }
read_groups (suc left) i s =
    let more = λ (g : ℕ) (rest : List ℕ). read_groups left (i + 1) rest in
    elim (embedded (suc left) i s) [
      | some (v4, rest) ↦ record {
        groups = (v4.a * 256 + v4.b) ∷ (v4.c * 256 + v4.d) ∷ [];
        ends_in_ipv4 = true;
        rest = rest;
      }
      | none ↦ elim (read_separator b':' i group s) [
        | none ↦ record { groups = []; ends_in_ipv4 = false; rest = s }
        | some (g, rest) ↦ record (more g rest) { groups = g ∷ (more g rest).groups }
      ]
    ]

-- The part behind `::`, which stands for at least one group of zeroes.
read_tail : List ℕ → Parser (List ℕ)
unfolding read_groups
read_tail head s =
    let tail = read_groups (7 - length head) 0 s in
    some (head ++ replicate (8 - length head - length tail.groups) 0 ++ tail.groups, tail.rest)

unfoldable pub read_ipv6_addr : Parser (List ℕ)
unfolding read_groups read_tail
read_ipv6_addr s =
    let head = read_groups 8 0 s in
    if length head.groups == 8
    then some (head.groups, head.rest)
    else if head.ends_in_ipv4
    then none
    else (do read_given_char b':'; read_given_char b':'; read_tail head.groups) head.rest
