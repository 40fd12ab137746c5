-- ===== src/Net/Number.antt =====
-- Digits and single characters: `read_given_char`, `read_number`, `read_separator`.
use polychrome_php.Prelude.{
  ℕ, zero, suc, ◌+◌, ◌-◌, ◌*◌, Bool, false, not, ◌&&◌, ◌||◌, List, [], ◌∷◌, Option, none, some, leb,
  ltb, ◌==◌, if◌then◌else◌,
}

abbrev pub Parser : Type 0 → Type 0
Parser A = List ℕ → Option (A × List ℕ)

infixl 5 ◌>>=◌ ◌>>◌
abbrev pub ◌>>=◌ : {A B : Type 0} → Parser A → (A → Parser B) → Parser B
◌>>=◌ p f s = elim (p s) [ none ↦ none | some (a, rest) ↦ f a rest ]

abbrev pub ◌>>◌ : {A B : Type 0} → Parser A → Parser B → Parser B
p >> q = p >>= λ _. q

abbrev pub ret : {A : Type 0} → A → Parser A
ret a s = some (a, s)

abbrev pub fail : {A : Type 0} → Parser A
fail s = none

unfoldable pub read_given_char : ℕ → Parser (Unit {0})
read_given_char c [] = none
read_given_char c (b ∷ s) = if b == c then some (tt, s) else none

-- `char::to_digit` at the radices 10 and 16.
to_digit : ℕ → ℕ → Option ℕ
to_digit radix c = if ltb digit radix then some digit else none
  where
    digit : ℕ
    digit =
        if leb b'0' c && leb c b'9'
        then c - b'0'
        else if leb b'a' c && leb c b'z'
        then c - b'a' + 10
        else if leb b'A' c && leb c b'Z'
        then c - b'A' + 10
        else radix

pub record Digits : Type 0 where
  pub value : ℕ
  pub count : ℕ
  pub rest : List ℕ

-- All the digits that stand at the front.
unfoldable pub read_digits : ℕ → ℕ → ℕ → List ℕ → Digits
unfolding to_digit
read_digits radix value count [] = record { value = value; count = count; rest = [] }
read_digits radix value count (c ∷ s) = elim (to_digit radix c) [
  | none ↦ record { value = value; count = count; rest = c ∷ s }
  | some d ↦ read_digits radix (value * radix + d) (count + 1) s
]

starts_with_zero : List ℕ → Bool
starts_with_zero [] = false
starts_with_zero (c ∷ _) = c == b'0'

-- `max_digits` none is the checked arithmetic of a port or a scope id. The value only grows from
-- digit to digit, so a value above the maximum at the end is an overflow at some digit.
unfoldable pub read_number : ℕ → Option ℕ → ℕ → Bool → Parser ℕ
unfolding starts_with_zero
read_number radix max_digits limit allow_zero_prefix s =
    let d = read_digits radix 0 0 s in
    let too_many = elim max_digits as (λ _. Bool) [ none ↦ false | some m ↦ ltb m d.count ] in
    if too_many
      || d.count == 0
      || not (leb d.value limit)
      || (not allow_zero_prefix && starts_with_zero s && ltb 1 d.count)
    then none
    else some (d.value, d.rest)

-- The separator stands before every item but the first.
unfoldable pub read_separator : {A : Type 0} → ℕ → ℕ → Parser A → Parser A
read_separator sep zero inner = inner
read_separator sep (suc index) inner = do read_given_char sep; inner
