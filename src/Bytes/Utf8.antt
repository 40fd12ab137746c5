-- ===== src/Bytes/Utf8.antt =====
-- UTF-8 validity, as `OsStr::to_str` and `OsString::into_string` decide it on Unix.
use polychrome_php.Prelude.{
  ℕ, zero, suc, Bool, false, ◌&&◌, List, [], ◌∷◌, Option, none, some, leb, ltb, ◌==◌, if◌then◌else◌,
}

-- How many continuation bytes are missing, and the range of the next one.
pub record Expect : Type 0 where
  pub missing : ℕ
  pub lo : ℕ
  pub hi : ℕ

abbrev expect : ℕ → ℕ → ℕ → Option Expect
expect missing lo hi = some (record { missing = missing; lo = lo; hi = hi })

-- The lead bytes of the Unicode standard's table of well-formed sequences.
lead : ℕ → Option Expect
lead b =
    if ltb b 0x80
    then expect 0 0x80 0xBF
    else if ltb b 0xC2
    then none
    else if ltb b 0xE0
    then expect 1 0x80 0xBF
    else if b == 0xE0
    then expect 2 0xA0 0xBF
    else if b == 0xED
    then expect 2 0x80 0x9F
    else if ltb b 0xF0
    then expect 2 0x80 0xBF
    else if b == 0xF0
    then expect 3 0x90 0xBF
    else if ltb b 0xF4
    then expect 3 0x80 0xBF
    else if b == 0xF4
    then expect 3 0x80 0x8F
    else none

next : Expect → ℕ → Option Expect
unfolding lead
next e b = go e.missing
  where
    go : ℕ → Option Expect
    go zero = lead b
    go (suc k) = if leb e.lo b && leb b e.hi then expect k 0x80 0xBF else none

valid_from : Expect → List ℕ → Bool
valid_from e [] = e.missing == 0
valid_from e (b ∷ s) = elim (next e b) [ none ↦ false | some e' ↦ valid_from e' s ]

unfoldable pub valid_utf8 : List ℕ → Bool
unfolding valid_from next
valid_utf8 s = valid_from (record { missing = 0; lo = 0x80; hi = 0xBF }) s
