-- ===== src/Bytes/Decimal.antt =====
-- `str::parse` for unsigned integers: an optional `+`, then one or more decimal digits, within the
-- type's range.
use polychrome_php.Prelude.{
  ℕ, ◌+◌, ◌-◌, ◌*◌, Bool, ◌&&◌, List, [], ◌∷◌, Option, none, some, leb, ◌==◌, if◌then◌else◌,
}

abbrev pub is_digit : ℕ → Bool
is_digit c = leb b'0' c && leb c b'9'

-- The value of a run of digits behind the number `acc`, or none at a byte that is no digit or at
-- a value above the type's maximum (`checked_mul` and `checked_add` fail).
unfoldable pub digits_from : ℕ → ℕ → List ℕ → Option ℕ
digits_from limit acc [] = some acc
digits_from limit acc (c ∷ s) =
    let value = acc * 10 + (c - b'0') in
    let rest = digits_from limit value s in if is_digit c && leb value limit then rest else none

unfoldable pub parse_digits : ℕ → List ℕ → Option ℕ
unfolding digits_from
parse_digits limit [] = none
parse_digits limit (c ∷ s) = digits_from limit 0 (c ∷ s)

unfoldable pub parse_uint : ℕ → List ℕ → Option ℕ
unfolding parse_digits
parse_uint limit [] = none
parse_uint limit (c ∷ s) = if c == b'+' then parse_digits limit s else parse_digits limit (c ∷ s)
