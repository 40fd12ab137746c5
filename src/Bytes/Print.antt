-- ===== src/Bytes/Print.antt =====
-- Decimal numbers as text, for command lines that are made of a configuration.
use polychrome_php.Prelude.{
  ℕ, zero, suc, ◌+◌, ◌-◌, ◌*◌, ◌/◌, ◌%◌, ◌≤◌, ◌<◌, ◌≡◌, refl, ap, ◌∙◌, ◌≢◌, inl, inr, true, [], ◌∷◌,
  ◌++◌, some, ltb, if◌then◌else◌, arith, All, All-append, Bool-cases, ltb→lt,
}
use polychrome_php.Bytes.{Bytes}
use polychrome_php.Bytes.Decimal.{digits_from, parse_digits, parse_uint}
use polychrome_php.Bytes.Utf8.{valid_utf8}

digits : ℕ → ℕ → Bytes
digits zero n = []
digits (suc fuel) n =
    let rest = digits fuel (n / 10) in
    if ltb n 10 then (b'0' + n) ∷ [] else rest ++ (b'0' + n % 10) ∷ []

-- A number in decimal; it has fewer digits than it is large, but for 0.
unfoldable pub decimal : ℕ → Bytes
unfolding digits
decimal n = digits (suc n) n

abbrev IsDigit : ℕ → Type 0
IsDigit c = (b'0' ≤ c) × (c ≤ b'9')

digits-IsDigit : (fuel n : ℕ) → All IsDigit (digits fuel n)
unfolding digits
digits-IsDigit zero n = tt
digits-IsDigit (suc fuel) n = elim (Bool-cases (ltb n 10)) [
  | inl e ↦ rw e (omega (arith, ltb→lt n 10 e), tt)
  | inr e ↦
      rw e (
        All-append IsDigit (digits fuel (n / 10)) _ (digits-IsDigit fuel (n / 10))
          (omega arith, tt))
]

digits_from-snoc :
    (limit acc c v : ℕ) (xs : Bytes)
    → digits_from limit acc xs ≡ some v
    → IsDigit c
    → v * 10 + (c - b'0') ≤ limit
    → digits_from limit acc (xs ++ c ∷ []) ≡ some (v * 10 + (c - b'0'))
unfolding digits_from
digits_from-snoc limit acc c v [] e d h = ground (arith, e, d, h)
digits_from-snoc limit acc c v (x ∷ xs) e d h =
    ground (arith, e, digits_from-snoc limit (acc * 10 + (x - b'0')) c v xs)

digits_from-digits :
    (limit fuel n : ℕ) → n < fuel → n ≤ limit → digits_from limit 0 (digits fuel n) ≡ some n
unfolding digits digits_from
digits_from-digits limit zero n lt le = absurd (omega arith)
digits_from-digits limit (suc fuel) n lt le = elim (Bool-cases (ltb n 10)) [
  | inl e ↦ ground (arith, e)
  | inr e ↦
      let large : 10 ≤ n = ground (arith, e) in
      rw e (
        digits_from-snoc limit 0 (b'0' + n % 10) (n / 10) (digits fuel (n / 10))
          (digits_from-digits limit fuel (n / 10) (omega arith) (omega arith)) (omega arith)
          (omega arith)
        ∙ ap some (omega arith))
]

valid_utf8-digits : (xs : Bytes) → All IsDigit xs → valid_utf8 xs ≡ true
unfolding valid_utf8
valid_utf8-digits [] h = refl
valid_utf8-digits (x ∷ xs) h = ground (arith, h, valid_utf8-digits xs h.1)

pub valid_utf8-decimal : (n : ℕ) → valid_utf8 (decimal n) ≡ true
unfolding decimal
valid_utf8-decimal n = valid_utf8-digits (digits (suc n) n) (digits-IsDigit (suc n) n)

parse_uint-digits :
    (limit n : ℕ) (xs : Bytes)
    → All IsDigit xs
    → xs ≢ []
    → digits_from limit 0 xs ≡ some n
    → parse_uint limit xs ≡ some n
unfolding parse_uint parse_digits
parse_uint-digits limit n [] h ne e = absurd (ne refl)
parse_uint-digits limit n (x ∷ xs) h ne e = ground (arith, h, e)

snoc-ne : (xs : Bytes) (c : ℕ) → (xs ++ c ∷ []) ≢ []
snoc-ne [] c h = cc
snoc-ne (x ∷ xs) c h = cc

digits-ne : (fuel n : ℕ) → digits (suc fuel) n ≢ []
unfolding digits
digits-ne fuel n h = ground (arith, h, snoc-ne (digits fuel (n / 10)) (b'0' + n % 10))

-- A number that is printed is read back.
pub parse_uint-decimal : (limit n : ℕ) → n ≤ limit → parse_uint limit (decimal n) ≡ some n
unfolding decimal
parse_uint-decimal limit n le =
    parse_uint-digits limit n (digits (suc n) n) (digits-IsDigit (suc n) n) (digits-ne n n)
      (digits_from-digits limit (suc n) n (omega arith) le)
