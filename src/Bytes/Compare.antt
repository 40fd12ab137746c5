-- ===== src/Bytes/Compare.antt =====
-- What the comparisons of byte strings decide.
use polychrome_php.Prelude.{
  ℕ, ◌≡◌, refl, true, [], ◌∷◌, ◌++◌, map, some, arith, ◌≢◌, inl, inr, All, Option-cases,
}
use polychrome_php.Bytes.{
  Bytes, eq_bytes, strip_prefix, split_once, eq_ignore_ascii_case, to_ascii_lowercase,
}

pub eq_bytes_refl : (s : Bytes) → eq_bytes s s ≡ true
unfolding eq_bytes
eq_bytes_refl [] = refl
eq_bytes_refl (b ∷ s) = ground (arith, eq_bytes_refl s)

pub eq_bytes→eq : (s t : Bytes) → eq_bytes s t ≡ true → s ≡ t
unfolding eq_bytes
eq_bytes→eq [] [] h = refl
eq_bytes→eq [] (b ∷ t) h = cc
eq_bytes→eq (a ∷ s) [] h = cc
eq_bytes→eq (a ∷ s) (b ∷ t) h = ground (arith, eq_bytes→eq s t)

pub eq_ignore_ascii_case_of_lower :
    (s t : Bytes)
    → map to_ascii_lowercase s ≡ map to_ascii_lowercase t
    → eq_ignore_ascii_case s t ≡ true
unfolding eq_ignore_ascii_case
eq_ignore_ascii_case_of_lower [] [] h = refl
eq_ignore_ascii_case_of_lower [] (b ∷ t) h = cc
eq_ignore_ascii_case_of_lower (a ∷ s) [] h = cc
eq_ignore_ascii_case_of_lower (a ∷ s) (b ∷ t) h = ground (arith, eq_ignore_ascii_case_of_lower s t)

pub lower_of_eq_ignore_ascii_case :
    (s t : Bytes)
    → eq_ignore_ascii_case s t ≡ true
    → map to_ascii_lowercase s ≡ map to_ascii_lowercase t
unfolding eq_ignore_ascii_case
lower_of_eq_ignore_ascii_case [] [] h = refl
lower_of_eq_ignore_ascii_case [] (b ∷ t) h = cc
lower_of_eq_ignore_ascii_case (a ∷ s) [] h = cc
lower_of_eq_ignore_ascii_case (a ∷ s) (b ∷ t) h = ground (arith, lower_of_eq_ignore_ascii_case s t)

-- A prefix that was stripped stands in front of the rest.
pub strip_prefix-append : (p s t : Bytes) → strip_prefix p s ≡ some t → s ≡ p ++ t
unfolding strip_prefix
strip_prefix-append [] s t h = ground arith
strip_prefix-append (p ∷ ps) [] t h = cc
strip_prefix-append (p ∷ ps) (b ∷ s) t h = ground (arith, strip_prefix-append ps s t)

pub strip_prefix_append : (p t : Bytes) → strip_prefix p (p ++ t) ≡ some t
unfolding strip_prefix
strip_prefix_append [] t = refl
strip_prefix_append (p ∷ ps) t = ground (arith, strip_prefix_append ps t)

pub split_once-append :
    (sep : ℕ) (s before after : Bytes)
    → split_once sep s ≡ some (before, after)
    → s ≡ before ++ sep ∷ after
unfolding split_once
split_once-append sep [] before after h = cc
split_once-append sep (b ∷ s) before after h = elim (Option-cases (split_once sep s)) [
  | inl e ↦ ground (arith, e)
  | inr ((x, y), e) ↦ ground (arith, e, split_once-append sep s x y e)
]

-- Splitting finds the first separator: one that stands behind a part without any.
pub split_once_first :
    (sep : ℕ) (before after : Bytes)
    → All (λ b. b ≢ sep) before
    → split_once sep (before ++ sep ∷ after) ≡ some (before, after)
unfolding split_once
split_once_first sep [] after h = ground arith
split_once_first sep (b ∷ before) after h = ground (arith, split_once_first sep before after h.1)
