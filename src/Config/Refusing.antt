-- ===== src/Config/Refusing.antt =====
-- src/config.rs: the errors of the loop over the arguments.
use polychrome_php.Prelude.{
  ◌≡◌, ◌∙◌, ◌⊎◌, inl, inr, true, false, List, [], ◌∷◌, ◌++◌, Option, none, some, ok, err, arith,
  All,
}
use polychrome_php.Bytes.{Bytes, eq_bytes}
use polychrome_php.Bytes.Utf8.{valid_utf8}
use polychrome_php.Config.{
  Config, Host, Error, options_not_utf8, unknown_option, missing_value, defaults, set_option,
  takes_value, options, Continue, with_value, scan_option, scan, parse,
}
use polychrome_php.Config.Flag
use polychrome_php.Config.Asking.{scan-append}

-- The options that take a value, and all others.
abbrev pub value_flags : List Bytes
value_flags =
    Flag.root ∷ Flag.listen ∷ Flag.workers ∷ Flag.request_timeout ∷ Flag.ini ∷ Flag.define ∷ []

abbrev pub other_flags : List Bytes
other_flags = Flag.help ∷ Flag.help_short ∷ Flag.version ∷ Flag.version_short ∷ Flag.no_preload ∷ []

abbrev pub IsIn : Bytes → List Bytes → Type 0
IsIn arg [] = ⊥
IsIn arg (flag ∷ flags) = (arg ≡ flag) ⊎ IsIn arg flags

abbrev pub IsNotIn : Bytes → List Bytes → Type 0
IsNotIn arg flags = All (λ flag. eq_bytes arg flag ≡ false) flags

-- Why an argument, with the arguments behind it, is refused where `d` is what was read before it.
pub data Refused (d : Config) (arg : Bytes) : List Bytes → Error → Type 0 where
  not_utf8 : (rest : List Bytes) → valid_utf8 arg ≡ false → Refused d arg rest options_not_utf8
  unknown :
      (rest : List Bytes)
      → valid_utf8 arg ≡ true
      → IsNotIn arg value_flags
      → IsNotIn arg other_flags
      → Refused d arg rest (unknown_option arg)
  missing : IsIn arg value_flags → Refused d arg [] (missing_value arg)
  bad_value :
      (value : Bytes) (rest : List Bytes) (e : Error)
      → IsIn arg value_flags
      → set_option arg value d ≡ err e
      → Refused d arg (value ∷ rest) e

scan_option-not_utf8 :
    (arg : Bytes) (k : Continue) (next : Option (Bytes × Continue)) (c : Config)
    → valid_utf8 arg ≡ false
    → scan_option arg k next c ≡ err options_not_utf8
unfolding scan_option
scan_option-not_utf8 arg k next c h = ground (arith, h)

scan_option-unknown :
    (arg : Bytes) (k : Continue) (next : Option (Bytes × Continue)) (c : Config)
    → valid_utf8 arg ≡ true
    → IsNotIn arg value_flags
    → IsNotIn arg other_flags
    → scan_option arg k next c ≡ err (unknown_option arg)
unfolding scan_option takes_value
scan_option-unknown arg k next c utf8 h g = ground (arith, utf8, h, g)

scan_option-flag :
    (arg : Bytes) (k : Continue) (next : Option (Bytes × Continue)) (c : Config)
    → IsIn arg value_flags
    → scan_option arg k next c ≡ with_value arg next c
unfolding scan_option takes_value valid_utf8 eq_bytes
scan_option-flag arg k next c (inl e) = rw e
scan_option-flag arg k next c (inr (inl e)) = rw e
scan_option-flag arg k next c (inr (inr (inl e))) = rw e
scan_option-flag arg k next c (inr (inr (inr (inl e)))) = rw e
scan_option-flag arg k next c (inr (inr (inr (inr (inl e))))) = rw e
scan_option-flag arg k next c (inr (inr (inr (inr (inr (inl e)))))) = rw e
scan_option-flag arg k next c (inr (inr (inr (inr (inr (inr e)))))) = absurd e

scan-Refused :
    {d : Config} {arg : Bytes} {rest : List Bytes} {e : Error}
    → Refused d arg rest e
    → scan (arg ∷ rest) d ≡ err e
unfolding scan with_value
scan-Refused {d} {arg} (not_utf8 [] h) = scan_option-not_utf8 arg _ _ d h
scan-Refused {d} {arg} (not_utf8 (value ∷ rest) h) = scan_option-not_utf8 arg _ _ d h
scan-Refused {d} {arg} (unknown [] utf8 h g) = scan_option-unknown arg _ _ d utf8 h g
scan-Refused {d} {arg} (unknown (value ∷ rest) utf8 h g) = scan_option-unknown arg _ _ d utf8 h g
scan-Refused {d} {arg} (missing h) = scan_option-flag arg (λ c. ok (options c)) none d h
scan-Refused {d} {arg} (bad_value value rest e h bad) =
    scan_option-flag arg (scan (value ∷ rest)) (some (value, scan rest)) d h ∙ rw bad

-- Behind options that are read without an error, the first argument in error decides what `parse`
-- returns, whatever stands behind it: text that is not UTF-8; an argument that is no option; an option
-- without its value; or an option whose value is refused, for the reason of that option.
pub parse-Refused :
    (host : Host) (pre rest : List Bytes) (arg : Bytes) (d : Config) (e : Error)
    → scan pre (defaults host) ≡ ok (options d)
    → Refused d arg rest e
    → parse host (pre ++ arg ∷ rest) ≡ err e
unfolding parse
parse-Refused host pre rest arg d e h refused =
    rw (scan-append pre (arg ∷ rest) (defaults host) d h, scan-Refused refused)
