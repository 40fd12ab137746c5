-- ===== src/Config/Asking.antt =====
-- src/config.rs: options that stand on their own, and requests for help or for the version.
use polychrome_php.Prelude.{
  ◌≡◌, refl, ◌∙◌, ◌⊎◌, inl, inr, false, List, [], ◌∷◌, ◌++◌, Option, some, ok,
}
use polychrome_php.Bytes.{Bytes, eq_bytes}
use polychrome_php.Bytes.Utf8.{valid_utf8}
use polychrome_php.Config.{
  Config, Command, Host, defaults, set_option, takes_value, Scanned, options, Continue, with_value,
  scan_option, scan, finish_scan, parse,
}
use polychrome_php.Config.Flag
use polychrome_php.Config.Scan.{Sets, root, ini, listen, workers, timeout, define, scan_induction}

pub scan-switch :
    (rest : List Bytes) (c : Config)
    → scan (Flag.no_preload ∷ rest) c ≡ scan rest (record c { preload = false })
unfolding scan scan_option valid_utf8 eq_bytes
scan-switch [] c = refl
scan-switch (value ∷ rest) c = refl

scan_option-value :
    {value arg : Bytes} {c c' : Config}
    → Sets value c c' arg
    → (continue : Continue) (next : Option (Bytes × Continue)) (b : Config)
    → scan_option arg continue next b ≡ with_value arg next b
unfolding scan_option valid_utf8 eq_bytes takes_value
scan_option-value (root _) continue next b = refl
scan_option-value (ini _) continue next b = refl
scan_option-value (listen _) continue next b = refl
scan_option-value (workers _) continue next b = refl
scan_option-value (timeout _) continue next b = refl
scan_option-value (define _) continue next b = refl

pub scan-value :
    (arg value : Bytes) (rest : List Bytes) (c c' : Config)
    → set_option arg value c ≡ ok c'
    → Sets value c c' arg
    → scan (arg ∷ value ∷ rest) c ≡ scan rest c'
unfolding scan with_value
scan-value arg value rest c c' set s =
    scan_option-value s (scan (value ∷ rest)) (some (value, scan rest)) c ∙ rw set

-- Options that stand on their own are read as if nothing followed.
pub scan-append :
    (pre rest : List Bytes) (c d : Config)
    → scan pre c ≡ ok (options d)
    → scan (pre ++ rest) c ≡ scan rest d
scan-append pre rest c d h =
    scan_induction (λ args x. scan (args ++ rest) x ≡ scan rest d) d refl
      (λ args x ih. scan-switch (args ++ rest) x ∙ ih)
      (λ arg value args x x' set s ih. scan-value arg value (args ++ rest) x x' set s ∙ ih) pre c h

abbrev pub IsHelp : Bytes → Type 0
IsHelp arg = (arg ≡ Flag.help) ⊎ (arg ≡ Flag.help_short)

abbrev pub IsVersion : Bytes → Type 0
IsVersion arg = (arg ≡ Flag.version) ⊎ (arg ≡ Flag.version_short)

scan-help : (rest : List Bytes) (c : Config) → scan (Flag.help ∷ rest) c ≡ ok Scanned.help
unfolding scan scan_option valid_utf8 eq_bytes
scan-help [] c = refl
scan-help (value ∷ rest) c = refl

scan-help_short :
    (rest : List Bytes) (c : Config) → scan (Flag.help_short ∷ rest) c ≡ ok Scanned.help
unfolding scan scan_option valid_utf8 eq_bytes
scan-help_short [] c = refl
scan-help_short (value ∷ rest) c = refl

scan-version : (rest : List Bytes) (c : Config) → scan (Flag.version ∷ rest) c ≡ ok Scanned.version
unfolding scan scan_option valid_utf8 eq_bytes
scan-version [] c = refl
scan-version (value ∷ rest) c = refl

scan-version_short :
    (rest : List Bytes) (c : Config) → scan (Flag.version_short ∷ rest) c ≡ ok Scanned.version
unfolding scan scan_option valid_utf8 eq_bytes
scan-version_short [] c = refl
scan-version_short (value ∷ rest) c = refl

-- The command that an argument asks for.
abbrev pub Asks : Bytes → Command → Type 0
Asks arg command =
    (IsHelp arg × (command ≡ Command.help)) ⊎ (IsVersion arg × (command ≡ Command.version))

-- A request for help or for the version, in either spelling, behind options that are read without
-- an error is answered, whatever stands behind it and whatever the operating system says of paths.
pub parse-Asks :
    (host : Host) (pre rest : List Bytes) (arg : Bytes) (command : Command) (d : Config)
    → scan pre (defaults host) ≡ ok (options d)
    → Asks arg command
    → parse host (pre ++ arg ∷ rest) ≡ ok command
unfolding parse finish_scan
parse-Asks host pre rest arg command d h asks = answer asks
  where
    behind : scan (pre ++ arg ∷ rest) (defaults host) ≡ scan (arg ∷ rest) d
    behind = scan-append pre (arg ∷ rest) (defaults host) d h

    answer : Asks arg command → parse host (pre ++ arg ∷ rest) ≡ ok command
    answer (inl (inl e, c)) = rw (behind, e, c, scan-help rest d)
    answer (inl (inr e, c)) = rw (behind, e, c, scan-help_short rest d)
    answer (inr (inl e, c)) = rw (behind, e, c, scan-version rest d)
    answer (inr (inr e, c)) = rw (behind, e, c, scan-version_short rest d)
