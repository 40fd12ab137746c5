-- ===== src/Config/Scan.antt =====
-- src/config.rs: what one round of the loop over the arguments does, and induction over the rounds.
use polychrome_php.Prelude.{
  ◌≡◌, subst, ◌⊎◌, inl, inr, true, false, List, [], ◌∷◌, Option, none, some, ok, >>=-eq-ok, arith,
  Bool-cases,
}
use polychrome_php.Bytes.{Bytes, eq_bytes}
use polychrome_php.Bytes.Compare.{eq_bytes→eq}
use polychrome_php.Config.{
  Config, Continue, options, set_listen, set_workers, set_timeout, add_define, set_option,
  set_text_option, with_value, scan_option, scan,
}
use polychrome_php.Config.Flag

-- The option that a value was given to, with what it did.
pub data Sets (value : Bytes) (c d : Config) : Bytes → Type 0 where
  root : d ≡ record c { root = value } → Sets value c d Flag.root
  ini : d ≡ record c { ini = some value } → Sets value c d Flag.ini
  listen : set_listen value c ≡ ok d → Sets value c d Flag.listen
  workers : set_workers value c ≡ ok d → Sets value c d Flag.workers
  timeout : set_timeout value c ≡ ok d → Sets value c d Flag.request_timeout
  define : add_define value c ≡ ok d → Sets value c d Flag.define

at_flag :
    {value arg flag : Bytes} {c d : Config}
    → eq_bytes arg flag ≡ true
    → Sets value c d flag
    → Sets value c d arg
at_flag {value} {arg} {flag} {c} {d} e s = rw (eq_bytes→eq arg flag e) s

set_text_option-Sets :
    (arg value : Bytes) (c d : Config) → set_text_option arg value c ≡ ok d → Sets value c d arg
unfolding set_text_option
set_text_option-Sets arg value c d h = elim (Bool-cases (eq_bytes arg Flag.listen)) [
  | inl e ↦ at_flag e (listen (ground arith))
  | inr n1 ↦ elim (Bool-cases (eq_bytes arg Flag.workers)) [
    | inl e ↦ at_flag e (workers (ground arith))
    | inr n2 ↦ elim (Bool-cases (eq_bytes arg Flag.request_timeout)) [
      | inl e ↦ at_flag e (timeout (ground arith))
      | inr n3 ↦ elim (Bool-cases (eq_bytes arg Flag.define)) [
        | inl e ↦ at_flag e (define (ground arith))
        | inr n4 ↦ absurd (ground arith)
      ]
    ]
  ]
]

set_option-Sets :
    (arg value : Bytes) (c d : Config) → set_option arg value c ≡ ok d → Sets value c d arg
unfolding set_option
set_option-Sets arg value c d h = elim (Bool-cases (eq_bytes arg Flag.root)) [
  | inl e ↦ at_flag e (root (ground arith))
  | inr n1 ↦ elim (Bool-cases (eq_bytes arg Flag.ini)) [
    | inl e ↦ at_flag e (ini (ground arith))
    | inr n2 ↦ set_text_option-Sets arg value c d (ground arith)
  ]
]

-- A round that goes on either switches preloading off, or hands a value to its option.
abbrev Hands : Bytes → Option (Bytes × Continue) → Config → Config → Type 0
Hands arg none c d = ⊥
Hands arg (some (value, k)) c d =
    (c' : Config) × (set_option arg value c ≡ ok c') × (k c' ≡ ok (options d))

abbrev Goes : Bytes → Continue → Option (Bytes × Continue) → Config → Config → Type 0
Goes arg continue next c d =
    ((arg ≡ Flag.no_preload) × (continue (record c { preload = false }) ≡ ok (options d)))
    ⊎ Hands arg next c d

with_value-Hands :
    (arg : Bytes) (next : Option (Bytes × Continue)) (c d : Config)
    → with_value arg next c ≡ ok (options d)
    → Hands arg next c d
unfolding with_value
with_value-Hands arg none c d h = cc
with_value-Hands arg (some (value, k)) c d h =
    let (c', set, rest) = >>=-eq-ok (set_option arg value c) k h in (c', set, rest)

scan_option-Goes :
    (arg : Bytes) (continue : Continue) (next : Option (Bytes × Continue)) (c d : Config)
    → scan_option arg continue next c ≡ ok (options d)
    → Goes arg continue next c d
unfolding scan_option
scan_option-Goes arg continue next c d h = elim (Bool-cases (eq_bytes arg Flag.no_preload)) [
  | inl e ↦ inl (eq_bytes→eq arg Flag.no_preload e, ground arith)
  | inr n ↦ inr (with_value-Hands arg next c d (ground arith))
]

-- Induction over the rounds of a loop that reads all the arguments.
module _ {ℓ} (P : List Bytes → Config → Type ℓ) (d : Config) where
  abbrev pub SwitchRule : Type ℓ
  SwitchRule =
      (rest : List Bytes) (c : Config)
      → P rest (record c { preload = false })
      → P (Flag.no_preload ∷ rest) c

  abbrev pub ValueRule : Type ℓ
  ValueRule =
      (arg value : Bytes) (rest : List Bytes) (c c' : Config)
      → set_option arg value c ≡ ok c'
      → Sets value c c' arg
      → P rest c'
      → P (arg ∷ value ∷ rest) c

  pub scan_induction :
      P [] d
      → SwitchRule
      → ValueRule
      → (args : List Bytes) (c : Config) → scan args c ≡ ok (options d)
      → P args c
  unfolding scan
  scan_induction base switch give [] c h = subst (P []) (ground arith) base
  scan_induction base switch give (arg ∷ []) c h = elim (scan_option-Goes arg _ none c d h) [
    | inl (e, more) ↦ rw e (switch [] c (subst (P []) (ground arith) base))
    | inr impossible ↦ absurd impossible
  ]
  scan_induction base switch give (arg ∷ value ∷ rest) c h =
      elim (scan_option-Goes arg _ (some (value, scan rest)) c d h) [
        | inl (e, more) ↦
            rw e (switch (value ∷ rest) c (scan_induction base switch give (value ∷ rest) _ more))
        | inr (c', set, more) ↦
            give arg value rest c c' set (set_option-Sets arg value c c' set)
              (scan_induction base switch give rest c' more)
      ]
