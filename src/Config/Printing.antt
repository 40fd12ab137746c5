-- ===== src/Config/Printing.antt =====
-- src/config.rs: the command line that spells a configuration out.
use polychrome_php.Prelude.{
  ℕ, ◌≤◌, ◌≡◌, refl, sym, ◌∙◌, inl, inr, Bool, true, false, List, [], ◌∷◌, ◌++◌, Option, none, some,
  ok, arith, All, ap, Option-cases,
}
use mathlib.Core.List.{append_assoc, append-nil}
use polychrome_php.Bytes.{Bytes, strip_prefix, eq_bytes}
use polychrome_php.Bytes.Compare.{strip_prefix-append, strip_prefix_append}
use polychrome_php.Bytes.Decimal.{parse_uint}
use polychrome_php.Bytes.Utf8.{valid_utf8}
use polychrome_php.Net.Address.{parse_socket_addr}
use polychrome_php.Net.Ip.{read_ipv4_addr}
use polychrome_php.Net.Number.{read_separator, read_given_char, read_number, read_digits}
use polychrome_php.Bytes.Print.{decimal, valid_utf8-decimal, parse_uint-decimal}
use polychrome_php.Config.{
  Config, Host, defaults, u64_max, parse_in_range, set_listen, set_workers, set_timeout, set_option,
  set_text_option, options, scan, serve, canonical_ini, finish, finish_scan, parse,
}
use polychrome_php.Config.Flag
use polychrome_php.Config.Defines.{IsDefine, with_define, add_define_iff}
use polychrome_php.Config.Accepts.{IsEndpoint}
use polychrome_php.Config.Scan.{root, ini, listen, workers, timeout, define}
use polychrome_php.Config.Asking.{scan-switch, scan-value}

no_address_unix : (path : Bytes) → parse_socket_addr (Flag.unix ++ path) ≡ none
unfolding parse_socket_addr read_ipv4_addr read_separator read_given_char read_number read_digits
no_address_unix path = refl

set_listen_complete :
    (value : Bytes) (c : Config)
    → IsEndpoint value
    → set_listen value c ≡ ok (record c { listen = value })
unfolding set_listen
set_listen_complete value c (inl (path, e, absolute)) =
    ground (arith, e, strip_prefix_append Flag.unix path, absolute)
set_listen_complete value c (inr (a, parsed, nonzero)) =
    elim (Option-cases (strip_prefix Flag.unix value)) [
      | inl e ↦ ground (arith, e, parsed)
      | inr (path, e) ↦
          absurd (
            ground
              (arith, parsed, strip_prefix-append Flag.unix value path e, no_address_unix path))
    ]

parse_in_range_complete :
    (lo hi n : ℕ) (value : Bytes)
    → parse_uint u64_max value ≡ some n
    → lo ≤ n
    → n ≤ hi
    → parse_in_range lo hi value ≡ some n
unfolding parse_in_range
parse_in_range_complete lo hi n value e l h = ground (arith, e)

abbrev ini_arguments : Option Bytes → List Bytes
ini_arguments none = []
ini_arguments (some path) = Flag.ini ∷ path ∷ []

abbrev define_arguments : List Bytes → List Bytes
define_arguments [] = []
define_arguments (d ∷ ds) = Flag.define ∷ d ∷ define_arguments ds

abbrev preload_arguments : Bool → List Bytes
preload_arguments true = []
preload_arguments false = Flag.no_preload ∷ []

module _ (c : Config) where
  scan-root :
      (v : Bytes) (rest : List Bytes)
      → scan (Flag.root ∷ v ∷ rest) c ≡ scan rest (record c { root = v })
  unfolding set_option eq_bytes
  scan-root v rest = scan-value Flag.root v rest c _ refl (root refl)

  scan-ini :
      (v : Bytes) (rest : List Bytes)
      → scan (Flag.ini ∷ v ∷ rest) c ≡ scan rest (record c { ini = some v })
  unfolding set_option eq_bytes
  scan-ini v rest = scan-value Flag.ini v rest c _ refl (ini refl)

  scan-listen :
      (v : Bytes) (rest : List Bytes)
      → valid_utf8 v ≡ true
      → IsEndpoint v
      → scan (Flag.listen ∷ v ∷ rest) c ≡ scan rest (record c { listen = v })
  unfolding set_option set_text_option eq_bytes
  scan-listen v rest utf8 good =
      let e = set_listen_complete v c good in
      scan-value Flag.listen v rest c _ (rw utf8 e) (listen e)

  scan-workers :
      (v : Bytes) (n : ℕ) (rest : List Bytes)
      → valid_utf8 v ≡ true
      → parse_uint u64_max v ≡ some n
      → 1 ≤ n
      → n ≤ 4096
      → scan (Flag.workers ∷ v ∷ rest) c ≡ scan rest (record c { workers = n })
  unfolding set_option set_text_option eq_bytes set_workers
  scan-workers v n rest utf8 e l h =
      let set : set_workers v c ≡ ok (record c { workers = n }) =
        rw (parse_in_range_complete 1 4096 n v e l h, set_workers) in
      scan-value Flag.workers v rest c _ (rw utf8 set) (workers set)

  scan-timeout :
      (v : Bytes) (n : ℕ) (rest : List Bytes)
      → valid_utf8 v ≡ true
      → parse_uint u64_max v ≡ some n
      → 1 ≤ n
      → n ≤ 86400
      → scan (Flag.request_timeout ∷ v ∷ rest) c ≡ scan rest (record c { timeout = n })
  unfolding set_option set_text_option eq_bytes set_timeout
  scan-timeout v n rest utf8 e l h =
      let set : set_timeout v c ≡ ok (record c { timeout = n }) =
        rw (parse_in_range_complete 1 86400 n v e l h, set_timeout) in
      scan-value Flag.request_timeout v rest c _ (rw utf8 set) (timeout set)

  scan-define :
      (v : Bytes) (rest : List Bytes)
      → valid_utf8 v ≡ true
      → IsDefine v
      → scan (Flag.define ∷ v ∷ rest) c ≡ scan rest (with_define v c)
  unfolding set_option set_text_option eq_bytes
  scan-define v rest utf8 good =
      let e = (add_define_iff v c (with_define v c)).1 (good, refl) in
      scan-value Flag.define v rest c _ (rw utf8 e) (define e)

scan-defines :
    (ds : List Bytes) (c : Config) (rest : List Bytes)
    → All IsDefine ds
    → All (λ d. valid_utf8 d ≡ true) ds
    → scan (define_arguments ds ++ rest) c ≡ scan rest (record c { defines = c.defines ++ ds })
scan-defines [] c rest h utf8 =
    ap (λ l. scan rest (record c { defines = l })) (sym (append-nil c.defines))
scan-defines (d ∷ ds) c rest h utf8 =
    scan-define c d (define_arguments ds ++ rest) utf8.0 h.0
    ∙ scan-defines ds (with_define d c) rest h.1 utf8.1
    ∙ ap (λ l. scan rest (record c { defines = l })) (append_assoc c.defines (d ∷ []) ds)

scan-ini_arguments :
    (path : Option Bytes) (c : Config) (rest : List Bytes)
    → c.ini ≡ none
    → scan (ini_arguments path ++ rest) c ≡ scan rest (record c { ini = path })
scan-ini_arguments none c rest h = ap (λ i. scan rest (record c { ini = i })) h
scan-ini_arguments (some path) c rest h = scan-ini c path rest

scan-preload_arguments :
    (on : Bool) (c : Config)
    → c.preload ≡ true
    → scan (preload_arguments on) c ≡ ok (options (record c { preload = on }))
unfolding scan
scan-preload_arguments true c h = ap (λ p. ok (options (record c { preload = p }))) h
scan-preload_arguments false c h = scan-switch [] c

-- The command line that spells a configuration out.
unfoldable pub arguments : Config → List Bytes
arguments c =
    Flag.root
    ∷ c.root
    ∷ Flag.listen
    ∷ c.listen
    ∷ Flag.workers
    ∷ decimal c.workers
    ∷ Flag.request_timeout
    ∷ decimal c.timeout
    ∷ (ini_arguments c.ini ++ (define_arguments c.defines ++ preload_arguments c.preload))

-- What a configuration must satisfy for a command line to ask for it.
pub record IsWithinLimits (c : Config) : Type 0 where
  pub listen : IsEndpoint c.listen
  pub listen_utf8 : valid_utf8 c.listen ≡ true
  pub workers : (1 ≤ c.workers) × (c.workers ≤ 4096)
  pub timeout : (1 ≤ c.timeout) × (c.timeout ≤ 86400)
  pub defines : All IsDefine c.defines
  pub defines_utf8 : All (λ d. valid_utf8 d ≡ true) c.defines

-- The loop over the arguments that spell a configuration out ends with that configuration.
pub scan-arguments :
    (host : Host) (c : Config)
    → IsWithinLimits c
    → scan (arguments c) (defaults host) ≡ ok (options c)
unfolding arguments defaults
scan-arguments host c h =
    scan-root (defaults host) c.root _
    ∙ scan-listen _ c.listen _ h.listen_utf8 h.listen
    ∙ scan-workers _ (decimal c.workers) c.workers _ (valid_utf8-decimal c.workers)
        (parse_uint-decimal u64_max c.workers (omega (arith, h.workers))) h.workers.0 h.workers.1
    ∙ scan-timeout _ (decimal c.timeout) c.timeout _ (valid_utf8-decimal c.timeout)
        (parse_uint-decimal u64_max c.timeout (omega (arith, h.timeout))) h.timeout.0 h.timeout.1
    ∙ scan-ini_arguments c.ini _ _ refl
    ∙ scan-defines c.defines _ _ h.defines h.defines_utf8
    ∙ scan-preload_arguments c.preload _ refl

-- Every configuration within the limits can be asked for, and is read back exactly: `parse` serves
-- it from the arguments that spell it out, whatever the machine's number of processors, where its
-- root is a directory and both the root and the INI path are canonical already.
pub parse-arguments :
    (host : Host) (c : Config)
    → IsWithinLimits c
    → host.canonicalize c.root ≡ ok c.root
    → host.is_dir c.root ≡ true
    → canonical_ini host c.ini ≡ ok c.ini
    → parse host (arguments c) ≡ ok (serve c)
unfolding parse finish_scan finish
parse-arguments host c h same dir same_ini = rw (scan-arguments host c h, same, dir, same_ini)
