-- ===== src/Config/Accepts.antt =====
-- src/config.rs: what holds of every configuration that `parse` returns.
use polychrome_php.Prelude.{
  ℕ, ◌≤◌, ◌≡◌, refl, ap, sym, subst, ◌∙◌, ◌≢◌, ◌⊎◌, inl, inr, true, List, [], ◌∷◌, ◌++◌, Option,
  none, some, ok, >>=-eq-ok, Result-cases, arith, All, All-append, Option-cases,
}
use polychrome_php.Bytes.{Bytes, strip_prefix, is_absolute}
use polychrome_php.Bytes.Compare.{strip_prefix-append}
use polychrome_php.Bytes.Decimal.{parse_uint}
use polychrome_php.Net.Address.{SocketAddr, v4, port, parse_socket_addr}
use polychrome_php.Net.Ip.{read_ipv4_addr}
use polychrome_php.Net.Number.{read_separator, read_given_char, read_number, read_digits}
use polychrome_php.Config.{
  Config, serve, Host, defaults, default_workers, u64_max, parse_in_range, set_listen, set_workers,
  set_timeout, Scanned, options, scan, canonical_ini, finish, finish_scan, parse,
}
use polychrome_php.Config.Flag
use polychrome_php.Config.Scan.{Sets, root, ini, listen, workers, timeout, define, scan_induction}
use polychrome_php.Config.Defines.{IsDefine, add_define_iff}

-- An absolute socket path behind `unix:`, or a socket address with a port.
abbrev pub IsEndpoint : Bytes → Type 0
IsEndpoint s =
    ((path : Bytes) × (s ≡ Flag.unix ++ path) × (is_absolute path ≡ true))
    ⊎ ((a : SocketAddr) × (parse_socket_addr s ≡ some a) × (port a ≢ 0))

-- What the loop over the arguments establishes.
pub record IsChecked (host : Host) (c : Config) : Type 0 where
  pub workers :
      (c.workers ≡ default_workers host.available_parallelism)
      ⊎ ((1 ≤ c.workers) × (c.workers ≤ 4096))
  pub timeout : (1 ≤ c.timeout) × (c.timeout ≤ 86400)
  pub listen : IsEndpoint c.listen
  pub defines : All IsDefine c.defines

abbrev pub Canonical : Host → Bytes → Type 0
Canonical host path = (given : Bytes) × (host.canonicalize given ≡ ok path)

abbrev pub CanonicalIni : Host → Option Bytes → Type 0
CanonicalIni host none = Unit
CanonicalIni host (some path) = Canonical host path

pub record IsAccepted (host : Host) (c : Config) : Type 0 where
  pub checked : IsChecked host c
  pub root : Canonical host c.root
  pub directory : host.is_dir c.root ≡ true
  pub ini : CanonicalIni host c.ini

defaults-IsChecked : (host : Host) → IsChecked host (defaults host)
unfolding defaults parse_socket_addr port read_ipv4_addr read_separator read_given_char read_number
    read_digits
defaults-IsChecked host = record {
  workers = inl refl;
  timeout = omega arith;
  listen = inr (v4 (record { a = 127; b = 0; c = 0; d = 1 }) 9000, refl, omega arith);
  defines = tt;
}

pub set_listen-IsEndpoint :
    (value : Bytes) (c d : Config)
    → set_listen value c ≡ ok d
    → IsEndpoint value × (d ≡ record c { listen = value })
unfolding set_listen
set_listen-IsEndpoint value c d h = elim (Option-cases (strip_prefix Flag.unix value)) [
  | inl e ↦ elim (Option-cases (parse_socket_addr value)) [
    | inl f ↦ absurd (ground (arith, e, f))
    | inr (a, f) ↦ (inr (a, f, ground (arith, e, f)), ground (arith, e, f))
  ]
  | inr (path, e) ↦
      (inl (path, strip_prefix-append Flag.unix value path e, ground (arith, e)), ground (arith, e))
]

parse_in_range_bounds :
    (lo hi : ℕ) (value : Bytes) {n : ℕ} → parse_in_range lo hi value ≡ some n → (lo ≤ n) × (n ≤ hi)
unfolding parse_in_range
parse_in_range_bounds lo hi value h = elim (Option-cases (parse_uint u64_max value)) [
  | inl e ↦ ground (arith, e)
  | inr (n, e) ↦ ground (arith, e)
]

pub parse_in_range_value :
    (lo hi : ℕ) (value : Bytes) {n : ℕ}
    → parse_in_range lo hi value ≡ some n
    → parse_uint u64_max value ≡ some n
unfolding parse_in_range
parse_in_range_value lo hi value h = elim (Option-cases (parse_uint u64_max value)) [
  | inl e ↦ ground (arith, e)
  | inr (n, e) ↦ ground (arith, e)
]

pub set_workers_lem :
    (value : Bytes) (c d : Config)
    → set_workers value c ≡ ok d
    → (n : ℕ) × (parse_in_range 1 4096 value ≡ some n) × (d ≡ record c { workers = n })
unfolding set_workers
set_workers_lem value c d h = elim (Option-cases (parse_in_range 1 4096 value)) [
  | inl e ↦ absurd (ground (arith, e))
  | inr (n, e) ↦ (n, e, ground (arith, e))
]

pub set_timeout_lem :
    (value : Bytes) (c d : Config)
    → set_timeout value c ≡ ok d
    → (n : ℕ) × (parse_in_range 1 86400 value ≡ some n) × (d ≡ record c { timeout = n })
unfolding set_timeout
set_timeout_lem value c d h = elim (Option-cases (parse_in_range 1 86400 value)) [
  | inl e ↦ absurd (ground (arith, e))
  | inr (n, e) ↦ (n, e, ground (arith, e))
]

Sets-IsChecked :
    {host : Host} {value arg : Bytes} {c d : Config}
    → Sets value c d arg
    → IsChecked host c
    → IsChecked host d
Sets-IsChecked {host} {c = c} (root e) v =
    subst (IsChecked host) (sym e)
      (record { workers = v.workers; timeout = v.timeout; listen = v.listen; defines = v.defines })
Sets-IsChecked {host} {c = c} (ini e) v =
    subst (IsChecked host) (sym e)
      (record { workers = v.workers; timeout = v.timeout; listen = v.listen; defines = v.defines })
Sets-IsChecked {host} {value} {c = c} {d = d} (listen e) v =
    let (good, same) = set_listen-IsEndpoint value c d e in
    subst (IsChecked host) (sym same)
      (record { workers = v.workers; timeout = v.timeout; listen = good; defines = v.defines })
Sets-IsChecked {host} {value} {c = c} {d = d} (workers e) v =
    let (n, p, same) = set_workers_lem value c d e in
    subst (IsChecked host) (sym same) (record {
      workers = inr (parse_in_range_bounds 1 4096 value p);
      timeout = v.timeout;
      listen = v.listen;
      defines = v.defines;
    })
Sets-IsChecked {host} {value} {c = c} {d = d} (timeout e) v =
    let (n, p, same) = set_timeout_lem value c d e in
    subst (IsChecked host) (sym same) (record {
      workers = v.workers;
      timeout = parse_in_range_bounds 1 86400 value p;
      listen = v.listen;
      defines = v.defines;
    })
Sets-IsChecked {host} {value} {c = c} {d = d} (define e) v =
    let (good, same) = (add_define_iff value c d).0 e in
    subst (IsChecked host) (sym same) (record {
      workers = v.workers;
      timeout = v.timeout;
      listen = v.listen;
      defines = All-append IsDefine c.defines (value ∷ []) v.defines (good, tt);
    })

scan-IsChecked :
    (host : Host) (args : List Bytes) (c d : Config)
    → scan args c ≡ ok (options d)
    → IsChecked host c
    → IsChecked host d
scan-IsChecked host args c d h =
    scan_induction (λ _ x. IsChecked host x → IsChecked host d) d (λ v. v)
      (λ rest x ih v. ih (ground arith))
      (λ arg value rest x x' _ sets ih v. ih (Sets-IsChecked sets v)) args c h

canonical_ini_lem :
    (host : Host) (path path' : Option Bytes)
    → canonical_ini host path ≡ ok path'
    → CanonicalIni host path'
unfolding canonical_ini
canonical_ini_lem host none path' h =
    let same : ◌≡◌ {A = Option Bytes} none path' = ground arith in subst (CanonicalIni host) same tt
canonical_ini_lem host (some given) path' h = elim (Result-cases (host.canonicalize given)) [
  | inl (p, e) ↦
      let same : some p ≡ path' = ground (arith, e) in subst (CanonicalIni host) same (given, e)
  | inr (x, e) ↦ absurd (ground (arith, e))
]

finish-IsAccepted :
    (host : Host) (c d : Config)
    → finish host c ≡ ok (serve d)
    → IsChecked host c
    → IsAccepted host d
unfolding finish
finish-IsAccepted host c d h v = elim (Result-cases (host.canonicalize c.root)) [
  | inr (x, e) ↦ absurd (ground (arith, e))
  | inl (top, e) ↦ elim (Result-cases (canonical_ini host c.ini)) [
    | inr (x, f) ↦ absurd (ground (arith, e, f))
    | inl (path, f) ↦
        let same : d ≡ record c { root = top; ini = path } = ground (arith, e, f) in
        subst (IsAccepted host) (sym same) (record {
          checked = record {
            workers = v.workers;
            timeout = v.timeout;
            listen = v.listen;
            defines = v.defines;
          };
          root = (c.root, e);
          directory = ground (arith, e, f);
          ini = canonical_ini_lem host c.ini path f;
        })
  ]
]

finish_scan-options :
    (host : Host) (s : Scanned) (c : Config)
    → finish_scan host s ≡ ok (serve c)
    → (d : Config) × (s ≡ options d) × (finish host d ≡ ok (serve c))
unfolding finish_scan
finish_scan-options host Scanned.help c h = cc
finish_scan-options host Scanned.version c h = cc
finish_scan-options host (options d) c h = (d, refl, h)

-- A successful `parse` is a loop that read all the arguments, and what follows it.
pub parse-scan :
    (host : Host) (args : List Bytes) (c : Config)
    → parse host args ≡ ok (serve c)
    → (d : Config) × (scan args (defaults host) ≡ ok (options d)) × (finish host d ≡ ok (serve c))
unfolding parse
parse-scan host args c h =
    let (s, scanned, done) = >>=-eq-ok (scan args (defaults host)) (finish_scan host) h in
    let (d, same, finished) = finish_scan-options host s c done in
    (d, scanned ∙ ap ok same, finished)

-- A configuration that `parse` returns is fit to be served: the pool has between 1 and 4096
-- workers, or as many as the machine has processors (1 where that is unknown); the timeout
-- lies between 1 second and a day; the endpoint is an absolute socket path or a socket address with
-- a nonzero port; every override is well formed; the root is a canonicalized directory; and an INI
-- path, if there is one, is canonicalized.
pub parse-IsAccepted :
    (host : Host) (args : List Bytes) (c : Config)
    → parse host args ≡ ok (serve c)
    → IsAccepted host c
parse-IsAccepted host args c h =
    let (d, scanned, finished) = parse-scan host args c h in
    finish-IsAccepted host d c finished
      (scan-IsChecked host args (defaults host) d scanned (defaults-IsChecked host))
