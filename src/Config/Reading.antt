-- ===== src/Config/Reading.antt =====
-- src/config.rs: the loop over the arguments against a plain reading of the command line.
use polychrome_php.Prelude.{
  ℕ, ◌≡◌, refl, sym, subst, ◌∙◌, Bool, true, false, not, ◌&&◌, List, [], ◌∷◌, ◌++◌, map, Option,
  some, ok, arith,
}
use mathlib.Core.List.{append_assoc, append-nil}
use polychrome_php.Bytes.{Bytes, eq_bytes}
use polychrome_php.Bytes.Decimal.{parse_uint}
use polychrome_php.Config.{
  Config, serve, Host, defaults, u64_max, options, scan, canonical_ini, finish, finish_scan, parse,
}
use polychrome_php.Config.Flag
use polychrome_php.Config.Defines.{add_define_iff, with_define}
use polychrome_php.Config.Accepts.{
  parse_in_range_value, set_listen-IsEndpoint, set_workers_lem, set_timeout_lem,
}
use polychrome_php.Config.Scan.{Sets, root, ini, listen, workers, timeout, define, scan_induction}

-- The values that a command line gives to one option, in order.
pub values : Bytes → List Bytes → List Bytes
values flag [] = []
values flag (arg ∷ []) = []
values flag (arg ∷ value ∷ rest) = elim (eq_bytes arg Flag.no_preload) [
  | true ↦ values flag (value ∷ rest)
  | false ↦ elim (eq_bytes arg flag) [ true ↦ value ∷ values flag rest | false ↦ values flag rest ]
]

-- Whether preloading is switched off somewhere.
pub switched_off : List Bytes → Bool
switched_off [] = false
switched_off (arg ∷ []) = eq_bytes arg Flag.no_preload
switched_off (arg ∷ value ∷ rest) = elim (eq_bytes arg Flag.no_preload) [
  | true ↦ true
  | false ↦ switched_off rest
]

abbrev pub last_or {ℓ} : {A : Type ℓ} → A → List A → A
last_or d [] = d
last_or d (x ∷ xs) = last_or x xs

abbrev pub numbers : List Bytes → List (Option ℕ)
numbers = map (parse_uint u64_max)

-- What each field of the result is, read off the command line.
pub record Reads (args : List Bytes) (c d : Config) : Type 0 where
  pub root : d.root ≡ last_or c.root (values Flag.root args)
  pub listen : d.listen ≡ last_or c.listen (values Flag.listen args)
  pub ini : d.ini ≡ last_or c.ini (map some (values Flag.ini args))
  pub defines : d.defines ≡ c.defines ++ values Flag.define args
  pub workers : some d.workers ≡ last_or (some c.workers) (numbers (values Flag.workers args))
  pub timeout :
      some d.timeout ≡ last_or (some c.timeout) (numbers (values Flag.request_timeout args))
  pub preload : d.preload ≡ (c.preload && not (switched_off args))

values-switch :
    (flag : Bytes) (rest : List Bytes) → values flag (Flag.no_preload ∷ rest) ≡ values flag rest
unfolding values eq_bytes
values-switch flag [] = refl
values-switch flag (value ∷ rest) = refl

switched_off-switch : (rest : List Bytes) → switched_off (Flag.no_preload ∷ rest) ≡ true
unfolding switched_off eq_bytes
switched_off-switch [] = refl
switched_off-switch (value ∷ rest) = refl

Reads-switch :
    (rest : List Bytes) (c d : Config)
    → Reads rest (record c { preload = false }) d
    → Reads (Flag.no_preload ∷ rest) c d
Reads-switch rest c d r = record {
  root = rw (values-switch Flag.root rest) r.root;
  listen = rw (values-switch Flag.listen rest) r.listen;
  ini = rw (values-switch Flag.ini rest) r.ini;
  defines = rw (values-switch Flag.define rest) r.defines;
  workers = rw (values-switch Flag.workers rest) r.workers;
  timeout = rw (values-switch Flag.request_timeout rest) r.timeout;
  preload = ground (arith, switched_off-switch rest);
}

-- Where one option has a value, the others read the rest.
module _ {value : Bytes} {rest : List Bytes} {c d : Config} where
  Reads-root : Reads rest (record c { root = value }) d → Reads (Flag.root ∷ value ∷ rest) c d
  unfolding values switched_off eq_bytes
  Reads-root r = record {
    root = r.root;
    listen = r.listen;
    ini = r.ini;
    defines = r.defines;
    workers = r.workers;
    timeout = r.timeout;
    preload = r.preload;
  }

  Reads-listen : Reads rest (record c { listen = value }) d → Reads (Flag.listen ∷ value ∷ rest) c d
  unfolding values switched_off eq_bytes
  Reads-listen r = record {
    root = r.root;
    listen = r.listen;
    ini = r.ini;
    defines = r.defines;
    workers = r.workers;
    timeout = r.timeout;
    preload = r.preload;
  }

  Reads-ini : Reads rest (record c { ini = some value }) d → Reads (Flag.ini ∷ value ∷ rest) c d
  unfolding values switched_off eq_bytes
  Reads-ini r = record {
    root = r.root;
    listen = r.listen;
    ini = r.ini;
    defines = r.defines;
    workers = r.workers;
    timeout = r.timeout;
    preload = r.preload;
  }

  Reads-define : Reads rest (with_define value c) d → Reads (Flag.define ∷ value ∷ rest) c d
  unfolding values switched_off eq_bytes
  Reads-define r = record {
    root = r.root;
    listen = r.listen;
    ini = r.ini;
    defines = r.defines ∙ append_assoc c.defines (value ∷ []) (values Flag.define rest);
    workers = r.workers;
    timeout = r.timeout;
    preload = r.preload;
  }

  Reads-workers :
      (n : ℕ)
      → parse_uint u64_max value ≡ some n
      → Reads rest (record c { workers = n }) d
      → Reads (Flag.workers ∷ value ∷ rest) c d
  unfolding values switched_off eq_bytes
  Reads-workers n e r = record {
    root = r.root;
    listen = r.listen;
    ini = r.ini;
    defines = r.defines;
    workers = rw e r.workers;
    timeout = r.timeout;
    preload = r.preload;
  }

  Reads-timeout :
      (n : ℕ)
      → parse_uint u64_max value ≡ some n
      → Reads rest (record c { timeout = n }) d
      → Reads (Flag.request_timeout ∷ value ∷ rest) c d
  unfolding values switched_off eq_bytes
  Reads-timeout n e r = record {
    root = r.root;
    listen = r.listen;
    ini = r.ini;
    defines = r.defines;
    workers = r.workers;
    timeout = rw e r.timeout;
    preload = r.preload;
  }

Reads-value :
    {arg value : Bytes} {rest : List Bytes} {c c' d : Config}
    → Sets value c c' arg
    → Reads rest c' d
    → Reads (arg ∷ value ∷ rest) c d
Reads-value {rest = rest} {d = d} (root e) r = Reads-root (subst (λ x. Reads rest x d) e r)
Reads-value {rest = rest} {d = d} (ini e) r = Reads-ini (subst (λ x. Reads rest x d) e r)
Reads-value {value = value} {rest} {c} {c'} {d} (listen h) r =
    Reads-listen (subst (λ x. Reads rest x d) (set_listen-IsEndpoint value c c' h).1 r)
Reads-value {value = value} {rest} {c} {c'} {d} (define h) r =
    Reads-define (subst (λ x. Reads rest x d) ((add_define_iff value c c').0 h).1 r)
Reads-value {value = value} {rest} {c} {c'} {d} (workers h) r =
    let (n, p, e) = set_workers_lem value c c' h in
    Reads-workers n (parse_in_range_value 1 4096 value p) (subst (λ x. Reads rest x d) e r)
Reads-value {value = value} {rest} {c} {c'} {d} (timeout h) r =
    let (n, p, e) = set_timeout_lem value c c' h in
    Reads-timeout n (parse_in_range_value 1 86400 value p) (subst (λ x. Reads rest x d) e r)

-- Reading all the arguments gives each single-valued option its last value, or leaves the default;
-- the overrides of `-d` are kept all, in their order; and preloading stays on exactly if no
-- `--no-preload` stands where an option is read. A value that looks like an option is a value.
pub scan-Reads : (args : List Bytes) (c d : Config) → scan args c ≡ ok (options d) → Reads args c d
unfolding values switched_off
scan-Reads args c d h =
    scan_induction (λ xs x. Reads xs x d) d
      (record {
        root = refl;
        listen = refl;
        ini = refl;
        defines = sym (append-nil d.defines);
        workers = refl;
        timeout = refl;
        preload = ground arith;
      })
      (λ rest x r. Reads-switch rest x d r) (λ arg value rest x x' _ s r. Reads-value s r) args c h

-- With no arguments the defaults are served, in the current directory.
pub parse-nil :
    (host : Host) (path : Bytes)
    → host.canonicalize (defaults host).root ≡ ok path
    → host.is_dir path ≡ true
    → parse host [] ≡ ok (serve (record (defaults host) { root = path }))
unfolding parse scan finish_scan finish canonical_ini defaults
parse-nil host path found dir = ground (arith, found, dir)
