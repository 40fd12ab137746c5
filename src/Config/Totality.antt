-- ===== src/Config/Totality.antt =====
-- src/config.rs: the arm of `parse` that is marked as unreachable.
use polychrome_php.Prelude.{
  ◌≡◌, ◌≢◌, true, false, List, [], ◌∷◌, Option, none, some, Result, ok, err, arith, ◌>>=◌, map_err,
}
use polychrome_php.Bytes.{Bytes}
use polychrome_php.Config.{
  Config, serve, Host, root_error, ini_error, Error, unreachable, defaults, set_listen, set_workers,
  set_timeout, add_define, set_text_option, set_option, takes_value, Scanned, help, version,
  options, Continue, with_value, scan_option, scan, canonical_ini, finish, finish_scan, parse,
}

set_listen-ne : (value : Bytes) (c : Config) → set_listen value c ≢ err unreachable
unfolding set_listen
set_listen-ne value c h = ground (arith, h)

set_workers-ne : (value : Bytes) (c : Config) → set_workers value c ≢ err unreachable
unfolding set_workers
set_workers-ne value c h = ground (arith, h)

add_define-ne : (value : Bytes) (c : Config) → add_define value c ≢ err unreachable
unfolding add_define
add_define-ne value c h = ground (arith, h)

set_timeout-ne : (value : Bytes) (c : Config) → set_timeout value c ≢ err unreachable
unfolding set_timeout
set_timeout-ne value c h = ground (arith, h)

set_option-ne :
    (arg value : Bytes) (c : Config)
    → takes_value arg ≡ true
    → set_option arg value c ≢ err unreachable
unfolding takes_value set_option set_text_option
set_option-ne arg value c takes h = ground (
  arith,
  takes,
  set_listen-ne value c,
  set_workers-ne value c,
  set_timeout-ne value c,
  add_define-ne value c,
  h,
)

bind-ne :
    {A B : Type 0} (r : Result Error A) (k : A → Result Error B)
    → r ≢ err unreachable
    → ((a : A) → k a ≢ err unreachable)
    → (r >>= k) ≢ err unreachable
bind-ne (ok a) k f g h = g a h
bind-ne (err e) k f g h = f (cc h)

-- What may stand behind an argument.
abbrev NeverNext : Option (Bytes × Continue) → Type 0
NeverNext none = Unit
NeverNext (some (value, k)) = (c : Config) → k c ≢ err unreachable

with_value-ne :
    (arg : Bytes) (next : Option (Bytes × Continue)) (c : Config)
    → takes_value arg ≡ true
    → NeverNext next
    → with_value arg next c ≢ err unreachable
unfolding with_value
with_value-ne arg none c takes never h = cc h
with_value-ne arg (some (value, k)) c takes never h =
    bind-ne (set_option arg value c) k (set_option-ne arg value c takes) never h

scan_option-ne :
    (arg : Bytes) (k : Continue) (next : Option (Bytes × Continue)) (c : Config)
    → ((d : Config) → k d ≢ err unreachable)
    → NeverNext next
    → scan_option arg k next c ≢ err unreachable
unfolding scan_option
scan_option-ne arg k next c f g h =
    ground (arith, f (record c { preload = false }), with_value-ne arg next c, g, h)

scan-ne : (args : List Bytes) (c : Config) → scan args c ≢ err unreachable
unfolding scan
scan-ne [] c h = cc h
scan-ne (arg ∷ []) c h = scan_option-ne arg (λ d. ok (options d)) none c (λ d e. cc e) tt h
scan-ne (arg ∷ value ∷ rest) c h =
    scan_option-ne arg (scan (value ∷ rest)) (some (value, scan rest)) c (scan-ne (value ∷ rest))
      (scan-ne rest) h

map_err-ne :
    {A : Type 0} (f : Bytes → Error) (r : Result Bytes A)
    → ((e : Bytes) → f e ≢ unreachable)
    → map_err f r ≢ err unreachable
map_err-ne f (ok a) g h = cc h
map_err-ne f (err e) g h = g e (cc h)

canonical_ini-ne : (host : Host) (path : Option Bytes) → canonical_ini host path ≢ err unreachable
unfolding canonical_ini
canonical_ini-ne host none h = cc h
canonical_ini-ne host (some path) h =
    bind-ne (map_err ini_error (host.canonicalize path)) (λ resolved. ok (some resolved))
      (map_err-ne ini_error (host.canonicalize path) (λ e h. cc h)) (λ a e. cc e) h

finish-ne : (host : Host) (c : Config) → finish host c ≢ err unreachable
unfolding finish
finish-ne host c =
    bind-ne (map_err root_error (host.canonicalize c.root)) _
      (map_err-ne root_error (host.canonicalize c.root) (λ e h. cc h))
      λ root h. ground (
        arith,
        h,
        bind-ne (canonical_ini host c.ini) (λ ini. ok (serve (record c { root = root; ini = ini })))
            (canonical_ini-ne host c.ini) (λ ini e. cc e),
      )

finish_scan-ne : (host : Host) (r : Scanned) → finish_scan host r ≢ err unreachable
unfolding finish_scan
finish_scan-ne host help h = cc h
finish_scan-ne host version h = cc h
finish_scan-ne host (options c) h = finish-ne host c h

-- The arm of the inner `match` that is marked as unreachable is: no command line leads there.
pub parse_reachable : (host : Host) (args : List Bytes) → parse host args ≢ err unreachable
unfolding parse
parse_reachable host args =
    bind-ne (scan args (defaults host)) _ (scan-ne args (defaults host)) (finish_scan-ne host)
