-- ===== src/Config/Tests.antt =====
-- src/config.rs: command lines read by evaluation, those of its own tests among them, and the
-- theorems at concrete inputs.
use polychrome_php.Prelude.{
  ◌≡◌, refl, ◌≢◌, ◌↔◌, inl, inr, true, false, List, [], ◌∷◌, ◌++◌, none, some, Result, ok, err,
  arith,
}
use polychrome_php.Bytes.{
  Bytes, codes, eq_bytes, strip_prefix, split_once, is_ascii_alphanumeric, to_ascii_lowercase,
  eq_ignore_ascii_case, is_absolute,
}
use polychrome_php.Bytes.Utf8.{valid_utf8}
use polychrome_php.Bytes.Decimal.{digits_from, parse_digits, parse_uint}
use polychrome_php.Net.Number.{read_given_char, read_number, read_digits, read_separator}
use polychrome_php.Net.Ip.{read_ipv4_addr, read_ipv6_addr}
use polychrome_php.Net.Address.{port, parse_socket_addr}
use polychrome_php.Config.{
  Config, Command, serve, Host, Error, unreachable, socket_not_absolute, listen_not_address,
  workers_range, timeout_range, define_invalid, define_reserved, missing_value, defaults,
  parse_in_range, set_listen, set_workers, set_timeout, key_byte, breaks_line, is_empty,
  is_reserved, add_define, set_text_option, set_option, takes_value, options, with_value,
  scan_option, scan, canonical_ini, finish, finish_scan, parse,
}
use polychrome_php.Config.Flag
use polychrome_php.Config.Defines.{
  IsDefine, lower, with_define, add_define_iff, add_define_reserved,
}
use polychrome_php.Config.Accepts.{IsAccepted, parse-IsAccepted}
use polychrome_php.Config.Printing.{IsWithinLimits, arguments, parse-arguments}
use polychrome_php.Config.Refusing.{bad_value, parse-Refused}
use polychrome_php.Config.Totality.{parse_reachable}
use polychrome_php.Config.Asking.{parse-Asks}
use polychrome_php.Config.Reading.{Reads, scan-Reads}

runs : Unit {0}
unfolding eq_bytes strip_prefix split_once is_ascii_alphanumeric to_ascii_lowercase
    eq_ignore_ascii_case is_absolute valid_utf8 digits_from parse_digits parse_uint read_given_char
    read_number read_digits read_separator read_ipv4_addr read_ipv6_addr port parse_socket_addr
    defaults parse_in_range set_listen set_workers set_timeout key_byte breaks_line is_empty
    is_reserved add_define set_text_option set_option takes_value with_value scan_option scan
    canonical_ini finish finish_scan parse
runs = tt

-- A machine of 8 processors, on which every path is canonicalized to one directory.
abbrev machine : Host
machine = record {
  available_parallelism = some 8;
  canonicalize = λ _. ok (codes "/srv/app");
  is_dir = λ _. true;
}

abbrev given : List Bytes
given =
    codes "--workers"
    ∷ codes "2"
    ∷ codes "--listen"
    ∷ codes "[::1]:9010"
    ∷ codes "--no-preload"
    ∷ codes "-d"
    ∷ codes "memory_limit=256M"
    ∷ []

abbrev scanned : Config
scanned = record {
  root = codes ".";
  listen = codes "[::1]:9010";
  workers = 2;
  timeout = 30;
  preload = false;
  ini = none;
  defines = codes "memory_limit=256M" ∷ [];
}

abbrev read : Config
read = record scanned { root = codes "/srv/app" }

scan-given : scan given (defaults machine) ≡ ok (options scanned)
unfolding runs
scan-given = refl

parse-given : parse machine given ≡ ok (serve read)
unfolding runs
parse-given = refl

abbrev refuse : Error → Result Error Command
refuse = err

refusals :
    (parse machine (codes "--workers" ∷ codes "0" ∷ []) ≡ refuse workers_range)
    × (parse machine (codes "--request-timeout" ∷ codes "-1" ∷ []) ≡ refuse timeout_range)
    × (parse machine (codes "--workers" ∷ []) ≡ refuse (missing_value (codes "--workers")))
    × (parse machine (codes "-d" ∷ codes "opcache.preload=app.php" ∷ []) ≡ refuse define_reserved)
    × (parse machine (codes "-d" ∷ (codes "x=1" ++ 10 ∷ codes "other=2") ∷ [])
        ≡ refuse define_invalid)
    × (parse machine (codes "--listen" ∷ codes "unix:relative.sock" ∷ [])
        ≡ refuse socket_not_absolute)
    × (parse machine (codes "--listen" ∷ codes "localhost:9000" ∷ []) ≡ refuse listen_not_address)
unfolding runs
refusals = (refl, refl, refl, refl, refl, refl, refl)

parse-IsAccepted_example : IsAccepted machine read
parse-IsAccepted_example = parse-IsAccepted machine given read parse-given

scan-Reads_example : Reads given (defaults machine) scanned
scan-Reads_example = scan-Reads given (defaults machine) scanned scan-given

add_define_iff_example :
    (add_define (codes "a=b=c") scanned ≡ ok (with_define (codes "a=b=c") scanned)) ↔ (
      IsDefine (codes "a=b=c")
      × (with_define (codes "a=b=c") scanned ≡ with_define (codes "a=b=c") scanned))
add_define_iff_example =
    add_define_iff (codes "a=b=c") scanned (with_define (codes "a=b=c") scanned)

same_key : lower (codes "OPcache.Preload") ≡ lower Flag.preload_key
unfolding runs
same_key = refl

add_define_reserved_example : add_define (codes "OPcache.Preload=x") scanned ≡ err define_reserved
add_define_reserved_example =
    add_define_reserved (codes "OPcache.Preload") (codes "x") scanned (inl same_key) (omega arith)
      (omega arith)

parse-Asks_example : parse machine (given ++ Flag.help ∷ codes "--bogus" ∷ []) ≡ ok Command.help
parse-Asks_example =
    parse-Asks machine given (codes "--bogus" ∷ []) Flag.help Command.help scanned scan-given
      (inl (inl refl, refl))

read-IsWithinLimits : IsWithinLimits read
unfolding runs
read-IsWithinLimits =
    let accepted = parse-IsAccepted machine given read parse-given in
    record {
      listen = accepted.checked.listen;
      listen_utf8 = refl;
      workers = omega arith;
      timeout = accepted.checked.timeout;
      defines = accepted.checked.defines;
      defines_utf8 = (refl, tt);
    }

read_ini : canonical_ini machine read.ini ≡ ok read.ini
unfolding runs
read_ini = refl

parse-arguments_example : parse machine (arguments read) ≡ ok (serve read)
parse-arguments_example = parse-arguments machine read read-IsWithinLimits refl refl read_ini

parse_reachable_example :
    parse machine (codes "--no-preload" ∷ codes "--workers" ∷ codes "0" ∷ []) ≢ err unreachable
parse_reachable_example =
    parse_reachable machine (codes "--no-preload" ∷ codes "--workers" ∷ codes "0" ∷ [])

-- A pool that is too large, in front of a request for help.
too_many : set_option Flag.workers (codes "5000") scanned ≡ err workers_range
unfolding runs
too_many = refl

parse-Refused_example :
    parse machine (given ++ Flag.workers ∷ codes "5000" ∷ Flag.help ∷ []) ≡ err workers_range
parse-Refused_example =
    parse-Refused machine given (codes "5000" ∷ Flag.help ∷ []) Flag.workers scanned workers_range
      scan-given
      (bad_value (codes "5000") (Flag.help ∷ []) workers_range (inr (inr (inl refl))) too_many)
