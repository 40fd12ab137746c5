-- ===== src/Config.antt =====
-- src/config.rs: the command line. What the operating system answers (the number of processors,
-- `canonicalize`, `is_dir`) is the `Host` parameter; an error's text is kept as a constructor, and
-- `message` gives its words.
pub mod Flag
pub mod Message
pub mod Scan
pub mod Defines
pub mod Accepts
pub mod Asking
pub mod Reading
pub mod Printing
pub mod Refusing
pub mod Totality
mod Tests
use polychrome_php.Prelude.{
  ℕ, ◌≡◌, Bool, true, false, not, ◌&&◌, ◌||◌, List, [], ◌∷◌, ◌++◌, Option, none, some, Result, ok,
  err, ◌>>=◌, map_err, all, any, leb, ◌==◌, if◌then◌else◌,
}
use polychrome_php.Bytes.{
  Bytes, codes, eq_bytes, strip_prefix, split_once, is_ascii_alphanumeric, eq_ignore_ascii_case,
  is_absolute,
}
use polychrome_php.Bytes.Utf8.{valid_utf8}
use polychrome_php.Bytes.Decimal.{parse_uint}
use polychrome_php.Config.Flag
use polychrome_php.Net.Address.{port, parse_socket_addr}

-- The timeout is in whole seconds, as `Duration::from_secs` takes it.
pub record Config : Type 0 where
  pub root : Bytes
  pub listen : Bytes
  pub workers : ℕ
  pub timeout : ℕ
  pub preload : Bool
  pub ini : Option Bytes
  pub defines : List Bytes

pub data Command : Type 0 where
  help version : Command
  serve : Config → Command

-- The reasons for which `parse` gives up, in the order of the source. A `Bytes` is the option, or
-- the text of the operating system's error.
pub data Error : Type 0 where
  options_not_utf8 : Error
  unknown_option missing_value invalid_utf8_value : Bytes → Error
  socket_not_absolute listen_not_address listen_port_zero : Error
  workers_range timeout_range : Error
  define_form define_invalid define_reserved : Error
  root_error : Bytes → Error
  root_not_directory : Error
  ini_error : Bytes → Error
  unreachable : Error

-- `available_parallelism` is none where the count cannot be had.
pub record Host : Type 0 where
  pub available_parallelism : Option ℕ
  pub canonicalize : Bytes → Result Bytes Bytes
  pub is_dir : Bytes → Bool

abbrev default_workers : Option ℕ → ℕ
default_workers none = 1
default_workers (some n) = n

unfoldable pub defaults : Host → Config
defaults host = record {
  root = codes ".";
  listen = codes "127.0.0.1:9000";
  workers = default_workers host.available_parallelism;
  timeout = 30;
  preload = true;
  ini = none;
  defines = [];
}

abbrev pub u64_max : ℕ
u64_max = 18446744073709551615

-- `.parse().ok().filter(|n| (lo..=hi).contains(n))`; `usize` has 64 bits too.
pub parse_in_range : ℕ → ℕ → Bytes → Option ℕ
parse_in_range lo hi value = elim (parse_uint u64_max value) [
  | none ↦ none
  | some n ↦ if leb lo n && leb n hi then some n else none
]

pub set_listen : Bytes → Config → Result Error Config
set_listen value config = elim (strip_prefix Flag.unix value) [
  | some path ↦
      if not (is_absolute path)
      then err socket_not_absolute
      else ok (record config { listen = value })
  | none ↦ elim (parse_socket_addr value) [
    | none ↦ err listen_not_address
    | some address ↦
        if port address == 0 then err listen_port_zero else ok (record config { listen = value })
  ]
]

pub set_workers : Bytes → Config → Result Error Config
set_workers value config = elim (parse_in_range 1 4096 value) [
  | none ↦ err workers_range
  | some n ↦ ok (record config { workers = n })
]

pub set_timeout : Bytes → Config → Result Error Config
set_timeout value config = elim (parse_in_range 1 86400 value) [
  | none ↦ err timeout_range
  | some seconds ↦ ok (record config { timeout = seconds })
]

pub key_byte : ℕ → Bool
unfolding is_ascii_alphanumeric
key_byte c = is_ascii_alphanumeric c || c == b'.' || c == b'_'

-- A line break or a NUL would end the setting in the INI text.
pub breaks_line : ℕ → Bool
breaks_line c = c == 0x0A || c == 0x0D || c == 0

is_empty : Bytes → Bool
is_empty [] = true
is_empty (_ ∷ _) = false

pub is_reserved : Bytes → Bool
is_reserved key =
    eq_ignore_ascii_case key Flag.preload_key || eq_ignore_ascii_case key Flag.preload_user_key

pub add_define : Bytes → Config → Result Error Config
add_define value config = elim (split_once b'=' value) [
  | none ↦ err define_form
  | some (key, _) ↦
      if is_empty key || not (all key_byte key) || any breaks_line value
      then err define_invalid
      else if is_reserved key
      then err define_reserved
      else ok (record config { defines = config.defines ++ value ∷ [] })
]

-- The inner `match arg`, on a value that is valid UTF-8.
pub set_text_option : Bytes → Bytes → Config → Result Error Config
set_text_option arg value config =
    if eq_bytes arg Flag.listen
    then set_listen value config
    else if eq_bytes arg Flag.workers
    then set_workers value config
    else if eq_bytes arg Flag.request_timeout
    then set_timeout value config
    else if eq_bytes arg Flag.define
    then add_define value config
    else err unreachable

-- The outer `match arg`.
pub set_option : Bytes → Bytes → Config → Result Error Config
set_option arg value config =
    if eq_bytes arg Flag.root
    then ok (record config { root = value })
    else if eq_bytes arg Flag.ini
    then ok (record config { ini = some value })
    else if not (valid_utf8 value)
    then err (invalid_utf8_value arg)
    else set_text_option arg value config

pub takes_value : Bytes → Bool
takes_value arg =
    eq_bytes arg Flag.root
    || eq_bytes arg Flag.listen
    || eq_bytes arg Flag.workers
    || eq_bytes arg Flag.request_timeout
    || eq_bytes arg Flag.ini
    || eq_bytes arg Flag.define

-- How the loop over the arguments ends, but for an error.
pub data Scanned : Type 0 where
  help version : Scanned
  options : Config → Scanned

abbrev pub Continue : Type 0
Continue = Config → Result Error Scanned

-- `next` is what `args.next()` returns for the value, with the rest of the loop behind it.
with_value : Bytes → Option (Bytes × Continue) → Continue
with_value arg none config = err (missing_value arg)
with_value arg (some (value, continue)) config = set_option arg value config >>= continue

-- One round of the loop. `continue` goes on behind `arg`.
pub scan_option : Bytes → Continue → Option (Bytes × Continue) → Continue
scan_option arg continue next config =
    if not (valid_utf8 arg)
    then err options_not_utf8
    else if eq_bytes arg Flag.help || eq_bytes arg Flag.help_short
    then ok help
    else if eq_bytes arg Flag.version || eq_bytes arg Flag.version_short
    then ok version
    else if eq_bytes arg Flag.no_preload
    then continue (record config { preload = false })
    else if not (takes_value arg)
    then err (unknown_option arg)
    else with_value arg next config

pub scan : List Bytes → Continue
scan [] config = ok (options config)
scan (arg ∷ []) config = scan_option arg (λ c. ok (options c)) none config
scan (arg ∷ value ∷ rest) config =
    scan_option arg (scan (value ∷ rest)) (some (value, scan rest)) config

pub canonical_ini : Host → Option Bytes → Result Error (Option Bytes)
canonical_ini host none = ok none
canonical_ini host (some path) = do
  resolved ← map_err ini_error (host.canonicalize path)
  ok (some resolved)

-- What follows the loop.
pub finish : Host → Config → Result Error Command
unfolding canonical_ini
finish host config = do
  root ← map_err root_error (host.canonicalize config.root)
  if not (host.is_dir root) then err root_not_directory else (do
    ini ← canonical_ini host config.ini
    ok (serve (record config { root = root; ini = ini })))

pub finish_scan : Host → Scanned → Result Error Command
finish_scan host help = ok help
finish_scan host version = ok version
finish_scan host (options config) = finish host config

pub parse : Host → List Bytes → Result Error Command
parse host args = do scanned ← scan args (defaults host); finish_scan host scanned
