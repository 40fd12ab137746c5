-- ===== src/Manager/Run.antt =====
-- src/manager.rs: `run`. What the operating system and the native code answer is the parameter
-- `Calls`, with the rounds that the loop of `supervise` goes through; the file system is a state, as
-- in `Listener`. The steps that `run` takes outside of itself are logged as `Act`.
pub mod Laws
pub mod Panics
pub mod Example
mod Tests
use polychrome_php.Prelude.{
  ℕ, Bool, true, false, not, List, [], ◌∷◌, ◌++◌, Option, none, some, Result, ok, err, any, ◌==◌,
  if◌then◌else◌,
}
use polychrome_php.Bytes.{Bytes, codes}
use polychrome_php.Config.{Config}
use polychrome_php.Manager.Listener.{Listener, drop, bind}
use polychrome_php.Manager.Listener
use polychrome_php.Manager.Signals.{SignalCalls, signal_fd}
use polychrome_php.Manager.Loop.{Round}
use polychrome_php.Manager.Supervise.{Progress, running, done, start, supervise}

-- `parent` is `Path::parent`. `initialize` is the native `poly_initialize`. `meanwhile` is what
-- other processes do to the file system while the loop runs; `now` is the instant of its start.
pub record Calls (Fs : Type 0) : Type 0 where
  pub is_linux : Bool
  pub current_exe : Result Bytes Bytes
  pub parent : Bytes → Option Bytes
  pub canonicalize : Bytes → Result Bytes Bytes
  pub set_current_dir : Bytes → Result Bytes (Unit {0})
  pub signals : SignalCalls
  pub initialize : Bytes → Option Bytes → List Bytes → Option Bytes → ℕ
  pub task_count : Result Bytes ℕ
  pub files : Listener.Calls Fs
  pub meanwhile : Fs → Fs
  pub now : ℕ
  pub rounds : List Round

pub data Act : Type 0 where
  changes_dir : Bytes → Act
  initializes : Bytes → Option Bytes → List Bytes → Option Bytes → Act
  binds : Bytes → Act
  supervises drops_listener shuts_down : Act

-- `run` returned, panicked, or is still in the loop of `supervise` after the given rounds.
pub data Ending : Type 0 where
  returns : Result Bytes (Unit {0}) → Ending
  panics serves : Ending

pub record Outcome (Fs : Type 0) : Type 0 where
  pub ending : Ending
  pub acts : List Act
  pub fs : Fs

-- `CString::new` refuses a NUL.
pub has_nul : Bytes → Bool
has_nul s = any (λ c. c == 0) s

ends_in_slash : Bytes → Bool
ends_in_slash [] = true
ends_in_slash (b ∷ []) = b == b'/'
ends_in_slash (_ ∷ c ∷ s) = ends_in_slash (c ∷ s)

-- `Path::join` of a relative path: a slash goes between, unless the base is empty or ends in one.
join : Bytes → Bytes → Bytes
join base rest = if ends_in_slash base then base ++ rest else base ++ b'/' ∷ rest

abbrev relative_helper : Bytes
relative_helper = codes "../share/polychrome/preload.php"

ini_has_nul : Option Bytes → Bool
ini_has_nul none = false
ini_has_nul (some path) = has_nul path

module _ {Fs : Type 0} where
  abbrev pub stop : Bytes → Fs → Outcome Fs
  stop e fs = record { ending = returns (err e); acts = []; fs = fs }

  abbrev pub log : Act → Outcome Fs → Outcome Fs
  log a o = record { ending = o.ending; acts = a ∷ o.acts; fs = o.fs }

module _ {Fs : Type 0} (config : Config) (calls : Calls Fs) where
  -- The loop over the given rounds; the listener is dropped when the closure returns.
  supervised : Listener → Fs → Progress → Outcome Fs
  supervised l fs (running s) = record { ending = serves; acts = []; fs = fs }
  supervised l fs (done r) = record {
    ending = returns r;
    acts = drops_listener ∷ [];
    fs = drop calls.files l fs;
  }

  bound : Result Bytes Listener → Fs → Outcome Fs
  bound (err e) fs = stop (codes "listen " ++ config.listen ++ codes ": " ++ e) fs
  bound (ok l) fs =
      log supervises
        (supervised l (calls.meanwhile fs) (supervise config calls.rounds (start calls.now)).0)

  -- The closure, behind its count of the process's tasks.
  alone : Result Bytes ℕ → Fs → Outcome Fs
  alone (err e) fs = stop e fs
  alone (ok tasks) fs =
      if not (tasks == 1)
      then stop (codes "an extension started threads in the zygote; disable it before forking") fs
      else log (binds config.listen)
          (bound (bind calls.files config.listen fs).0 (bind calls.files config.listen fs).1)

  -- `poly_shutdown` runs when the closure has returned.
  then_shutdown : Ending → Outcome Fs → Outcome Fs
  then_shutdown serves o = o
  then_shutdown _ o = record o { acts = o.acts ++ shuts_down ∷ [] }

  serve : Fs → Outcome Fs
  serve fs = then_shutdown (alone calls.task_count fs).ending (alone calls.task_count fs)

  initialized : ℕ → Fs → Outcome Fs
  initialized status fs =
      if not (status == 0)
      then stop (codes "PHP initialization failed; see diagnostics above") fs
      else serve fs

  with_signals : Option Bytes → Result Bytes ℕ → Fs → Outcome Fs
  with_signals helper (err e) fs = stop (codes "signals: " ++ e) fs
  with_signals helper (ok fd) fs =
      log (initializes config.root config.ini config.defines helper)
        (initialized (calls.initialize config.root config.ini config.defines helper) fs)

  in_root : Option Bytes → Result Bytes (Unit {0}) → Fs → Outcome Fs
  in_root helper (err e) fs = stop e fs
  in_root helper (ok _) fs =
      log (changes_dir config.root) (with_signals helper (signal_fd calls.signals) fs)

  enter : Option Bytes → Fs → Outcome Fs
  enter helper fs = in_root helper (calls.set_current_dir config.root) fs

  found_helper : Result Bytes Bytes → Fs → Outcome Fs
  found_helper (err e) fs = stop (codes "cannot locate installed preload helper: " ++ e) fs
  found_helper (ok helper) fs =
      if has_nul helper then stop (codes "preload path contains NUL") fs else enter (some helper) fs

  locate : Option Bytes → Fs → Outcome Fs
  locate none fs = record { ending = panics; acts = []; fs = fs }
  locate (some directory) fs = found_helper (calls.canonicalize (join directory relative_helper)) fs

  preloading : Result Bytes Bytes → Fs → Outcome Fs
  preloading (err e) fs = stop e fs
  preloading (ok exe) fs = locate (calls.parent exe) fs

  -- The settings are converted before anything else is asked of the system.
  pub run : Fs → Outcome Fs
  run fs =
      if not calls.is_linux
      then stop (codes "v0.1 requires Linux") fs
      else if has_nul config.root
      then stop (codes "root contains NUL") fs
      else if ini_has_nul config.ini
      then stop (codes "INI path contains NUL") fs
      else if any has_nul config.defines
      then record { ending = panics; acts = []; fs = fs }
      else if config.preload
      then preloading calls.current_exe fs
      else enter none fs
