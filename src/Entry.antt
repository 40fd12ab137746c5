-- ===== src/Entry.antt =====
-- src/lib.rs: `polychrome_main`, the entry point. What it prints is a list of lines to a stream.
pub mod Laws
mod Tests
use polychrome_php.Prelude.{ℕ, List, [], ◌∷◌, ◌++◌, Option, none, some, Result, ok, err}
use polychrome_php.Bytes.{Bytes, codes}
use polychrome_php.Config.{Config, Command, help, version, serve, Host, Error, parse}
use polychrome_php.Config.Message.{message}
use polychrome_php.Manager.Run.{Calls, Outcome, Ending, returns, panics, serves, run}

-- The usage text is `HELP` of src/config.rs, the version line is made of Polychrome's and PHP's.
pub data Line : Type 0 where
  out_help out_version : Line
  error_line : Bytes → Line

-- A status is there unless the process panics or still serves.
pub record Exit : Type 0 where
  pub lines : List Line
  pub status : Option ℕ

prefix : Bytes
prefix = codes "polychrome: "

hint : Bytes
hint = codes "\nTry --help for usage."

exit_of : Ending → Exit
exit_of (returns (ok _)) = record { lines = []; status = some 0 }
exit_of (returns (err e)) = record { lines = error_line (prefix ++ e) ∷ []; status = some 1 }
exit_of panics = record { lines = []; status = none }
exit_of serves = record { lines = []; status = none }

module _ {Fs : Type 0} (calls : Calls Fs) (fs : Fs) where
  main_of : Result Error Command → Exit
  main_of (ok help) = record { lines = out_help ∷ []; status = some 0 }
  main_of (ok version) = record { lines = out_version ∷ []; status = some 0 }
  main_of (ok (serve config)) = exit_of (run config calls fs).ending
  main_of (err e) = record {
    lines = error_line (prefix ++ message e ++ hint) ∷ [];
    status = some 2;
  }

  pub polychrome_main : Host → List Bytes → Exit
  polychrome_main host args = main_of (parse host args)
