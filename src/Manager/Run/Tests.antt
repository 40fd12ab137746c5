-- ===== src/Manager/Run/Tests.antt =====
-- src/manager.rs: `run` at concrete answers of the system.
use polychrome_php.Prelude.{◌≡◌, refl, ◌≢◌, true, [], none, ok}
use polychrome_php.Bytes.{Bytes, codes}
use polychrome_php.Config.{Config, defaults, serve, parse}
use polychrome_php.Config.Reading.{parse-nil}
use polychrome_php.Manager.Listener.Disk.{empty_disk}
use polychrome_php.Manager.Run.{panics, run}
use polychrome_php.Manager.Run.Example.{calm, machine}
use polychrome_php.Manager.Run.Laws.{Course, run-Course}
use polychrome_php.Manager.Run.Panics.{run-parse}

abbrev site : Config
site = record {
  root = codes "/srv/app";
  listen = codes "127.0.0.1:9000";
  workers = 8;
  timeout = 30;
  preload = true;
  ini = none;
  defines = [];
}

run-Course_example : Course site calm (run site calm empty_disk)
run-Course_example = run-Course site calm empty_disk

parse_nothing : parse machine [] ≡ ok (serve site)
unfolding defaults
parse_nothing = parse-nil machine (codes "/srv/app") refl refl

-- The path of the running program has a parent.
has_parent : (exe : Bytes) → calm.current_exe ≡ ok exe → calm.parent exe ≢ none
has_parent exe own none_ = cc

run-parse_example : (run site calm empty_disk).ending ≢ panics
run-parse_example = run-parse machine [] site calm empty_disk parse_nothing has_parent
