-- ===== src/Entry/Tests.antt =====
-- src/lib.rs: the statuses at concrete inputs.
use polychrome_php.Prelude.{[], ◌∷◌}
use polychrome_php.Bytes.{codes}
use polychrome_php.Config.{parse}
use polychrome_php.Manager.Listener.Disk.{empty_disk}
use polychrome_php.Manager.Run.Example.{calm, machine}
use polychrome_php.Entry.{polychrome_main}
use polychrome_php.Entry.Laws.{StatusMeans, polychrome_main-status}

polychrome_main-status_example :
    StatusMeans calm empty_disk
      (parse machine (codes "--workers" ∷ []))
      (polychrome_main calm empty_disk machine (codes "--workers" ∷ [])).status
polychrome_main-status_example =
    polychrome_main-status calm empty_disk machine (codes "--workers" ∷ [])
