-- ===== src/Manager/Run/Example.antt =====
-- A machine on which `run` finds nothing in its way, for examples.
use polychrome_php.Prelude.{◌≡◌, refl, ◌==◌, if◌then◌else◌, true, [], ◌∷◌, Option, none, some, ok}
use polychrome_php.Bytes.{Bytes, codes}
use polychrome_php.Config.{Host}
use polychrome_php.Manager.Listener.Disk.{Disk, disk_calls}
use polychrome_php.Manager.Run.{Calls}

-- What stands before the last slash.
abbrev before_slash : Bytes → Option Bytes
before_slash [] = none
before_slash (c ∷ s) = elim (before_slash s) [
  | some d ↦ some (c ∷ d)
  | none ↦ if c == b'/' then some [] else none
]

-- `Path::parent`, on paths with no slash at their end and none doubled: the root and the empty path
-- have no parent.
abbrev parent_of : Bytes → Option Bytes
parent_of [] = none
parent_of (c ∷ []) = if c == b'/' then none else some []
parent_of (c ∷ d ∷ s) = elim (before_slash (c ∷ d ∷ s)) [
  | none ↦ some []
  | some [] ↦ some (codes "/")
  | some (e ∷ t) ↦ some (e ∷ t)
]

abbrev pub program : Bytes
program = codes "/opt/polychrome/bin/polychrome"

program_parent : parent_of program ≡ some (codes "/opt/polychrome/bin")
program_parent = refl

root_parent : parent_of (codes "/") ≡ none
root_parent = refl

abbrev pub calm : Calls Disk
calm = record {
  is_linux = true;
  current_exe = ok program;
  parent = parent_of;
  canonicalize = λ path. ok path;
  set_current_dir = λ _. ok tt;
  signals = record { sigprocmask = λ _. ok tt; signalfd = λ _. ok 4 };
  initialize = λ _ _ _ _. 0;
  task_count = ok 1;
  files = disk_calls;
  meanwhile = λ disk. disk;
  now = 0;
  rounds = [];
}

abbrev pub machine : Host
machine = record {
  available_parallelism = some 8;
  canonicalize = λ _. ok (codes "/srv/app");
  is_dir = λ _. true;
}
