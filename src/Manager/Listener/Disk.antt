-- ===== src/Manager/Listener/Disk.antt =====
-- A file system on which the calls of `Listener` behave as the kernel documents, for examples.
use polychrome_php.Prelude.{ℕ, ◌≡◌, refl, Option, none, some, Result, ok, err, if◌then◌else◌}
use polychrome_php.Bytes.{Bytes, codes, eq_bytes}
use polychrome_php.Bytes.Compare.{eq_bytes_refl}
use polychrome_php.Manager.Listener.{FileId, Calls}
use polychrome_php.Manager.Listener.Laws.{IsUnix}

-- Which file stands at which path.
abbrev pub Disk : Type 0
Disk = Bytes → Option FileId

abbrev pub put : Bytes → Option FileId → Disk → Disk
put path file disk q = if eq_bytes path q then file else disk q

abbrev pub fresh_file : FileId
fresh_file = record { dev = 1; ino = 42 }

abbrev metadata : Option FileId → Result Bytes FileId
metadata none = err (codes "ENOENT")
metadata (some id) = ok id

abbrev bind_at : Bytes → Disk → Option FileId → Result Bytes ℕ × Disk
bind_at path disk none = (ok 3, put path (some fresh_file) disk)
bind_at path disk (some _) = (err (codes "EADDRINUSE"), disk)

abbrev unlink : Bytes → Disk → Option FileId → Result Bytes (Unit {0}) × Disk
unlink path disk none = (err (codes "ENOENT"), disk)
unlink path disk (some _) = (ok tt, put path none disk)

abbrev pub disk_calls : Calls Disk
disk_calls = record {
  unix_bind = λ path disk. bind_at path disk (disk path);
  tcp_bind = λ _. ok 3;
  symlink_metadata = λ path disk. metadata (disk path);
  set_permissions = λ path mode disk. (ok tt, disk);
  remove_file = λ path disk. unlink path disk (disk path);
}

unlink-removed :
    (path : Bytes) (disk : Disk) (file : Option FileId)
    → (unlink path disk file).0 ≡ ok tt
    → (e : Bytes) × (metadata ((unlink path disk file).1 path) ≡ err e)
unlink-removed path disk none h = cc
unlink-removed path disk (some _) h = (codes "ENOENT", rw (eq_bytes_refl path))

unlink-not_removed :
    (path e : Bytes) (disk : Disk) (file : Option FileId)
    → (unlink path disk file).0 ≡ err e
    → metadata ((unlink path disk file).1 path) ≡ metadata (disk path)
unlink-not_removed path e disk none h = refl
unlink-not_removed path e disk (some _) h = cc

pub disk-IsUnix : IsUnix disk_calls
disk-IsUnix = record {
  permissions_keep = λ path mode fd disk _. refl;
  removed = λ path disk h. unlink-removed path disk (disk path) h;
  not_removed = λ path e disk h. unlink-not_removed path e disk (disk path) h;
}

-- The same on a disk whose files can neither be changed nor be removed any more.
abbrev pub frozen_calls : Calls Disk
frozen_calls = record disk_calls {
  set_permissions = λ path mode disk. (err (codes "EROFS"), disk);
  remove_file = λ path disk. (err (codes "EROFS"), disk);
}

pub frozen-IsUnix : IsUnix frozen_calls
frozen-IsUnix = record {
  permissions_keep = λ path mode fd disk _. refl;
  removed = λ path disk h. cc h;
  not_removed = λ path e disk h. refl;
}

abbrev pub empty_disk : Disk
empty_disk _ = none
