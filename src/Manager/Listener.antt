-- ===== src/Manager/Listener.antt =====
-- src/manager.rs: `Listener`, with `bind` and `drop`. The file system is a state of any type `Fs`,
-- and the calls on it are the parameter `Calls`.
pub mod Laws
pub mod Disk
mod Tests
use polychrome_php.Prelude.{
  ℕ, Bool, true, false, ◌&&◌, Option, none, some, Result, ok, err, ◌==◌, if◌then◌else◌,
}
use polychrome_php.Bytes.{Bytes, codes, strip_prefix}

-- What tells a file from another: its device and its inode.
pub record FileId : Type 0 where
  pub dev : ℕ
  pub ino : ℕ

-- The calls that may change the file system return the new one behind their result.
pub record Calls (Fs : Type 0) : Type 0 where
  pub unix_bind : Bytes → Fs → Result Bytes ℕ × Fs
  pub tcp_bind : Bytes → Result Bytes ℕ
  pub symlink_metadata : Bytes → Fs → Result Bytes FileId
  pub set_permissions : Bytes → ℕ → Fs → Result Bytes (Unit {0}) × Fs
  pub remove_file : Bytes → Fs → Result Bytes (Unit {0}) × Fs

pub record Listener : Type 0 where
  pub fd : ℕ
  pub socket : Option (Bytes × FileId)

abbrev pub unix_prefix : Bytes
unix_prefix = codes "unix:"

abbrev pub same_file : FileId → FileId → Bool
same_file a b = a.dev == b.dev && a.ino == b.ino

module _ {Fs : Type 0} (calls : Calls Fs) where
  -- `symlink_metadata(path).is_ok_and(|m| m.dev() == dev && m.ino() == ino)`.
  owns : Bytes → FileId → Fs → Bool
  owns path id fs = elim (calls.symlink_metadata path fs) [
    | ok found ↦ same_file found id
    | err _ ↦ false
  ]

  drop_socket : Option (Bytes × FileId) → Fs → Fs
  drop_socket none fs = fs
  drop_socket (some (path, id)) fs = if owns path id fs then (calls.remove_file path fs).1 else fs

  -- `Drop for Listener`; the result of the removal is thrown away.
  pub drop : Listener → Fs → Fs
  drop l fs = drop_socket l.socket fs

  -- The listener exists before its permissions are set, so an error there drops it.
  permit : Bytes → Listener → Fs → Result Bytes Listener × Fs
  permit path l fs =
      let (result, fs') = calls.set_permissions path 0o660 fs in
      elim result [ ok _ ↦ (ok l, fs') | err e ↦ (err e, drop l fs') ]

  identify : Bytes → ℕ → Fs → Result Bytes Listener × Fs
  identify path fd fs = elim (calls.symlink_metadata path fs) [
    | err e ↦ (err e, fs)
    | ok id ↦ permit path (record { fd = fd; socket = some (path, id) }) fs
  ]

  bind_unix : Bytes → Fs → Result Bytes Listener × Fs
  bind_unix path fs =
      let (result, fs') = calls.unix_bind path fs in
      elim result [ err e ↦ (err e, fs') | ok fd ↦ identify path fd fs' ]

  bind_tcp : Bytes → Fs → Result Bytes Listener × Fs
  bind_tcp endpoint fs = elim (calls.tcp_bind endpoint) [
    | err e ↦ (err e, fs)
    | ok fd ↦ (ok (record { fd = fd; socket = none }), fs)
  ]

  pub bind : Bytes → Fs → Result Bytes Listener × Fs
  bind endpoint fs = elim (strip_prefix unix_prefix endpoint) [
    | some path ↦ bind_unix path fs
    | none ↦ bind_tcp endpoint fs
  ]
