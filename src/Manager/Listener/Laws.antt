-- ===== src/Manager/Listener/Laws.antt =====
-- src/manager.rs: which socket files `bind` and `drop` leave behind.
use polychrome_php.Prelude.{
  ℕ, ◌≡◌, refl, ap, ◌∙◌, ◌≢◌, inl, inr, true, ◌++◌, some, Result, ok, err, arith, Bool-cases,
  Result-cases,
}
use polychrome_php.Bytes.{Bytes}
use polychrome_php.Bytes.Compare.{strip_prefix_append}
use polychrome_php.Manager.Listener.{
  FileId, Calls, Listener, unix_prefix, same_file, owns, drop_socket, drop, permit, identify,
  bind_unix, bind,
}

-- What the system documents of its calls: changing the mode of a socket that was just bound keeps the
-- file what it is; a file that was removed with success is gone; and where the removal failed, the
-- file is still there. Binding, changing the mode and removing may all fail.
pub record IsUnix {Fs : Type 0} (calls : Calls Fs) : Type 0 where
  pub permissions_keep :
      (path : Bytes) (mode fd : ℕ) (fs : Fs)
      → let bound = calls.unix_bind path fs in
        bound.0 ≡ ok fd
        → calls.symlink_metadata path (calls.set_permissions path mode bound.1).1
          ≡ calls.symlink_metadata path bound.1
  pub removed :
      (path : Bytes) (fs : Fs)
      → (calls.remove_file path fs).0 ≡ ok tt
      → (e : Bytes) × (calls.symlink_metadata path (calls.remove_file path fs).1 ≡ err e)
  pub not_removed :
      (path : Bytes) (e : Bytes) (fs : Fs)
      → (calls.remove_file path fs).0 ≡ err e
      → calls.symlink_metadata path (calls.remove_file path fs).1 ≡ calls.symlink_metadata path fs

module _ {Fs : Type 0} (calls : Calls Fs) where
  -- No file stands at the path.
  abbrev pub IsFree : Bytes → Fs → Type 0
  IsFree path fs = (e : Bytes) × (calls.symlink_metadata path fs ≡ err e)

  same_file_self : (id : FileId) → same_file id id ≡ true
  same_file_self id = ground arith

  owns_own :
      (path : Bytes) (id : FileId) (fs : Fs)
      → calls.symlink_metadata path fs ≡ ok id
      → owns calls path id fs ≡ true
  unfolding owns
  owns_own path id fs there = rw (there, owns) (same_file_self id)

  own_of_owns :
      (path : Bytes) (id : FileId) (fs : Fs)
      → owns calls path id fs ≡ true
      → calls.symlink_metadata path fs ≡ ok id
  unfolding owns
  own_of_owns path id fs h = elim (Result-cases (calls.symlink_metadata path fs)) [
    | inl (found, e) ↦ ground (arith, e)
    | inr (x, e) ↦ absurd (ground (arith, e))
  ]

  drop_own :
      (path : Bytes) (l : Listener) (id : FileId) (fs : Fs)
      → l.socket ≡ some (path, id)
      → calls.symlink_metadata path fs ≡ ok id
      → drop calls l fs ≡ (calls.remove_file path fs).1
  unfolding drop drop_socket
  drop_own path l id fs own there = rw (own, drop_socket, owns_own path id fs there)

  -- Dropping a listener changes nothing where its path holds another file by then, or none: the
  -- socket of a server that has taken the path over is never removed.
  pub drop_foreign :
      (l : Listener) (path : Bytes) (id : FileId) (fs : Fs)
      → l.socket ≡ some (path, id)
      → calls.symlink_metadata path fs ≢ ok id
      → drop calls l fs ≡ fs
  unfolding drop drop_socket
  drop_foreign l path id fs own other = elim (Bool-cases (owns calls path id fs)) [
    | inl e ↦ absurd (other (own_of_owns path id fs e))
    | inr e ↦ rw (own, drop_socket, e)
  ]

  bind-unix :
      (path : Bytes) (fs : Fs) → bind calls (unix_prefix ++ path) fs ≡ bind_unix calls path fs
  unfolding bind
  bind-unix path fs = rw (strip_prefix_append unix_prefix path, bind)

  -- What a bind at a socket path comes to. `made` is the file system behind the call that binds.
  pub data BindOutcome (path : Bytes) (fs : Fs) (r : Result Bytes Listener × Fs) : Type 0 where
    bound :
        (l : Listener) (id : FileId)
        → r.0 ≡ ok l
        → (calls.unix_bind path fs).0 ≡ ok l.fd
        → l.socket ≡ some (path, id)
        → calls.symlink_metadata path r.1 ≡ ok id
        → calls.set_permissions path 0o660 (calls.unix_bind path fs).1 ≡ (ok tt, r.1)
        → BindOutcome path fs r
    refused :
        (e : Bytes) → r.0 ≡ err e → calls.unix_bind path fs ≡ (err e, r.1) → BindOutcome path fs r
    cleaned :
        (e : Bytes)
        → r.0 ≡ err e
        → (calls.set_permissions path 0o660 (calls.unix_bind path fs).1).0 ≡ err e
        → IsFree path r.1
        → BindOutcome path fs r
    left :
        (e x : Bytes) (id : FileId)
        → r.0 ≡ err e
        → (calls.set_permissions path 0o660 (calls.unix_bind path fs).1).0 ≡ err e
        → (calls.remove_file path
            (calls.set_permissions path 0o660 (calls.unix_bind path fs).1).1).0
          ≡ err x
        → calls.symlink_metadata path r.1 ≡ ok id
        → BindOutcome path fs r
    unidentified :
        (e : Bytes) (fd : ℕ)
        → r.0 ≡ err e
        → calls.unix_bind path fs ≡ (ok fd, r.1)
        → calls.symlink_metadata path r.1 ≡ err e
        → BindOutcome path fs r

  module _ (unix : IsUnix calls) (path : Bytes) (fs : Fs) where
    abbrev made : Fs
    made = (calls.unix_bind path fs).1

    abbrev permitted : Result Bytes (Unit {0}) × Fs
    permitted = calls.set_permissions path 0o660 made

    -- The mode could not be set, and the listener is dropped.
    undone-BindOutcome :
        (l : Listener) (id : FileId) (e : Bytes)
        → l.socket ≡ some (path, id)
        → calls.symlink_metadata path permitted.1 ≡ ok id
        → permitted.0 ≡ err e
        → BindOutcome path fs (err e, drop calls l permitted.1)
    undone-BindOutcome l id e own there bad =
        let dropped = drop_own path l id permitted.1 own there in
        elim (Result-cases (calls.remove_file path permitted.1).0) [
          | inl (u, done) ↦ cleaned e refl bad (rw dropped (unix.removed path permitted.1 done))
          | inr (x, failed) ↦
              left e x id refl bad failed
                (rw dropped (unix.not_removed path x permitted.1 failed ∙ there))
        ]

    permit-BindOutcome :
        (fd : ℕ) (id : FileId)
        → (calls.unix_bind path fs).0 ≡ ok fd
        → calls.symlink_metadata path made ≡ ok id
        → BindOutcome path fs
            (permit calls path (record { fd = fd; socket = some (path, id) }) made)
    unfolding permit
    permit-BindOutcome fd id new there =
        let kept = unix.permissions_keep path 0o660 fd fs new ∙ there in
        let l : Listener = record { fd = fd; socket = some (path, id) } in
        elim (Result-cases permitted.0) [
          | inl (u, e) ↦
              rw (e, permit) (bound l id refl new refl kept (ap (λ o. (o, permitted.1)) e))
          | inr (x, e) ↦ rw (e, permit) (undone-BindOutcome l id x refl kept e)
        ]

    identify-BindOutcome :
        (fd : ℕ)
        → (calls.unix_bind path fs).0 ≡ ok fd
        → BindOutcome path fs (identify calls path fd made)
    unfolding identify
    identify-BindOutcome fd new = elim (Result-cases (calls.symlink_metadata path made)) [
      | inl (id, e) ↦ rw (e, identify) (permit-BindOutcome fd id new e)
      | inr (x, e) ↦ rw (e, identify) (unidentified x fd refl (ap (λ o. (o, made)) new) e)
    ]

    bind_unix-BindOutcome : BindOutcome path fs (bind_unix calls path fs)
    unfolding bind_unix
    bind_unix-BindOutcome = elim (Result-cases (calls.unix_bind path fs).0) [
      | inl (fd, e) ↦ rw (e, bind_unix) (identify-BindOutcome fd e)
      | inr (x, e) ↦ rw (e, bind_unix) (refused x refl (ap (λ o. (o, made)) e))
    ]

  -- Binding a socket path ends in one of five ways: a listener that owns the file at its path, whose
  -- mode was set; or the call that binds failed, and nothing was done behind it; or the mode could not
  -- be set, and no file is left at the path; or the mode could not be set and the removal failed too,
  -- so the socket stays; or the metadata of the new socket could not be read. Changing a mode and
  -- removing a file behave as the system documents.
  pub bind-BindOutcome :
      IsUnix calls
      → (path : Bytes) (fs : Fs) → BindOutcome path fs (bind calls (unix_prefix ++ path) fs)
  bind-BindOutcome unix path fs = rw (bind-unix path fs) (bind_unix-BindOutcome unix path fs)

  drop_bound :
      (path : Bytes) (fs : Fs) (r : Result Bytes Listener × Fs) (l : Listener)
      → BindOutcome path fs r
      → r.0 ≡ ok l
      → drop calls l r.1 ≡ (calls.remove_file path r.1).1
  drop_bound path fs r l (bound k id same _ own there _) h =
      drop_own path l id r.1 (ground arith) there
  drop_bound path fs r l (refused e same _) h = cc
  drop_bound path fs r l (cleaned e same _ _) h = cc
  drop_bound path fs r l (left e x id same _ _ _) h = cc
  drop_bound path fs r l (unidentified e fd same _ _) h = cc

  -- Dropping a listener right behind its `bind` comes to one call that removes the file at the path
  -- that was bound: what `bind` noted is what `drop` finds. Changing a mode behaves as the system
  -- documents.
  pub drop-bind :
      IsUnix calls
      → (path : Bytes) (fs : Fs) (l : Listener) → (bind calls (unix_prefix ++ path) fs).0 ≡ ok l
      → let after = (bind calls (unix_prefix ++ path) fs).1 in
        drop calls l after ≡ (calls.remove_file path after).1
  drop-bind unix path fs l h =
      drop_bound path fs (bind calls (unix_prefix ++ path) fs) l (bind-BindOutcome unix path fs) h
