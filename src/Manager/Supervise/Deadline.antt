-- ===== src/Manager/Supervise/Deadline.antt =====
-- src/manager.rs: the request timeout, from the first time stamp of a child to its SIGKILL.
use polychrome_php.Prelude.{
  ℕ, ◌+◌, ◌*◌, ◌≤◌, ◌≡◌, refl, subst, ◌≢◌, ◌⊎◌, inl, inr, true, List, [], ◌∷◌, none, some, ok,
  arith, le→leb,
}
use polychrome_php.Config.{Config}
use polychrome_php.Manager.Pool.{lookup, map_values}
use polychrome_php.Manager.Pool.Laws.{
  Sorted, Each-lookup, lookup-insert, lookup-remove, lookup-map_values, lookup-map_values-none,
  insert-Sorted, remove-Sorted, map_values-Sorted,
}
use polychrome_php.Manager.Worker.{Worker, spawn}
use polychrome_php.Manager.Loop.{State, Exit, Round, second}
use polychrome_php.Manager.Supervise.{
  back_off, add_worker, stamp_phase, stamp_worker, note_stamps, get_or_insert, expire_phase,
  expire_worker, forget, count_exit, step,
}
use polychrome_php.Manager.Supervise.Rules.{Relation, IsLawful, step-Holds}
use polychrome_php.Manager.Supervise.Invariant.{count_exit_workers}
use polychrome_php.Manager.Supervise.Punctual.{
  timeout_ns_exact, IsKilledIfDue, killed_of_expired, step-IsKilledIfDue,
}

-- The pid is gone, or its worker has the first time stamp `x`.
abbrev pub Stamped : ℕ → ℕ → State → Type 0
Stamped p x s =
    (lookup p s.workers ≡ none)
    ⊎ ((w : Worker) × (lookup p s.workers ≡ some w) × (w.started ≡ some x))

-- `fork` does not return this pid in the round.
abbrev pub IsFresh : Round → ℕ → Type 0
IsFresh round p = (i : ℕ) (w : Worker) → spawn (round.attempt i).calls ≢ ok (p, w)

note_stamps-some : (x : ℕ) (stamps : List ℕ) → note_stamps (some x) stamps ≡ some x
unfolding note_stamps get_or_insert
note_stamps-some x [] = refl
note_stamps-some x (y ∷ stamps) = note_stamps-some x stamps

module _ (p x : ℕ) where
  abbrev StampKept : Relation
  StampKept s es t = Sorted s.workers × Stamped p x s → Sorted t.workers × Stamped p x t

  map_values-Stamped :
      (f : ℕ → Worker → Worker)
      → ((w : Worker) → w.started ≡ some x → (f p w).started ≡ some x)
      → (s : State) → Stamped p x s
      → Stamped p x (record s { workers = map_values f s.workers })
  map_values-Stamped f keep s (inl e) = inl (lookup-map_values-none p f s.workers e)
  map_values-Stamped f keep s (inr (w, e, h)) =
      inr (f p w, lookup-map_values p f s.workers w e, keep w h)

  insert-Stamped :
      (pid : ℕ) (w : Worker) (s : State)
      → pid ≢ p
      → Stamped p x s
      → Stamped p x (add_worker pid w s)
  unfolding add_worker
  insert-Stamped pid w s other h = ground (arith, lookup-insert p pid w s.workers)

  count_exit-Stamped :
      (e : Exit) (w : Worker) (s : State)
      → Sorted s.workers × Stamped p x s
      → Sorted (count_exit e w (forget e.pid s)).workers
        × Stamped p x (count_exit e w (forget e.pid s))
  unfolding forget
  count_exit-Stamped e w s h =
      rw (count_exit_workers e w (forget e.pid s)) (
        remove-Sorted e.pid s.workers h.0,
        ground (arith, lookup-remove p e.pid s.workers h.0, h.1),
      )

  StampKept-IsLawful :
      (config : Config) (round : Round) → IsFresh round p → IsLawful config StampKept round
  unfolding back_off stamp_phase stamp_worker expire_phase expire_worker
  StampKept-IsLawful config round fresh = record {
    idle = λ s h. h;
    follow = λ s t u es fs f g h. g (f h);
    birth = λ i pid w s new _ _ h. (
      unfold add_worker in insert-Sorted pid w s.workers h.0,
      insert-Stamped pid w s
          (λ same. fresh i w (subst (λ q. spawn (round.attempt i).calls ≡ ok (q, w)) same new)) h.1,
    );
    failure = λ y now s h. h;
    full = λ s _ _ h. h;
    poll_error = λ y now s _ h. h;
    stamps = λ s h. (
      map_values-Sorted (stamp_worker round) s.workers h.0,
      map_values-Stamped (stamp_worker round)
          (λ w e. rw e (note_stamps-some x (round.stamps w.events))) s h.1,
    );
    first_stop = λ now s _ h. h;
    stop_again = λ now deadline s _ h. h;
    expiry = λ s h. (
      map_values-Sorted (expire_worker config round s.draining) s.workers h.0,
      map_values-Stamped (expire_worker config round s.draining) (λ w e. ground arith) s h.1,
    );
    exit = λ e w s _ h. count_exit-Stamped e w s h;
  }

-- The deadline of a request is enforced and cannot be put off: if the first time stamp of a child is
-- `x`, then a round whose clock stands at or past `x` plus the timeout leaves the child reaped or
-- sent SIGKILL, whatever further stamps its socket holds. The pool is sorted, the timeout is one that
-- the command line takes, and `fork` does not return the child's pid once more in that round.
pub step-deadline :
    (config : Config) (round : Round) (s : State) (p x : ℕ) (w : Worker)
    → Sorted s.workers
    → config.timeout ≤ 86400
    → IsFresh round p
    → lookup p s.workers ≡ some w
    → w.started ≡ some x
    → x + config.timeout * second ≤ round.clock
    → let t = (step config round s).0 in
      (lookup p t.workers ≡ none)
      ⊎ ((w' : Worker) × (lookup p t.workers ≡ some w') × (w'.killed ≡ true))
step-deadline config round s p x w sorted limit fresh found started due =
    outcome_of
      (step-Holds config (StampKept p x) round (StampKept-IsLawful p x config round fresh) s
        (sorted, inr (w, found, started))).1
  where
    t : State
    t = (step config round s).0

    outcome_of :
        Stamped p x t
        → (lookup p t.workers ≡ none)
          ⊎ ((w' : Worker) × (lookup p t.workers ≡ some w') × (w'.killed ≡ true))
    outcome_of (inl gone) = inl gone
    outcome_of (inr (w', there, stamped)) = inr (
      w',
      there,
      killed_of_expired config round t.draining p w'
          (Each-lookup (IsKilledIfDue config round t.draining) t.workers p
            (step-IsKilledIfDue config round s) there)
          (inl (rw stamped (le→leb _ _ (omega (arith, timeout_ns_exact config limit))))),
    )
