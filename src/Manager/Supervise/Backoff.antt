-- ===== src/Manager/Supervise/Backoff.antt =====
-- src/manager.rs: filling the pool.
use polychrome_php.Prelude.{
  ℕ, zero, suc, ◌+◌, ◌≤◌, ◌<◌, ◌≡◌, subst, ◌≢◌, ◌⊎◌, inl, inr, true, not, ◌&&◌, List, [], ◌∷◌, ◌++◌,
  none, ok, arith, length, leb, ltb, ltb→lt, ◌==◌, Bool-cases, Result-cases,
}
use polychrome_php.Config.{Config}
use polychrome_php.Manager.Pool.{insert, lookup}
use polychrome_php.Manager.Pool.Laws.{length-insert_new, lookup-insert}
use polychrome_php.Manager.Worker.{Worker, spawn}
use polychrome_php.Manager.Loop.{State, Event, spawned, spawn_failed, Round, is_some}
use polychrome_php.Manager.Supervise.{add_worker, fill, announce, spawn_phase}

abbrev pub HasFailure : List Event → Type 0
HasFailure [] = ⊥
HasFailure (spawn_failed _ ∷ es) = Unit
HasFailure (_ ∷ es) = HasFailure es

HasFailure-append : (es fs : List Event) → HasFailure es → HasFailure (es ++ fs)
HasFailure-append [] fs h = absurd h
HasFailure-append (spawn_failed x ∷ es) fs h = tt
HasFailure-append (spawned p ∷ es) fs h = HasFailure-append es fs h
HasFailure-append (_ ∷ es) fs h = HasFailure-append es fs h

-- The pids that `fork` returns in one round are not in the pool, and differ from each other.
abbrev pub ForksFresh : Round → ℕ → State → Type 0
ForksFresh round i s =
    (j pid : ℕ) (w : Worker)
    → i ≤ j
    → spawn (round.attempt j).calls ≡ ok (pid, w)
    → lookup pid s.workers ≡ none

abbrev pub ForksApart : Round → Type 0
ForksApart round =
    (j k pid : ℕ) (v w : Worker)
    → j < k
    → spawn (round.attempt j).calls ≡ ok (pid, v)
    → spawn (round.attempt k).calls ≢ ok (pid, w)

module _ (config : Config) (round : Round) (apart : ForksApart round) where
  ForksFresh-add_worker :
      (i pid : ℕ) (w : Worker) (s : State)
      → spawn (round.attempt i).calls ≡ ok (pid, w)
      → ForksFresh round i s
      → ForksFresh round (i + 1) (add_worker pid w s)
  unfolding add_worker
  ForksFresh-add_worker i pid w s new fresh j q v le e = elim (Bool-cases (pid == q)) [
    | inl same ↦
        let equal : q ≡ pid = ground arith in
        absurd (
          apart i j pid w v (omega arith) new
            (subst (λ x. spawn (round.attempt j).calls ≡ ok (x, v)) equal e))
    | inr other ↦ ground (arith, lookup-insert q pid w s.workers, fresh j q v (omega arith) e)
  ]

  fill-full :
      (fuel i : ℕ) (s : State)
      → ForksFresh round i s
      → length s.workers ≤ config.workers
      → config.workers ≤ length s.workers + fuel
      → (length (fill fuel config round i s).0.workers ≡ config.workers)
        ⊎ HasFailure (fill fuel config round i s).1
  unfolding fill
  fill-full zero i s fresh le room = inl (omega arith)
  fill-full (suc fuel) i s fresh le room =
      elim (Bool-cases (ltb (length s.workers) config.workers)) [
        | inr full ↦ rw full (inl (ground arith))
        | inl more ↦ elim (Result-cases (spawn (round.attempt i).calls)) [
          | inr (x, e) ↦ rw (more, e) (inr tt)
          | inl ((pid, w), e) ↦
              let grown : length (insert pid w s.workers) ≡ length s.workers + 1 =
                length-insert_new pid w s.workers (fresh i pid w (omega arith) e) in
              let below : length s.workers < config.workers = ltb→lt _ _ more in
              rw (more, e)
                (fill-full fuel (i + 1) (add_worker pid w s)
                  (ForksFresh-add_worker i pid w s e fresh)
                  (unfold add_worker in omega (arith, grown))
                  (unfold add_worker in omega (arith, grown)))
        ]
      ]

announce-ready :
    (config : Config) (s : State)
    → length s.workers ≡ config.workers
    → ((announce config s).0.ready ≡ true) × ((announce config s).0.workers ≡ s.workers)
unfolding announce
announce-ready config s h = ground arith

-- The fuel of the loop that fills the pool is enough: where the pool does not drain, holds no more
-- than its size, and no back-off lasts, and `fork` returns pids that are new, the phase leaves the
-- pool with exactly `config.workers` children and reported ready, unless a call of `spawn` failed.
pub spawn_phase-full :
    (config : Config) (round : Round) (s : State)
    → s.draining ≡ none
    → s.retry_at ≤ round.now
    → length s.workers ≤ config.workers
    → ForksFresh round 0 s
    → ForksApart round
    → let r = spawn_phase config round s in
      ((length r.0.workers ≡ config.workers) × (r.0.ready ≡ true)) ⊎ HasFailure r.1
unfolding spawn_phase
spawn_phase-full config round s off due le fresh apart =
    let open_ : (not (is_some s.draining) && leb s.retry_at round.now) ≡ true = ground arith in
    rw open_ (filled (fill-full config round apart config.workers 0 s fresh le (omega arith)))
  where
    r : State × List Event
    r = fill config.workers config round 0 s

    filled :
        (length r.0.workers ≡ config.workers) ⊎ HasFailure r.1
        → ((length (announce config r.0).0.workers ≡ config.workers)
            × ((announce config r.0).0.ready ≡ true))
          ⊎ HasFailure (r.1 ++ (announce config r.0).1)
    filled (inl full) =
        let (ready, same) = announce-ready config r.0 full in inl (rw same full, ready)
    filled (inr failed) = inr (HasFailure-append r.1 (announce config r.0).1 failed)
