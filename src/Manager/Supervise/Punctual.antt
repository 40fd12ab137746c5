-- ===== src/Manager/Supervise/Punctual.antt =====
-- src/manager.rs: what the phase that sends SIGKILL leaves behind.
use polychrome_php.Prelude.{
  ℕ, ◌+◌, ◌*◌, ◌≤◌, ◌<◌, ◌≡◌, refl, ◌⊎◌, inl, inr, true, false, List, [], ◌∷◌, Option, none, some,
  arith, ◌==◌, Bool-cases, Option-cases,
}
use polychrome_php.Config.{Config}
use polychrome_php.Manager.Pool.{Pool, lookup, remove, map_values}
use polychrome_php.Manager.Pool.Laws.{Each}
use polychrome_php.Manager.Worker.{Worker}
use polychrome_php.Manager.Loop.{State, Exit, Round, second}
use polychrome_php.Manager.Supervise.{
  timeout_ns, expired, drain_expired, overdue, expire_phase, expire_worker, forget, reap,
  reap_phase, before_reap, step,
}
use polychrome_php.Manager.Supervise.Invariant.{count_exit_workers, count_exit_draining}

-- A configuration within the limits of the command line has a timeout that a u64 holds, in
-- nanoseconds.
pub timeout_ns_exact :
    (config : Config) → config.timeout ≤ 86400 → timeout_ns config ≡ config.timeout * second
unfolding timeout_ns
timeout_ns_exact config h = omega arith

Each-remove {κ} :
    {V : Type 0} (P : ℕ → V → Type κ) (k : ℕ) (m : Pool V) → Each P m → Each P (remove k m)
unfolding remove
Each-remove P k [] h = tt
Each-remove P k ((j, w) ∷ m) h = elim (Bool-cases (j == k)) [
  | inl e ↦ rw e h.1
  | inr e ↦ rw e (h.0, Each-remove P k m h.1)
]

-- What is due is marked: the worker was sent SIGKILL, or neither deadline has passed.
abbrev pub IsKilledIfDue : Config → Round → Option ℕ → ℕ → Worker → Type 0
IsKilledIfDue config round draining pid w =
    (w.killed ≡ true)
    ⊎ ((expired config round w ≡ false) × (drain_expired round draining pid ≡ false))

pub killed_of_expired :
    (config : Config) (round : Round) (draining : Option ℕ) (pid : ℕ) (w : Worker)
    → IsKilledIfDue config round draining pid w
    → (expired config round w ≡ true) ⊎ (drain_expired round draining pid ≡ true)
    → w.killed ≡ true
killed_of_expired config round draining pid w (inl killed) due = killed
killed_of_expired config round draining pid w (inr (early, calm)) (inl e) = cc
killed_of_expired config round draining pid w (inr (early, calm)) (inr e) = cc

-- What holds of every worker still does when children were reaped.
module _ (P : Option ℕ → ℕ → Worker → Type 0) where
  abbrev pub AllAre : State → Type 0
  AllAre s = Each (P s.draining) s.workers

  reap-AllAre : (e : Exit) (s : State) → AllAre s → AllAre (reap e s).0
  unfolding reap
  reap-AllAre e s h = elim (Option-cases (lookup e.pid s.workers)) [
    | inl miss ↦ rw (miss, reap) h
    | inr (w, found) ↦
        rw
          (
            found,
            reap,
            count_exit_workers e w (forget e.pid s),
            count_exit_draining e w (forget e.pid s),
          )
          (unfold forget in Each-remove _ e.pid s.workers h)
  ]

  pub reap_phase-AllAre : (es : List Exit) (s : State) → AllAre s → AllAre (reap_phase es s).0
  unfolding reap_phase
  reap_phase-AllAre [] s h = h
  reap_phase-AllAre (e ∷ es) s h = reap_phase-AllAre es (reap e s).0 (reap-AllAre e s h)

module _ (config : Config) (round : Round) where
  expire_worker-IsKilledIfDue :
      (draining : Option ℕ) (pid : ℕ) (w : Worker)
      → IsKilledIfDue config round draining pid (expire_worker config round draining pid w)
  unfolding expire_worker overdue
  expire_worker-IsKilledIfDue draining pid w = ground arith

  expire-IsKilledIfDue :
      (draining : Option ℕ) (m : Pool Worker)
      → Each
          (IsKilledIfDue config round draining)
          (map_values (expire_worker config round draining) m)
  expire-IsKilledIfDue draining [] = tt
  expire-IsKilledIfDue draining ((pid, w) ∷ m) =
      (expire_worker-IsKilledIfDue draining pid w, expire-IsKilledIfDue draining m)

  pub step-IsKilledIfDue :
      (s : State)
      → let t = (step config round s).0 in Each (IsKilledIfDue config round t.draining) t.workers
  unfolding step before_reap expire_phase
  step-IsKilledIfDue s =
      reap_phase-AllAre (IsKilledIfDue config round) round.exits _ (expire-IsKilledIfDue _ _)

-- Neither deadline has passed by the times that the round reads: that of the request, counted from
-- the first time stamp, if there is one, and that of the drain, if there is one.
abbrev pub IsInTime : Config → Round → Option ℕ → ℕ → Worker → Type 0
IsInTime config round draining pid w =
    ((w.started ≡ none)
      ⊎ ((x : ℕ) × (w.started ≡ some x) × (round.clock < x + config.timeout * second)))
    × ((draining ≡ none) ⊎ ((d : ℕ) × (draining ≡ some d) × (round.expiry_now pid < d)))

abbrev pub IsKilledOrInTime : Config → Round → Option ℕ → ℕ → Worker → Type 0
IsKilledOrInTime config round draining pid w =
    (w.killed ≡ true) ⊎ IsInTime config round draining pid w

in_time_of_expired :
    (config : Config) (round : Round) (draining : Option ℕ) (pid : ℕ) (w : Worker)
    → config.timeout ≤ 86400
    → IsKilledIfDue config round draining pid w
    → IsKilledOrInTime config round draining pid w
in_time_of_expired config round draining pid w limit (inl killed) = inl killed
in_time_of_expired config round draining pid w limit (inr (early, calm)) =
    inr (request (Option-cases w.started), drain draining calm)
  where
    request :
        (w.started ≡ none) ⊎ ((x : ℕ) × (w.started ≡ some x))
        → (w.started ≡ none)
          ⊎ ((x : ℕ) × (w.started ≡ some x) × (round.clock < x + config.timeout * second))
    request (inl e) = inl e
    request (inr (x, e)) = inr (x, e, ground (arith, timeout_ns_exact config limit, e, early))

    drain :
        (deadline : Option ℕ)
        → drain_expired round deadline pid ≡ false
        → (deadline ≡ none) ⊎ ((d : ℕ) × (deadline ≡ some d) × (round.expiry_now pid < d))
    drain none h = inl refl
    drain (some d) h = inr (d, refl, ground (arith, h))

pub Each-map {κ μ} :
    {V : Type 0} (P : ℕ → V → Type κ) (Q : ℕ → V → Type μ) (m : Pool V)
    → ((k : ℕ) (v : V) → P k v → Q k v)
    → Each P m
    → Each Q m
Each-map P Q [] f h = tt
Each-map P Q ((k, v) ∷ m) f h = (f k v h.0, Each-map P Q m f h.1)

-- After a round, every child of the pool has been marked as sent SIGKILL, or is in time: the clock of
-- the round stands before its first time stamp plus the timeout, or it has no time stamp; and the
-- instant at which the round looked at it lies before the deadline of the drain, as the round leaves
-- that, or there is no drain. The timeout is one that the command line takes.
pub step-IsInTime :
    (config : Config) (round : Round) (s : State)
    → config.timeout ≤ 86400
    → let t = (step config round s).0 in Each (IsKilledOrInTime config round t.draining) t.workers
step-IsInTime config round s limit =
    Each-map _ _ (step config round s).0.workers
      (λ pid w h. in_time_of_expired config round (step config round s).0.draining pid w limit h)
      (step-IsKilledIfDue config round s)
