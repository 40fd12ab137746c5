-- ===== src/Manager/Supervise/Mercy.antt =====
-- src/manager.rs: which children are sent SIGKILL.
use polychrome_php.Prelude.{
  ℕ, zero, suc, ◌+◌, ◌*◌, ◌≤◌, ◌≡◌, refl, ◌⊎◌, inl, inr, true, false, not, ◌&&◌, List, [], ◌∷◌,
  Option, none, some, arith, length, ltb, leb, ◌==◌, Bool-cases, Option-cases, Result-cases,
}
use polychrome_php.Config.{Config}
use polychrome_php.Manager.Pool.{Pool, insert, map_values}
use polychrome_php.Manager.Pool.Laws.{Each}
use polychrome_php.Manager.Worker.{Worker, spawn}
use polychrome_php.Manager.Loop.{
  State, Poll, polled, interrupted, poll_failed, Delivery, Round, is_some, second,
}
use polychrome_php.Manager.Supervise.{
  expired, drain_expired, overdue, add_worker, back_off, fill, announce, spawn_phase, poll_phase,
  stamp_phase, stamp_worker, is_stop, stop_at, stop, deliver, signal_phase, expire_phase,
  expire_worker, before_reap, step,
}
use polychrome_php.Manager.Supervise.Rules.{spawn-fresh}
use polychrome_php.Manager.Supervise.Punctual.{timeout_ns_exact, Each-map, reap_phase-AllAre}

-- An entry of the pool.
abbrev pub IsEntry : ℕ → Worker → Pool Worker → Type 0
IsEntry p w [] = ⊥
IsEntry p w ((q, v) ∷ m) = ((p ≡ q) × (w ≡ v)) ⊎ IsEntry p w m

-- Before the round, the child was marked as sent SIGKILL.
abbrev pub WasKilled : State → ℕ → Type 0
WasKilled s p = (w : Worker) × IsEntry p w s.workers × (w.killed ≡ true)

-- A deadline has passed by the times that the round reads: that of the request, or that of the drain.
abbrev pub IsLate : Config → Round → Option ℕ → ℕ → Worker → Type 0
IsLate config round draining p w =
    ((x : ℕ) × (w.started ≡ some x) × (x + config.timeout * second ≤ round.clock))
    ⊎ ((d : ℕ) × (draining ≡ some d) × (d ≤ round.expiry_now p))

Each-insert {κ} :
    (P : ℕ → Worker → Type κ) (p : ℕ) (w : Worker) (m : Pool Worker)
    → P p w
    → Each P m
    → Each P (insert p w m)
unfolding insert
Each-insert P p w [] new h = (new, tt)
Each-insert P p w ((q, v) ∷ m) new h = elim (Bool-cases (ltb p q)) [
  | inl e ↦ rw e (new, h)
  | inr e ↦ elim (Bool-cases (p == q)) [
    | inl f ↦ rw (e, f) (new, h.1)
    | inr f ↦ rw (e, f) (h.0, Each-insert P p w m new h.1)
  ]
]

entries : (m : Pool Worker) → Each (λ p w. IsEntry p w m) m
entries [] = tt
entries ((p, w) ∷ m) =
    (inl (refl, refl), Each-map (λ q v. IsEntry q v m) _ m (λ q v h. inr h) (entries m))

Each-map_values {κ μ} :
    (P : ℕ → Worker → Type κ) (Q : ℕ → Worker → Type μ) (f : ℕ → Worker → Worker) (m : Pool Worker)
    → ((p : ℕ) (w : Worker) → P p w → Q p (f p w))
    → Each P m
    → Each Q (map_values f m)
Each-map_values P Q f [] step h = tt
Each-map_values P Q f ((p, w) ∷ m) step h = (step p w h.0, Each-map_values P Q f m step h.1)

signal_phase_workers : (ds : List Delivery) (s : State) → (signal_phase ds s).0.workers ≡ s.workers
unfolding signal_phase deliver stop stop_at
signal_phase_workers [] s = refl
signal_phase_workers (d ∷ ds) s = elim (Bool-cases (is_stop d.signal)) [
  | inr e ↦ rw e (signal_phase_workers ds s)
  | inl e ↦ elim (Option-cases s.draining) [
    | inl off ↦
        rw (e, off) (signal_phase_workers ds (record s { draining = some (d.now + 30 * second) }))
    | inr (x, on) ↦ rw (e, on) (signal_phase_workers ds (record s { draining = some d.now }))
  ]
]

poll_phase_workers : (poll : Poll) (s : State) → (poll_phase poll s).0.workers ≡ s.workers
unfolding poll_phase
poll_phase_workers polled s = refl
poll_phase_workers interrupted s = refl
poll_phase_workers (poll_failed x now) s = refl

announce_workers : (config : Config) (s : State) → (announce config s).0.workers ≡ s.workers
unfolding announce
announce_workers config s = ground arith

module _ (config : Config) (round : Round) (s : State) where
  -- Before the phase that sends SIGKILL, nobody new is marked.
  abbrev IsSpared : ℕ → Worker → Type 0
  IsSpared p w = (w.killed ≡ false) ⊎ WasKilled s p

  abbrev AllSpared : Pool Worker → Type 0
  AllSpared m = Each IsSpared m

  start-AllSpared : AllSpared s.workers
  start-AllSpared = Each-map _ IsSpared s.workers (λ p w h. spared p w h) (entries s.workers)
    where
      spared : (p : ℕ) (w : Worker) → IsEntry p w s.workers → IsSpared p w
      spared p w h = elim (Bool-cases w.killed) [ inl e ↦ inr (w, h, e) | inr e ↦ inl e ]

  fill-AllSpared :
      (fuel i : ℕ) (u : State)
      → AllSpared u.workers
      → AllSpared (fill fuel config round i u).0.workers
  unfolding fill back_off
  fill-AllSpared zero i u h = h
  fill-AllSpared (suc fuel) i u h = elim (Bool-cases (ltb (length u.workers) config.workers)) [
    | inr full ↦ rw full h
    | inl room ↦ elim (Result-cases (spawn (round.attempt i).calls)) [
      | inr (x, e) ↦ rw (room, e) h
      | inl ((pid, w), e) ↦
          rw (room, e)
            (fill-AllSpared fuel (i + 1) (add_worker pid w u) (
              unfold add_worker in
              Each-insert IsSpared pid w u.workers
                (inl (spawn-fresh (round.attempt i).calls pid w e).0) h))
    ]
  ]

  spawn_phase-AllSpared : AllSpared (spawn_phase config round s).0.workers
  unfolding spawn_phase
  spawn_phase-AllSpared = elim (Bool-cases (not (is_some s.draining) && leb s.retry_at round.now)) [
    | inr e ↦ rw e start-AllSpared
    | inl e ↦
        rw (e, announce_workers config (fill config.workers config round 0 s).0)
          (fill-AllSpared config.workers 0 s start-AllSpared)
  ]

  -- A worker that is marked behind the round was marked before it, or is late.
  abbrev pub IsKilledForCause : Option ℕ → ℕ → Worker → Type 0
  IsKilledForCause draining p w =
      (w.killed ≡ false) ⊎ WasKilled s p ⊎ IsLate config round draining p w

  late_of_expired :
      (w : Worker)
      → 1 ≤ config.timeout
      → config.timeout ≤ 86400
      → expired config round w ≡ true
      → (x : ℕ) × (w.started ≡ some x) × (x + config.timeout * second ≤ round.clock)
  late_of_expired w least most h = elim (Option-cases w.started) [
    | inl e ↦ absurd (ground (arith, h, e))
    | inr (x, e) ↦ (x, e, ground (arith, timeout_ns_exact config most, h, e))
  ]

  late_of_drain :
      (draining : Option ℕ) (p : ℕ)
      → drain_expired round draining p ≡ true
      → (d : ℕ) × (draining ≡ some d) × (d ≤ round.expiry_now p)
  late_of_drain none p h = cc
  late_of_drain (some d) p h = (d, refl, ground (arith, h))

  cause_of_spared :
      (draining : Option ℕ) (p : ℕ) (w : Worker) → IsSpared p w → IsKilledForCause draining p w
  cause_of_spared draining p w (inl e) = inl e
  cause_of_spared draining p w (inr e) = inr (inl e)

  overdue-IsLate :
      (draining : Option ℕ) (p : ℕ) (w : Worker)
      → 1 ≤ config.timeout
      → config.timeout ≤ 86400
      → overdue config round draining p w ≡ true
      → IsLate config round draining p w
  unfolding overdue
  overdue-IsLate draining p w least most h = elim (Bool-cases (expired config round w)) [
    | inl e ↦ inl (late_of_expired w least most e)
    | inr e ↦ inr (late_of_drain draining p (ground (arith, h, e)))
  ]

  expire_worker-IsKilledForCause :
      (draining : Option ℕ) (p : ℕ) (w : Worker)
      → 1 ≤ config.timeout
      → config.timeout ≤ 86400
      → IsSpared p w
      → IsKilledForCause draining p (expire_worker config round draining p w)
  unfolding expire_worker
  expire_worker-IsKilledForCause draining p w least most h =
      elim (Bool-cases (overdue config round draining p w)) [
        | inl e ↦ rw e (inr (inr (overdue-IsLate draining p w least most e)))
        | inr e ↦ rw e (cause_of_spared draining p w h)
      ]

  -- No child is sent SIGKILL early: a child of the pool that is marked behind a round was marked
  -- before it, or is late: the clock of the round stands at or past its first time stamp plus the
  -- timeout; or the pool drains, and the instant at which the round looked at it is at or past the
  -- deadline of the drain, as the round leaves that. The timeout is one that the command line takes.
  pub step-IsKilledForCause :
      1 ≤ config.timeout
      → config.timeout ≤ 86400
      → let t = (step config round s).0 in Each (IsKilledForCause t.draining) t.workers
  unfolding step before_reap expire_phase stamp_phase stamp_worker
  step-IsKilledForCause least most = reap_phase-AllAre IsKilledForCause round.exits _ (
      Each-map_values IsSpared _ _ _ (λ p w h. expire_worker-IsKilledForCause _ p w least most h)
        (rw (signal_phase_workers round.deliveries _) (
          Each-map_values IsSpared IsSpared (stamp_worker round) _ (λ p w h. h)
            (rw (poll_phase_workers round.poll (spawn_phase config round s).0)
              spawn_phase-AllSpared))))
