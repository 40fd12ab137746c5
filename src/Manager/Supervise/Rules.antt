-- ===== src/Manager/Supervise/Rules.antt =====
-- src/manager.rs: the rule by which a property of the actions of `supervise` is one of its rounds.
use polychrome_php.Prelude.{
  ℕ, zero, suc, ◌+◌, ◌*◌, ◌<◌, ◌≡◌, refl, inl, inr, true, false, not, ◌&&◌, List, [], ◌∷◌, ◌++◌,
  map, Option, none, some, ok, arith, length, Bool-cases, Option-cases, Result-cases, ltb, leb,
  ltb→lt, ◌==◌, All,
}
use polychrome_php.Bytes.{Bytes}
use polychrome_php.Config.{Config}
use polychrome_php.Manager.Pool.{lookup, keys}
use polychrome_php.Manager.Worker.{Worker, SpawnCalls, spawn}
use polychrome_php.Manager.Loop.{
  State, Event, spawned, spawn_failed, ready_line, drain_line, kill, sigusr1, reaped, Poll, polled,
  interrupted, poll_failed, Delivery, Exit, Round, Phase, ◌▷◌, is_some, second,
}
use polychrome_php.Manager.Supervise.{
  back_off, add_worker, fill, announce, spawn_phase, poll_phase, stamp_phase, stop, stop_at,
  is_stop, deliver, signal_phase, expire_phase, forget, count_exit, log_exit, reap, reap_phase,
  before_reap, step, Progress, running, done, finished, outcome, supervise,
}

-- A new worker has no connection and was not killed.
pub spawn-fresh :
    (calls : SpawnCalls) (pid : ℕ) (w : Worker)
    → spawn calls ≡ ok (pid, w)
    → (w.killed ≡ false) × (w.started ≡ none)
unfolding spawn
spawn-fresh calls pid w h = elim (Result-cases calls.socketpair) [
  | inr (x, e) ↦ absurd (ground (arith, e))
  | inl (pair, e) ↦ elim (Result-cases calls.fork) [
    | inr (x, f) ↦ absurd (ground (arith, e, f))
    | inl (pid', f) ↦ ground (arith, e, f)
  ]
]

abbrev pub Relation : Type 1
Relation = State → List Event → State → Type 0

abbrev pub Holds : Relation → Phase → Type 0
Holds R f = (s : State) → R s (f s).1 (f s).0

-- What each action of the loop has to satisfy. An action is given with what the loop has tested
-- when it takes it.
pub record IsLawful (config : Config) (R : Relation) (round : Round) : Type 0 where
  pub idle : (s : State) → R s [] s
  pub follow : (s t u : State) (es fs : List Event) → R s es t → R t fs u → R s (es ++ fs) u
  pub birth :
      (i pid : ℕ) (w : Worker) (s : State)
      → spawn (round.attempt i).calls ≡ ok (pid, w)
      → s.draining ≡ none
      → length s.workers < config.workers
      → R s (spawned pid ∷ []) (add_worker pid w s)
  pub failure : (x : Bytes) (now : ℕ) (s : State) → R s (spawn_failed x ∷ []) (back_off now s)
  pub full :
      (s : State)
      → s.ready ≡ false
      → length s.workers ≡ config.workers
      → R s (ready_line ∷ []) (record s { ready = true })
  pub poll_error :
      (x : Bytes) (now : ℕ) (s : State)
      → round.poll ≡ poll_failed x now
      → R s [] (record s { fatal = some x; draining = some now })
  pub stamps : Holds R (stamp_phase round)
  pub first_stop :
      (now : ℕ) (s : State)
      → s.draining ≡ none
      → R s
          (drain_line ∷ map (λ pid. kill pid sigusr1) (keys s.workers))
          (record s { draining = some (now + 30 * second) })
  pub stop_again :
      (now deadline : ℕ) (s : State)
      → s.draining ≡ some deadline
      → R s [] (record s { draining = some now })
  pub expiry : Holds R (expire_phase config round)
  pub exit :
      (e : Exit) (w : Worker) (s : State)
      → lookup e.pid s.workers ≡ some w
      → R s (reaped e.pid ∷ log_exit e) (count_exit e w (forget e.pid s))

-- Where a supervised history stands: still running, or at a state that ends the loop, with the
-- result that the loop returns there.
abbrev pub Ends : Relation → State → List Event → Progress → Type 0
Ends R s es (running t) = R s es t
Ends R s es (done r) = (t : State) × R s es t × (finished t ≡ true) × (r ≡ outcome t.fatal)

module _ (config : Config) (R : Relation) (round : Round) (law : IsLawful config R round) where
  Holds-▷ : (f g : Phase) → Holds R f → Holds R g → Holds R (f ▷ g)
  Holds-▷ f g hf hg s = law.follow s (f s).0 (g (f s).0).0 (f s).1 (g (f s).0).1 (hf s) (hg (f s).0)

  fill-Holds :
      (fuel i : ℕ) (s : State)
      → s.draining ≡ none
      → R s (fill fuel config round i s).1 (fill fuel config round i s).0
  unfolding fill
  fill-Holds zero i s d = law.idle s
  fill-Holds (suc fuel) i s d = elim (Bool-cases (ltb (length s.workers) config.workers)) [
    | inr full ↦ rw full (law.idle s)
    | inl room ↦ elim (Result-cases (spawn (round.attempt i).calls)) [
      | inl ((pid, w), e) ↦
          rw (room, e)
            (law.follow s (add_worker pid w s) _ (spawned pid ∷ []) _
              (law.birth i pid w s e d (ltb→lt _ _ room))
              (fill-Holds fuel (i + 1) (add_worker pid w s) (unfold add_worker in d)))
      | inr (x, e) ↦ rw (room, e) (law.failure x (round.attempt i).failed_at s)
    ]
  ]

  announce-Holds : Holds R (announce config)
  unfolding announce
  announce-Holds s = elim (Bool-cases (not s.ready && length s.workers == config.workers)) [
    | inl e ↦ rw e (law.full s (ground arith) (ground arith))
    | inr e ↦ rw e (law.idle s)
  ]

  spawn_phase-Holds : Holds R (spawn_phase config round)
  unfolding spawn_phase
  spawn_phase-Holds s = elim (Bool-cases (not (is_some s.draining) && leb s.retry_at round.now)) [
    | inr e ↦ rw e (law.idle s)
    | inl e ↦ rw e (
        law.follow s _ _ _ _ (fill-Holds config.workers 0 s (ground arith))
          (announce-Holds (fill config.workers config round 0 s).0))
  ]

  poll_phase-Holds : (poll : Poll) → round.poll ≡ poll → Holds R (poll_phase poll)
  unfolding poll_phase
  poll_phase-Holds polled e s = law.idle s
  poll_phase-Holds interrupted e s = law.idle s
  poll_phase-Holds (poll_failed x now) e s = law.poll_error x now s e

  stop_at-Holds :
      (draining : Option ℕ) (now : ℕ) (s : State)
      → s.draining ≡ draining
      → R s (stop_at draining now s).1 (stop_at draining now s).0
  unfolding stop_at
  stop_at-Holds none now s e = law.first_stop now s e
  stop_at-Holds (some deadline) now s e = law.stop_again now deadline s e

  stop-Holds : (now : ℕ) → Holds R (stop now)
  unfolding stop
  stop-Holds now s = stop_at-Holds s.draining now s refl

  deliver-Holds : (d : Delivery) → Holds R (deliver d)
  unfolding deliver
  deliver-Holds d s = elim (Bool-cases (is_stop d.signal)) [
    | inl e ↦ rw e (stop-Holds d.now s)
    | inr e ↦ rw e (law.idle s)
  ]

  pub signal_phase-Holds : (ds : List Delivery) → Holds R (signal_phase ds)
  unfolding signal_phase
  signal_phase-Holds [] s = law.idle s
  signal_phase-Holds (d ∷ ds) s =
      Holds-▷ (deliver d) (signal_phase ds) (deliver-Holds d) (signal_phase-Holds ds) s

  reap-Holds : (e : Exit) → Holds R (reap e)
  unfolding reap
  reap-Holds e s = elim (Option-cases (lookup e.pid s.workers)) [
    | inl h ↦ rw (h, reap) (law.idle s)
    | inr (w, h) ↦ rw (h, reap) (law.exit e w s h)
  ]

  pub reap_phase-Holds : (es : List Exit) → Holds R (reap_phase es)
  unfolding reap_phase
  reap_phase-Holds [] s = law.idle s
  reap_phase-Holds (e ∷ es) s =
      Holds-▷ (reap e) (reap_phase es) (reap-Holds e) (reap_phase-Holds es) s

  -- A round is a sequence of lawful actions.
  pub before_reap-Holds : Holds R (before_reap config round)
  unfolding before_reap
  before_reap-Holds =
      Holds-▷ _ _
        (Holds-▷ _ _
          (Holds-▷ _ _ (Holds-▷ _ _ spawn_phase-Holds (poll_phase-Holds round.poll refl))
            law.stamps)
          (signal_phase-Holds round.deliveries))
        law.expiry

  pub step-Holds : Holds R (step config round)
  unfolding step
  step-Holds = Holds-▷ _ _ before_reap-Holds (reap_phase-Holds round.exits)

module _ (config : Config) (R : Relation) where
  Ends-follow :
      (round : Round) (law : IsLawful config R round) (s t : State) (es fs : List Event)
      (p : Progress)
      → R s es t
      → Ends R t fs p
      → Ends R s (es ++ fs) p
  Ends-follow round law s t es fs (running u) h k = law.follow s t u es fs h k
  Ends-follow round law s t es fs (done r) h (u, k, f, e) = (u, law.follow s t u es fs h k, f, e)

  -- So is a whole history of rounds.
  pub supervise-Ends :
      ((s : State) → R s [] s)
      → (rounds : List Round) → All (IsLawful config R) rounds
      → (s : State) → Ends R s (supervise config rounds s).1 (supervise config rounds s).0
  unfolding supervise
  supervise-Ends idle [] laws s = idle s
  supervise-Ends idle (round ∷ rounds) (law, laws) s =
      elim (Bool-cases (finished (step config round s).0)) [
        | inl e ↦ rw e ((step config round s).0, step-Holds config R round law s, e, refl)
        | inr e ↦ rw e (
            Ends-follow round law s (step config round s).0 (step config round s).1 _ _
              (step-Holds config R round law s)
              (supervise-Ends idle rounds laws (step config round s).0))
      ]
