-- ===== src/Manager/Supervise/Pause.antt =====
-- src/manager.rs: what keeps a round from forking.
use polychrome_php.Prelude.{
  ℕ, ◌<◌, ◌≡◌, ◌⊎◌, inl, inr, true, false, not, ◌&&◌, leb, List, [], ◌∷◌, Option, none, some, All,
  All-append, arith, Bool-cases, Option-cases,
}
use polychrome_php.Config.{Config}
use polychrome_php.Manager.Pool.{lookup}
use polychrome_php.Manager.Loop.{
  State, Poll, polled, interrupted, poll_failed, Delivery, Exit, Round, Phase, is_some, ◌▷◌,
}
use polychrome_php.Manager.Supervise.{
  spawn_phase, poll_phase, stamp_phase, is_stop, stop_at, stop, deliver, signal_phase, expire_phase,
  reap, reap_phase, before_reap, step,
}
use polychrome_php.Manager.Supervise.Shrinking.{
  IsNoSpawn, ask-IsNoSpawn, expire_events-IsNoSpawn, log_exit-IsNoSpawn,
}

-- A phase that forks no child from this state.
abbrev Rests : Phase → State → Type 0
Rests f s = All IsNoSpawn (f s).1

Rests-▷ : (f g : Phase) (s : State) → Rests f s → Rests g (f s).0 → Rests (f ▷ g) s
Rests-▷ f g s h k = All-append IsNoSpawn (f s).1 (g (f s).0).1 h k

spawn_phase-Rests :
    (config : Config) (round : Round) (s : State)
    → (is_some s.draining ≡ true) ⊎ (round.now < s.retry_at)
    → Rests (spawn_phase config round) s
unfolding spawn_phase
spawn_phase-Rests config round s why =
    let shut : (not (is_some s.draining) && leb s.retry_at round.now) ≡ false =
      ground (arith, why) in
    rw shut tt

poll_phase-Rests : (poll : Poll) (s : State) → Rests (poll_phase poll) s
unfolding poll_phase
poll_phase-Rests polled s = tt
poll_phase-Rests interrupted s = tt
poll_phase-Rests (poll_failed x now) s = tt

stop_at-Rests : (draining : Option ℕ) (now : ℕ) (s : State) → Rests (stop_at draining now) s
unfolding stop_at
stop_at-Rests (some deadline) now s = tt
stop_at-Rests none now s = (tt, ask-IsNoSpawn _)

signal_phase-Rests : (ds : List Delivery) (s : State) → Rests (signal_phase ds) s
unfolding signal_phase deliver stop
signal_phase-Rests [] s = tt
signal_phase-Rests (d ∷ ds) s = elim (Bool-cases (is_stop d.signal)) [
  | inl e ↦ rw e (
      Rests-▷ (stop_at s.draining d.now) (signal_phase ds) s (stop_at-Rests s.draining d.now s)
        (signal_phase-Rests ds _))
  | inr e ↦ rw e (signal_phase-Rests ds s)
]

reap-Rests : (e : Exit) (s : State) → Rests (reap e) s
unfolding reap
reap-Rests e s = elim (Option-cases (lookup e.pid s.workers)) [
  | inl miss ↦ rw (miss, reap) tt
  | inr (w, found) ↦ rw (found, reap) (tt, log_exit-IsNoSpawn e)
]

reap_phase-Rests : (es : List Exit) (s : State) → Rests (reap_phase es) s
unfolding reap_phase
reap_phase-Rests [] s = tt
reap_phase-Rests (e ∷ es) s =
    Rests-▷ (reap e) (reap_phase es) s (reap-Rests e s) (reap_phase-Rests es _)

-- A round up to a phase.
abbrev until_poll : Config → Round → Phase
until_poll config round = spawn_phase config round ▷ poll_phase round.poll

abbrev until_stamps : Config → Round → Phase
until_stamps config round = until_poll config round ▷ stamp_phase round

abbrev until_signals : Config → Round → Phase
until_signals config round = until_stamps config round ▷ signal_phase round.deliveries

-- A round forks no child while the pool drains, nor before the end of the back-off: only the phase
-- that fills the pool forks, and it is skipped then.
pub step-Rests :
    (config : Config) (round : Round) (s : State)
    → (is_some s.draining ≡ true) ⊎ (round.now < s.retry_at)
    → All IsNoSpawn (step config round s).1
unfolding step before_reap stamp_phase expire_phase
step-Rests config round s why =
    Rests-▷ (before_reap config round) (reap_phase round.exits) s
      (Rests-▷ (until_signals config round) (expire_phase config round) s
        (Rests-▷ (until_stamps config round) (signal_phase round.deliveries) s
          (Rests-▷ (until_poll config round) (stamp_phase round) s
            (Rests-▷ (spawn_phase config round) (poll_phase round.poll) s
              (spawn_phase-Rests config round s why) (poll_phase-Rests round.poll _))
            tt)
          (signal_phase-Rests round.deliveries _))
        (expire_events-IsNoSpawn config round _ _))
      (reap_phase-Rests round.exits _)
