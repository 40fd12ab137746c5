-- ===== src/Manager/Supervise/Stopping.antt =====
-- src/manager.rs: requests to stop, as the loop over the signal descriptor reads them.
use polychrome_php.Prelude.{
  ℕ, ◌+◌, ◌*◌, ◌≡◌, refl, ap, ◌∙◌, inl, inr, true, false, List, [], ◌∷◌, ◌++◌, map, none, some, All,
  Bool-cases, if◌then◌else◌,
}
use mathlib.Core.List.{append-nil}
use polychrome_php.Manager.Pool.{keys}
use polychrome_php.Manager.Loop.{State, drain_line, kill, sigusr1, Delivery, second}
use polychrome_php.Manager.Supervise.{is_stop, stop_at, stop, deliver, signal_phase}

-- Signals that are no request to stop.
abbrev pub IsOther : Delivery → Type 0
IsOther d = is_stop d.signal ≡ false

-- The end of the grace period: `x`, or the instant at which the last further request was read.
abbrev pub grace : ℕ → List Delivery → ℕ
grace x [] = x
grace x (d ∷ ds) = if is_stop d.signal then grace d.now ds else grace x ds

signal_phase-other :
    (before after : List Delivery) (s : State)
    → All IsOther before
    → signal_phase (before ++ after) s ≡ signal_phase after s
unfolding signal_phase deliver
signal_phase-other [] after s h = refl
signal_phase-other (d ∷ before) after s h = rw h.0 (signal_phase-other before after s h.1)

signal_phase-again :
    (ds : List Delivery) (s : State) (x : ℕ)
    → s.draining ≡ some x
    → signal_phase ds s ≡ (record s { draining = some (grace x ds) }, [])
unfolding signal_phase deliver stop stop_at
signal_phase-again [] s x h = rw h
signal_phase-again (d ∷ ds) s x h = elim (Bool-cases (is_stop d.signal)) [
  | inl e ↦ rw (e, h) (signal_phase-again ds (record s { draining = some d.now }) d.now refl)
  | inr e ↦ rw e (signal_phase-again ds s x h)
]

-- Of the signals that one round reads, the first request to stop starts the drain: it is reported,
-- and SIGUSR1 goes to every child of the pool, once. Further requests only set the end of the grace
-- period to the instant at which they are read; without one, that is 30 seconds after the first.
pub signal_phase_lem :
    (before after : List Delivery) (d : Delivery) (s : State)
    → s.draining ≡ none
    → All IsOther before
    → is_stop d.signal ≡ true
    → signal_phase (before ++ d ∷ after) s ≡ (
      record s { draining = some (grace (d.now + 30 * second) after) },
      drain_line ∷ map (λ pid. kill pid sigusr1) (keys s.workers),
    )
unfolding signal_phase deliver stop stop_at
signal_phase_lem before after d s off other first =
    signal_phase-other before (d ∷ after) s other
    ∙ rw
        (
          first,
          off,
          signal_phase-again after (record s { draining = some (d.now + 30 * second) })
              (d.now + 30 * second) refl,
        )
        (ap
          (λ es.
            (record s { draining = some (grace (d.now + 30 * second) after) }, drain_line ∷ es))
          (append-nil _))
