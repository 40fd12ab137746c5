-- ===== src/Manager/Supervise/Tests.antt =====
-- src/manager.rs: histories of `supervise` by evaluation, and the theorems at concrete inputs.
use polychrome_php.Prelude.{
  ℕ, ◌*◌, ◌≤◌, ◌≡◌, refl, ◌⊎◌, inl, inr, true, false, [], ◌∷◌, none, some, Result, ok, err, All,
  arith, length,
}
use polychrome_php.Bytes.{Bytes, codes}
use polychrome_php.Manager.Pool.{insert, lookup, remove}
use polychrome_php.Manager.Pool.Laws.{Each}
use polychrome_php.Manager.Worker.{Worker, spawn}
use polychrome_php.Manager.Loop.{
  Exit, exited, State, Delivery, sigchld, sigterm, sigint, sigusr1, drain_line, kill, spawned,
  ready_line, terminating, request_timeout, sigkill, poll_failed, Round, second, is_some,
}
use polychrome_php.Manager.Supervise.{
  next_failures, backoff_millis, back_off, add_worker, fill, announce, spawn_phase, poll_phase,
  get_or_insert, note_stamps, stamp_worker, stamp_phase, is_stop, stop_at, stop, deliver,
  signal_phase, timeout_ns, overdue, expire_worker, reason, expire_events, expire_phase, abnormal,
  failed_start, forget, count_exit, log_exit, reap, reap_phase, before_reap, step, is_empty,
  finished, outcome, start, drain_expired, done, supervise,
}
use polychrome_php.Manager.Supervise.Invariant.{IsSound}
use polychrome_php.Manager.Supervise.Soundness.{IsSoundProgress, supervise-IsSound}
use polychrome_php.Manager.Supervise.Children.{absent}
use polychrome_php.Manager.Supervise.Lifecycle.{Logged, supervise-Logged}
use polychrome_php.Manager.Supervise.Punctual.{IsKilledOrInTime, step-IsInTime}
use polychrome_php.Manager.Supervise.Deadline.{IsFresh, step-deadline}
use polychrome_php.Manager.Supervise.Mercy.{IsKilledForCause, step-IsKilledForCause}
use polychrome_php.Manager.Supervise.Shrinking.{IsNoSpawn, Shrinks, step-Shrinks}
use polychrome_php.Manager.Supervise.Drain.{Reaps, supervise-drained}
use polychrome_php.Manager.Supervise.Reports.{
  ready_lines, drain_lines, supervise_reports, PollsWell, supervise-ok, supervise-err,
}
use polychrome_php.Manager.Supervise.Backoff.{HasFailure, ForksFresh, ForksApart, spawn_phase-full}
use polychrome_php.Manager.Supervise.Stopping.{IsOther, grace, signal_phase_lem}
use polychrome_php.Manager.Supervise.Pause.{step-Rests}
use polychrome_php.Manager.Supervise.Example.{
  site, births, quiet, filling, stopping, ending, history, busy, drained, filled,
}

runs : Unit {0}
unfolding insert lookup remove spawn next_failures backoff_millis back_off add_worker fill announce
    spawn_phase poll_phase get_or_insert note_stamps stamp_worker stamp_phase is_stop stop_at stop
    deliver signal_phase timeout_ns overdue expire_worker reason expire_events expire_phase abnormal
    failed_start forget count_exit log_exit reap reap_phase before_reap step is_empty finished
    outcome start supervise
runs = tt

history_ends : (supervise site history (start 0)).0 ≡ done (ok tt)
unfolding runs
history_ends = refl

history_log :
    (supervise site (filling ∷ stopping ∷ quiet 40 ∷ []) (start 0)).1
    ≡ spawned 40
      ∷ spawned 41
      ∷ ready_line
      ∷ drain_line
      ∷ kill 40 sigusr1
      ∷ kill 41 sigusr1
      ∷ terminating 40 request_timeout
      ∷ kill 40 sigkill
      ∷ terminating 41 request_timeout
      ∷ kill 41 sigkill
      ∷ []
unfolding runs
history_log = refl

filling-step : (step site filling (start 0)).0 ≡ filled
unfolding runs
filling-step = refl

supervise-Logged_example :
    Logged (λ _. absent) (supervise site history (start 0)).1 (supervise site history (start 0)).0
supervise-Logged_example = supervise-Logged site history 0

supervise-IsSound_example :
    IsSoundProgress site history (start 0) (supervise site history (start 0)).0
supervise-IsSound_example = supervise-IsSound site history 0

supervise_reports_example :
    (ready_lines (supervise site history (start 0)).1 ≤ 1)
    × (drain_lines (supervise site history (start 0)).1 ≤ 1)
supervise_reports_example = supervise_reports site history 0

-- The round at 40 seconds is past the timeout of a request that was accepted at 1 second.
abbrev later : Round
later = record (quiet 40) { attempt = births 50 }

later-IsFresh : IsFresh later 40
unfolding spawn
later-IsFresh i w e = ground arith

step-deadline_example :
    (lookup 40 (step site later filled).0.workers ≡ none)
    ⊎ ((w : Worker) × (lookup 40 (step site later filled).0.workers ≡ some w) × (w.killed ≡ true))
unfolding lookup
step-deadline_example =
    step-deadline site later filled 40 second (busy 100 false) (omega arith) (omega arith)
      later-IsFresh refl refl (omega arith)

step-IsInTime_example :
    Each
      (IsKilledOrInTime site later (step site later filled).0.draining)
      (step site later filled).0.workers
step-IsInTime_example = step-IsInTime site later filled (omega arith)

step-IsKilledForCause_example :
    Each
      (IsKilledForCause site later filled (step site later filled).0.draining)
      (step site later filled).0.workers
step-IsKilledForCause_example = step-IsKilledForCause site later filled (omega arith) (omega arith)

drained-IsSound : IsSound site drained
drained-IsSound = record {
  sorted = omega arith;
  bounded = omega arith;
  fatal_drains = inl refl;
  counted = omega arith;
}

expired_at_40 :
    (p : ℕ) → drain_expired (quiet 40) (step site (quiet 40) drained).0.draining p ≡ true
unfolding runs
expired_at_40 p = refl

all_end :
    (p : ℕ) (w : Worker)
    → lookup p (step site (quiet 40) drained).0.workers ≡ some w
    → w.killed ≡ true
    → Reaps ending.exits p
unfolding runs
all_end p w there killed = ground arith

supervise-drained_example :
    (r : Result Bytes (Unit {0})) × ((supervise site (quiet 40 ∷ ending ∷ []) drained).0 ≡ done r)
supervise-drained_example =
    supervise-drained site drained (quiet 40) ending drained-IsSound expired_at_40 all_end

step-Shrinks_example :
    (is_some (step site (quiet 40) drained).0.draining ≡ true)
    × All IsNoSpawn (step site (quiet 40) drained).1
    × Shrinks drained (step site (quiet 40) drained).0
    × (length (step site (quiet 40) drained).0.workers ≤ length drained.workers)
step-Shrinks_example = step-Shrinks site (quiet 40) drained refl

history-PollsWell : All PollsWell history
history-PollsWell = (λ x now e. cc, (λ x now e. cc, (λ x now e. cc, (λ x now e. cc, tt))))

supervise-ok_example : ◌≡◌ {A = Result Bytes (Unit {0})} (ok tt) (ok tt)
supervise-ok_example = supervise-ok site history 0 (ok tt) history-PollsWell history_ends

-- `poll` fails at 40 seconds, and the killed children are reaped in the next round.
abbrev broken : Round
broken = record (quiet 40) { poll = poll_failed (codes "EBADF") (40 * second) }

broken_ends : (supervise site (broken ∷ ending ∷ []) filled).0 ≡ done (err (codes "EBADF"))
unfolding runs
broken_ends = refl

supervise-err_example :
    (y : Bytes) × (◌≡◌ {A = Result Bytes (Unit {0})} (err (codes "EBADF")) (err y))
supervise-err_example =
    supervise-err site broken (ending ∷ []) filled (codes "EBADF") (40 * second)
      (err (codes "EBADF")) refl broken_ends

-- A child that exits with status 1, half a second after its birth and with no connection.
abbrev newborn : State
newborn = record filled {
  workers = (40, record { events = 100; started = none; killed = false; born = second }) ∷ [];
  failures = 2;
}

abbrev early_death : Exit
early_death = record {
  pid = 40;
  status = exited 1;
  elapsed_at = 1_500_000_000;
  failed_at = 2 * second;
}

start-ForksFresh : ForksFresh filling 0 (start 0)
unfolding lookup start
start-ForksFresh j pid w le e = refl

filling-ForksApart : ForksApart filling
unfolding spawn
filling-ForksApart j k pid v w lt e f = ground arith

start_due : (start 0).retry_at ≤ filling.now
unfolding start
start_due = omega arith

start_room : length (start 0).workers ≤ site.workers
unfolding start
start_room = omega arith

start_off : (start 0).draining ≡ none
unfolding start
start_off = refl

spawn_phase-full_example :
    ((length (spawn_phase site filling (start 0)).0.workers ≡ site.workers)
      × ((spawn_phase site filling (start 0)).0.ready ≡ true))
    ⊎ HasFailure (spawn_phase site filling (start 0)).1
spawn_phase-full_example =
    spawn_phase-full site filling (start 0) start_off start_due start_room start-ForksFresh
      filling-ForksApart

-- One request to stop at 2 seconds, behind another signal, and a further one at 5 seconds.
abbrev child_ended : Delivery
child_ended = record { signal = sigchld; now = 2 * second }

abbrev asked : Delivery
asked = record { signal = sigterm; now = 2 * second }

abbrev asked_again : Delivery
asked_again = record { signal = sigint; now = 5 * second }

child_ended-IsOther : IsOther child_ended
unfolding runs
child_ended-IsOther = refl

asked_stop : is_stop asked.signal ≡ true
unfolding runs
asked_stop = refl

signal_phase_lem_example : signal_phase (child_ended ∷ asked ∷ asked_again ∷ []) filled ≡ (
  record filled { draining = some (grace (32 * second) (asked_again ∷ [])) },
  drain_line ∷ kill 40 sigusr1 ∷ kill 41 sigusr1 ∷ [],
)
signal_phase_lem_example =
    signal_phase_lem (child_ended ∷ []) (asked_again ∷ []) asked filled refl
      (child_ended-IsOther, tt) asked_stop

-- A failure to start a child has put the next attempt off until 9 seconds.
abbrev backing_off : State
backing_off = record filled { workers = []; retry_at = 9 * second; failures = 1 }

step-Rests_example : All IsNoSpawn (step site (quiet 3) backing_off).1
step-Rests_example = step-Rests site (quiet 3) backing_off (inr (omega arith))
