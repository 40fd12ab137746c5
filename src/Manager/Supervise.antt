-- ===== src/Manager/Supervise.antt =====
-- src/manager.rs: `supervise`. One round of its loop is a sequence of phases; each takes what the
-- system calls of the round returned (a `Round`), changes the loop's variables (`State`), and logs
-- what it did (`Event`); Manager/Loop has these types.
pub mod Rules
pub mod Invariant
pub mod Soundness
pub mod Children
pub mod Lifecycle
pub mod Punctual
pub mod Deadline
pub mod Mercy
pub mod Shrinking
pub mod Drain
pub mod Reports
pub mod Stopping
pub mod Backoff
pub mod Failing
pub mod Pause
pub mod Example
mod Tests
use polychrome_php.Prelude.{
  ℕ, zero, suc, ◌+◌, ◌-◌, ◌*◌, ◌^◌, ◌%◌, min, Bool, true, false, not, ◌&&◌, ◌||◌, List, [], ◌∷◌,
  ◌++◌, map, Option, none, some, Result, ok, err, length, leb, ltb, ◌==◌, if◌then◌else◌,
}
use polychrome_php.Bytes.{Bytes}
use polychrome_php.Config.{Config}
use polychrome_php.Manager.Pool.{Pool, insert, lookup, remove, keys, elements, map_values}
use polychrome_php.Manager.Worker.{Worker, spawn}
use polychrome_php.Manager.Loop.{
  State, Signal, sigchld, sigterm, sigint, sigusr1, sigkill, Reason, request_timeout,
  shutdown_deadline, Status, exited, signaled, Event, spawned, spawn_failed, ready_line, drain_line,
  terminating, kill, abnormal_exit, reaped, Attempt, Poll, polled, interrupted, poll_failed,
  Delivery, Exit, Round, Phase, ◌▷◌, u32_max, second, is_some, log,
}

-- `failures.saturating_add(1)`.
pub next_failures : ℕ → ℕ
next_failures n = min (n + 1) u32_max

-- `Duration::from_millis((100u64 << failures.min(6)).min(5000))`, in milliseconds.
pub backoff_millis : ℕ → ℕ
backoff_millis failures = min (100 * 2 ^ min failures 6) 5000

-- A failure at an instant: both places count it, and put the next spawn off.
pub back_off : ℕ → State → State
unfolding next_failures
back_off now s =
    let failures = next_failures s.failures in
    record s { failures = failures; retry_at = now + backoff_millis failures * 1_000_000 }

pub add_worker : ℕ → Worker → State → State
add_worker pid worker s = record s { workers = insert pid worker s.workers }

-- `while workers.len() < config.workers`, on fuel; `i` counts the calls of `spawn`.
pub fill : ℕ → Config → Round → ℕ → Phase
fill zero config round i s = (s, [])
fill (suc fuel) config round i s =
    let more =
      λ (pid : ℕ) (worker : Worker). fill fuel config round (i + 1) (add_worker pid worker s) in
    if ltb (length s.workers) config.workers
    then elim (spawn (round.attempt i).calls) [
      | ok (pid, worker) ↦ log (spawned pid) (more pid worker)
      | err error ↦ (back_off (round.attempt i).failed_at s, spawn_failed error ∷ [])
    ]
    else (s, [])

pub announce : Config → Phase
announce config s =
    if not s.ready && length s.workers == config.workers
    then (record s { ready = true }, ready_line ∷ [])
    else (s, [])

-- The pool is filled unless it drains or a back-off lasts; a round makes at most as many calls of
-- `spawn` as the pool has places.
pub spawn_phase : Config → Round → Phase
spawn_phase config round s =
    if not (is_some s.draining) && leb s.retry_at round.now
    then (fill config.workers config round 0 ▷ announce config) s
    else (s, [])

-- What `poll` waits on: the signals, and every worker's socket.
pub poll_descriptors : ℕ → Pool Worker → List ℕ
poll_descriptors signals workers = signals ∷ map (λ w. w.events) (elements workers)

pub poll_phase : Poll → Phase
poll_phase polled s = (s, [])
poll_phase interrupted s = (s, [])
poll_phase (poll_failed error now) s = (record s { fatal = some error; draining = some now }, [])

-- `worker.started.get_or_insert(stamp)`, for each datagram.
pub get_or_insert : Option ℕ → ℕ → Option ℕ
get_or_insert none stamp = some stamp
get_or_insert (some first) stamp = some first

pub note_stamps : Option ℕ → List ℕ → Option ℕ
note_stamps started [] = started
note_stamps started (stamp ∷ stamps) = note_stamps (get_or_insert started stamp) stamps

pub stamp_worker : Round → ℕ → Worker → Worker
stamp_worker round pid w = record w { started = note_stamps w.started (round.stamps w.events) }

pub stamp_phase : Round → Phase
stamp_phase round s = (record s { workers = map_values (stamp_worker round) s.workers }, [])

pub is_stop : Signal → Bool
is_stop sigterm = true
is_stop sigint = true
is_stop _ = false

-- The first request to stop starts the drain, and a further one ends the grace period.
stop_at : Option ℕ → ℕ → Phase
stop_at (some _) now s = (record s { draining = some now }, [])
stop_at none now s = (
  record s { draining = some (now + 30 * second) },
  drain_line ∷ map (λ pid. kill pid sigusr1) (keys s.workers),
)

pub stop : ℕ → Phase
stop now s = stop_at s.draining now s

pub deliver : Delivery → Phase
deliver d s = if is_stop d.signal then stop d.now s else (s, [])

pub signal_phase : List Delivery → Phase
signal_phase [] s = (s, [])
signal_phase (d ∷ ds) s = (deliver d ▷ signal_phase ds) s

-- `config.timeout.as_nanos() as u64`.
pub timeout_ns : Config → ℕ
timeout_ns config = (config.timeout * second) % 2 ^ 64

-- `now.saturating_sub(start) >= timeout`; the subtraction on ℕ stops at 0 too.
abbrev pub expired : Config → Round → Worker → Bool
expired config round w = elim w.started [
  | none ↦ false
  | some start ↦ leb (timeout_ns config) (round.clock - start)
]

abbrev pub drain_expired : Round → Option ℕ → ℕ → Bool
drain_expired round none pid = false
drain_expired round (some deadline) pid = leb deadline (round.expiry_now pid)

pub overdue : Config → Round → Option ℕ → ℕ → Worker → Bool
overdue config round draining pid w =
    not w.killed && (expired config round w || drain_expired round draining pid)

pub expire_worker : Config → Round → Option ℕ → ℕ → Worker → Worker
expire_worker config round draining pid w =
    if overdue config round draining pid w then record w { killed = true } else w

pub reason : Config → Round → Worker → Reason
reason config round w = if expired config round w then request_timeout else shutdown_deadline

pub expire_events : Config → Round → Option ℕ → Pool Worker → List Event
expire_events config round draining [] = []
expire_events config round draining ((pid, w) ∷ m) =
    let rest = expire_events config round draining m in
    if overdue config round draining pid w
    then terminating pid (reason config round w) ∷ kill pid sigkill ∷ rest
    else rest

pub expire_phase : Config → Round → Phase
expire_phase config round s = (
  record s { workers = map_values (expire_worker config round s.draining) s.workers },
  expire_events config round s.draining s.workers,
)

-- `!WIFEXITED(status) || WEXITSTATUS(status) != 0`.
pub abnormal : Status → Bool
abnormal (exited code) = not (code == 0)
abnormal (signaled signal) = true

-- A child that fails within a second of its birth, with no connection, counts as a failed start.
pub failed_start : Exit → Worker → Bool
failed_start e w =
    abnormal e.status && not (is_some w.started) && ltb (e.elapsed_at - w.born) second

pub forget : ℕ → State → State
forget pid s = record s { workers = remove pid s.workers }

pub count_exit : Exit → Worker → State → State
count_exit e w s = if failed_start e w then back_off e.failed_at s else record s { failures = 0 }

pub log_exit : Exit → List Event
log_exit e = if abnormal e.status then abnormal_exit e.pid e.status ∷ [] else []

pub reap : Exit → Phase
reap e s = elim (lookup e.pid s.workers) [
  | none ↦ (s, [])
  | some w ↦ (count_exit e w (forget e.pid s), reaped e.pid ∷ log_exit e)
]

pub reap_phase : List Exit → Phase
reap_phase [] s = (s, [])
reap_phase (e ∷ es) s = (reap e ▷ reap_phase es) s

-- A round up to the reaping.
pub before_reap : Config → Round → Phase
before_reap config round =
    spawn_phase config round
    ▷ poll_phase round.poll
    ▷ stamp_phase round
    ▷ signal_phase round.deliveries
    ▷ expire_phase config round

-- One round of the loop, but for the test that ends it.
pub step : Config → Round → Phase
step config round = before_reap config round ▷ reap_phase round.exits

pub is_empty {ℓ} : {A : Type ℓ} → List A → Bool
is_empty [] = true
is_empty (_ ∷ _) = false

-- `draining.is_some() && workers.is_empty()`.
pub finished : State → Bool
finished s = is_some s.draining && is_empty s.workers

-- `fatal.map_or(Ok(()), Err)`.
pub outcome : Option Bytes → Result Bytes (Unit {0})
outcome none = ok tt
outcome (some error) = err error

-- The state before the loop.
pub start : ℕ → State
start now = record {
  workers = [];
  draining = none;
  retry_at = now;
  failures = 0;
  ready = false;
  fatal = none;
}

-- The loop over the rounds that are given: still running, or done with a result.
pub data Progress : Type 0 where
  running : State → Progress
  done : Result Bytes (Unit {0}) → Progress

pub supervise : Config → List Round → State → Progress × List Event
supervise config [] s = (running s, [])
supervise config (round ∷ rounds) s =
    let (s', events) = step config round s in
    let rest = supervise config rounds s' in
    if finished s' then (done (outcome s'.fatal), events) else (rest.0, events ++ rest.1)
