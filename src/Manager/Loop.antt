-- ===== src/Manager/Loop.antt =====
-- src/manager.rs: what the loop of `supervise` keeps, what the system calls of one round of it
-- return, and what it does to the world.
use polychrome_php.Prelude.{ℕ, Bool, true, false, List, ◌∷◌, ◌++◌, Option, none, some}
use polychrome_php.Bytes.{Bytes}
use polychrome_php.Manager.Pool.{Pool}
use polychrome_php.Manager.Worker.{Worker, SpawnCalls}

-- The variables of the loop. `fatal` holds an error's text.
pub record State : Type 0 where
  pub workers : Pool Worker
  pub draining : Option ℕ
  pub retry_at : ℕ
  pub failures : ℕ
  pub ready : Bool
  pub fatal : Option Bytes

pub data Signal : Type 0 where
  sigchld sigterm sigint sigusr1 sigkill : Signal

pub data Reason : Type 0 where
  request_timeout shutdown_deadline : Reason

-- How a child ended, as `waitpid` reports it: by `_exit`, or by a signal.
pub data Status : Type 0 where
  exited signaled : ℕ → Status

pub data Event : Type 0 where
  spawned : ℕ → Event
  spawn_failed : Bytes → Event
  ready_line : Event
  drain_line : Event
  terminating : ℕ → Reason → Event
  kill : ℕ → Signal → Event
  abnormal_exit : ℕ → Status → Event
  reaped : ℕ → Event

-- One call of `spawn`, and `Instant::now()` should it fail.
pub record Attempt : Type 0 where
  pub calls : SpawnCalls
  pub failed_at : ℕ

pub data Poll : Type 0 where
  polled interrupted : Poll
  poll_failed : Bytes → ℕ → Poll

-- A signal that was read from the signal descriptor, and `Instant::now()` behind it.
pub record Delivery : Type 0 where
  pub signal : Signal
  pub now : ℕ

-- A child that `waitpid` returned, with the instants that `elapsed()` and the back-off read.
pub record Exit : Type 0 where
  pub pid : ℕ
  pub status : Status
  pub elapsed_at : ℕ
  pub failed_at : ℕ

-- What the system calls of one round return. `stamps` are the datagrams of eight bytes that are
-- read from a descriptor before another result; `expiry_now` is `Instant::now()` as it is read for
-- each pid.
pub record Round : Type 0 where
  pub now : ℕ
  pub attempt : ℕ → Attempt
  pub poll : Poll
  pub stamps : ℕ → List ℕ
  pub deliveries : List Delivery
  pub clock : ℕ
  pub expiry_now : ℕ → ℕ
  pub exits : List Exit

abbrev pub Phase : Type 0
Phase = State → State × List Event

-- One phase, then another.
infixl 40 ◌▷◌
abbrev pub ◌▷◌ : Phase → Phase → Phase
◌▷◌ f g s = let (s', before) = f s in let (s'', after) = g s' in (s'', before ++ after)

abbrev pub u32_max : ℕ
u32_max = 4294967295

abbrev pub second : ℕ
second = 1_000_000_000

abbrev pub is_some {ℓ} : {A : Type ℓ} → Option A → Bool
is_some none = false
is_some (some _) = true

abbrev pub log : Event → State × List Event → State × List Event
log e (s, events) = (s, e ∷ events)
