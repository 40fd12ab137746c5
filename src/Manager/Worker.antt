-- ===== src/Manager/Worker.antt =====
-- src/manager.rs: `Worker`, `spawn` and `monotonic_ns`. Descriptors, pids and instants are numbers;
-- an `Instant` counts the nanoseconds of CLOCK_MONOTONIC, which is its clock on Linux. `fork`
-- returns in two processes, so `spawn` is two functions: what the manager gets, and what the child
-- does until it exits. What a system call returned is an argument; an error is its text.
use polychrome_php.Prelude.{
  ℕ, ◌+◌, ◌*◌, ◌^◌, ◌%◌, Bool, false, not, List, ◌∷◌, map, Option, none, Result, ok, ◌>>=◌, ◌==◌,
  if◌then◌else◌,
}
use polychrome_php.Bytes.{Bytes}
use polychrome_php.Manager.Pool.{Pool, elements}

pub record Worker : Type 0 where
  pub events : ℕ
  pub started : Option ℕ
  pub killed : Bool
  pub born : ℕ

-- The two ends of a socket pair.
pub record SocketPair : Type 0 where
  pub parent : ℕ
  pub child : ℕ

-- What the calls of one `spawn` return in the manager; `fork` gives a positive pid there.
pub record SpawnCalls : Type 0 where
  pub socketpair : Result Bytes SocketPair
  pub fork : Result Bytes ℕ
  pub born : ℕ

unfoldable pub spawn : SpawnCalls → Result Bytes (ℕ × Worker)
spawn calls = do
  pair ← calls.socketpair
  pid ← calls.fork
  ok (pid, record { events = pair.parent; started = none; killed = false; born = calls.born })

-- What the child does: the descriptors that it closes, whether it goes on to serve a connection
-- and on which descriptors, and the status that it exits with.
pub record ChildRun : Type 0 where
  pub closed : List ℕ
  pub served : Option (ℕ × ℕ)
  pub status : ℕ

-- `serve_one` is the native `poly_serve_one`; `getppid` is read behind `prctl`.
unfoldable pub run_child :
    (serve_one : ℕ → ℕ → ℕ) (listener signals : ℕ) (workers : Pool Worker) (pair : SocketPair)
    (expected_parent getppid : ℕ)
    → ChildRun
run_child serve_one listener signals workers pair expected_parent getppid =
    let closed = pair.parent ∷ signals ∷ map (λ w. w.events) (elements workers) in
    if not (getppid == expected_parent)
    then record { closed = closed; served = none; status = 1 }
    else record {
      closed = closed;
      served = Option.some (listener, pair.child);
      status = serve_one listener pair.child;
    }

-- `time.tv_sec as u64 * 1_000_000_000 + time.tv_nsec as u64`, with the wrap-around of a u64.
unfoldable pub monotonic_ns : ℕ → ℕ → ℕ
monotonic_ns tv_sec tv_nsec = (tv_sec * 1_000_000_000 + tv_nsec) % 2 ^ 64
