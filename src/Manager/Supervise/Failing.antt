-- ===== src/Manager/Supervise/Failing.antt =====
-- src/manager.rs: failures to start a child, and the pause behind them.
use polychrome_php.Prelude.{ℕ, zero, suc, ◌+◌, ◌*◌, ◌<◌, ◌≡◌, ◌≢◌, ◌⊎◌, none, some, err, length}
use polychrome_php.Bytes.{Bytes}
use polychrome_php.Config.{Config}
use polychrome_php.Manager.Pool.{lookup}
use polychrome_php.Manager.Worker.{Worker, spawn}
use polychrome_php.Manager.Loop.{Exit, Status, exited, signaled, State, Round}
use polychrome_php.Manager.Supervise.{reap, fill}

-- The pause in milliseconds, by the count of failures in a row.
abbrev pub pause : ℕ → ℕ
pause zero = 100
pause (suc zero) = 200
pause (suc (suc zero)) = 400
pause (suc (suc (suc zero))) = 800
pause (suc (suc (suc (suc zero)))) = 1600
pause (suc (suc (suc (suc (suc zero))))) = 3200
pause (suc (suc (suc (suc (suc (suc n)))))) = 5000

-- A child ended other than by a return of zero.
abbrev pub IsAbnormal : Status → Type 0
IsAbnormal (exited code) = code ≢ 0
IsAbnormal (signaled _) = Unit

-- The two ways in which a child fails to start, with the states before and behind, and the instant
-- that the failure is counted at: a call of `spawn` fails; or a child is reaped that ended abnormally
-- within a second of its birth, with no connection.
pub data FailsToStart (config : Config) (round : Round) (s t : State) (now : ℕ) : Type 0 where
  by_spawn :
      (fuel i : ℕ) (x : Bytes)
      → length s.workers < config.workers
      → spawn (round.attempt i).calls ≡ err x
      → now ≡ (round.attempt i).failed_at
      → t ≡ (fill (suc fuel) config round i s).0
      → FailsToStart config round s t now
  by_death :
      (e : Exit) (w : Worker)
      → lookup e.pid s.workers ≡ some w
      → IsAbnormal e.status
      → w.started ≡ none
      → e.elapsed_at < w.born + 1_000_000_000
      → now ≡ e.failed_at
      → t ≡ (reap e s).0
      → FailsToStart config round s t now

-- What a failure to start adds to a state.
abbrev pub BacksOff : State → State → ℕ → Type 0
BacksOff s t now =
    ((t.failures ≡ s.failures + 1) ⊎ ((s.failures ≡ 4294967295) × (t.failures ≡ 4294967295)))
    × (t.retry_at ≡ now + pause t.failures * 1_000_000)
