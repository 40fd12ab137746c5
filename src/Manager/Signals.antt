-- ===== src/Manager/Signals.antt =====
-- src/manager.rs: `signal_fd`. The system calls return an error's text or a value.
use polychrome_php.Prelude.{ℕ, List, [], ◌∷◌, Result, ◌>>=◌}
use polychrome_php.Bytes.{Bytes}
use polychrome_php.Manager.Loop.{Signal, sigchld, sigterm, sigint, sigusr1}

-- The signals that the manager blocks, and reads from a descriptor instead.
abbrev pub mask : List Signal
mask = sigchld ∷ sigterm ∷ sigint ∷ sigusr1 ∷ []

-- `sigprocmask` blocks a mask; `signalfd` opens a descriptor for it, close-on-exec and nonblocking.
pub record SignalCalls : Type 0 where
  pub sigprocmask : List Signal → Result Bytes (Unit {0})
  pub signalfd : List Signal → Result Bytes ℕ

unfoldable pub signal_fd : SignalCalls → Result Bytes ℕ
signal_fd calls = do calls.sigprocmask mask >>= λ _. calls.signalfd mask
