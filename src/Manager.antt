-- ===== src/Manager.antt =====
-- src/manager.rs: the pool of workers, the supervising loop, the listener and `run`.
pub mod Pool
pub mod Worker
pub mod Loop
pub mod Supervise
pub mod Listener
pub mod Run
pub mod Signals
