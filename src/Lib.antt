-- ===== src/Lib.antt =====
-- Polychrome PHP: a manager that serves PHP over FastCGI with disposable children. The manager reads
-- its command line, initializes PHP once, binds a listener, and keeps a pool of forked children, each
-- of which serves one connection and exits. This library models the Rust part of the program: all of
-- src/config.rs, src/lib.rs and src/manager.rs but the usage text and the version of PHP.
--
-- The parts, and how they interact. `polychrome_main` (src/lib.rs) hands the arguments to `parse`
-- (src/config.rs); a configuration goes on to `run` (src/manager.rs), which prepares the process,
-- initializes PHP, binds the `Listener` and enters `supervise`; that calls `spawn` for every child.
--   Prelude: tests, lists and results that all files share.
--   Bytes, Net: what the program uses of Rust's std on text, by its documentation: the UTF-8 check,
--     prefixes, decimal numbers, and the parser of socket addresses. Text is a list of bytes.
--   Config: src/config.rs. `Config` and `Command` are the source's types; the `match` in the loop of
--     `parse` is `scan_option` and `set_option`, an arm is a function each (`set_listen`,
--     `set_workers`, `set_timeout`, `add_define`), and what follows the loop is `finish`. Config/Flag
--     holds the options, Config/Message the words of the errors. Config/Scan is the induction over a
--     command line; Config/Defines, Config/Accepts, Config/Asking, Config/Reading, Config/Printing
--     (with decimal numbers of Bytes/Print), Config/Refusing and
--     Config/Totality hold the theorems.
--   Manager/Pool: the `BTreeMap` of the children, as a list in the order of the pids.
--   Manager/Worker, Manager/Signals: `Worker`, `spawn`, `monotonic_ns` and `signal_fd`.
--   Manager/Loop: what `supervise` works on. `State` holds the variables of the loop; what the system
--     calls of one round return is a `Round`, and what a round does to the world is a list of `Event`.
--   Manager/Supervise: `supervise`. A round of its loop is `step`: the phases that fill the pool, poll,
--     read time stamps, read signals, send SIGKILL to what is overdue and reap, one function each.
--     Supervise/Rules says what a relation between states has to satisfy to hold of every history;
--     Invariant (with Soundness), Lifecycle (on the life of a child process, in Children), Deadline
--     (with Punctual), Shrinking, Drain and Reports are such relations and the theorems on them;
--     Mercy follows a round phase by phase; Stopping, Backoff, Failing and Pause are about single phases.
--   Manager/Listener: `Listener`, `bind` and `drop`, on a file system of any type; Listener/Disk is one.
--   Manager/Run: `run`, with the steps that it takes as a list of `Act`; Run/Laws and Run/Panics hold
--     the theorems.
--   Entry: `polychrome_main`, with the exit status and what is printed.
--
-- Bounds and fuel. Pids, descriptors and instants are numbers; an instant counts nanoseconds. A
-- `usize` has 64 bits. The timeout is cut to a u64 as the source does, `failures` saturates at the
-- maximum of a u32. The loop that fills the pool runs on fuel, the size of the pool: that is enough
-- where `fork` returns new pids, since each call of `spawn` then adds one child. The loop of
-- `supervise` is a recursion over the rounds that are given, and tells whether it is over or still
-- runs behind them.
--
-- Parameters. The answers of the operating system (`Host`, `Round`, the `Calls` of `Listener` and
-- `run`) and of the native code (`poly_initialize`, `poly_serve_one`) are arguments of the
-- definitions; an error of the system is its text. Where a theorem needs what the kernel documents,
-- that is a hypothesis.
--
-- Not modelled: the native SAPI and its FastCGI bridge (native/), in C over PHP's own types; the
-- preload helper (preload/), in PHP; the usage text and the text of the lines on standard error, which
-- are symbols; the closing of descriptors by the manager; and the tests, benchmarks, examples and
-- build files.
pub mod Prelude
pub mod Bytes
pub mod Net
pub mod Config
pub mod Manager
pub mod Entry
