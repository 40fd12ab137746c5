-- ===== src/Net.antt =====
-- `str::parse::<SocketAddr>`, the parser of Rust's standard library that src/config.rs calls on
-- the value of `--listen`: an IPv4 or a bracketed IPv6 address with a port.
-- A parser returns its value and the bytes that follow; `none` puts nothing back, since each caller
-- keeps the text that it began with (`read_atomically`).
pub mod Number
pub mod Ip
pub mod Address
