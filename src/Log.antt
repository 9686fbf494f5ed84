-- ===== src/Log.antt =====
-- The logging library: include/reactor/log and src/log.
pub mod Async
pub mod Stream
