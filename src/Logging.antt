-- ===== src/Logging.antt =====
-- handlers/request_logger.go: the response writer that counts (`MakeLogger` and the methods of
-- `responseLogger`, `hijackLogger`), `LogServeHTTP` around a handler, and what is read off a
-- request (`parseURI`, `uriPath`, `getUserIP`).
pub mod Calls
pub mod Wrapping
pub mod Counts
pub mod Trace
pub mod Report
pub mod Concurrent
mod Growing
pub mod Seen
pub mod Serve
pub mod Requests
pub mod Sinks
pub mod Tests
