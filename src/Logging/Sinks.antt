-- ===== src/Logging/Sinks.antt =====
-- handlers/structured.go, statsd.go, healthd.go, context.go: the handlers that use the logging
-- writer and what is read off a request.
pub mod Statsd
pub mod Healthd
pub mod Lines
pub mod Closing
pub mod Structured
mod Tests
