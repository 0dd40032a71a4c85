-- ===== src/Chains.antt =====
-- Middlewares of handlers/ and its packages round each other.
pub mod Status
pub mod Recovered
pub mod Refused
pub mod Stack
pub mod Late
pub mod Identity
pub mod Nested
pub mod Crashed
pub mod Ambient
mod Tests
