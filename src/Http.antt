-- ===== src/Http.antt =====
-- What the handlers use of net/http and context: requests, headers, contexts, response writers, and
-- the effects of a handler. The standard library's own code is modelled as far as the sources
-- call it.
pub mod Values
pub mod Run
pub mod Writers
pub mod Fixtures
unfoldable pub use Values.*
unfoldable pub use Run.*
unfoldable pub use Writers.*
