-- ===== src/Auth.antt =====
-- handlers/auth: the API key middlewares (apikey.go, xapikey.go), the interface by which they look
-- up credentials (finder.go), and the user kept in the request's context (user.go).
pub mod User
pub mod Keys
pub mod Spec
pub mod Laws
mod Tests
