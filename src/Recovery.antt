-- ===== src/Recovery.antt =====
-- handlers/recovery/middleware.go, logger.go, raygun.go, handlers/failure/failure.go: a handler's
-- panic is caught and given to each failure handler in turn. `Middleware` has the code, `Laws` what
-- it does with any handlers, `Reports` the two failure handlers of the package, `Sharing` what
-- becomes of reports that are made at the same time.
pub mod Middleware
pub mod Laws
pub mod Reports
pub mod Sharing
mod Tests
