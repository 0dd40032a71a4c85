-- ===== src/Log.antt =====
-- log/context.go, log/exported.go: the logging context. `Interface` is what the handlers use of a
-- logger, `Methods` its logging methods. `Entry` has what `LoggerEntry` does with a logrus entry,
-- `Entries` makes a logger of it, `Levels` is about the level that `New` is given, `Contexts` about
-- the fields that a context carries. `Exported` has the functions of the package that log, `Global`
-- those that hand on to its own entry, `Setters` the logger behind an entry, `Sharing` the maps of
-- fields by their addresses.
pub mod Methods
pub mod Entry
pub mod Interface
pub mod Entries
pub mod Contexts
pub mod Exported
pub mod Levels
pub mod Setters
pub mod Global
pub mod Sharing
pub mod Tests
