-- ===== src/Lib.antt =====
-- A verification library for the helpers of this repository: HTTP middlewares that authenticate,
-- log, measure and recover (handlers/), the logging contexts that they share (log/), pagination of
-- lists (pagination/), validation of request bodies (validate/), and the clients and test servers
-- beside them (metrics/, nettest/).
--
-- How the parts interact. A handler is a function from a response writer and a request to an action
-- on a `World` (Http/Run.antt): what the server's writer was asked to do, the counters of the
-- logging writers, the URLs that requests point to, what has left the process, and the two clocks.
-- An action returns or panics. Middlewares take handlers to handlers, and are composed as in the Go
-- code; the failure handlers of handlers/failure are called by handlers/auth and handlers/recovery.
-- What is logged goes through the interface FieldLogger (Log/Interface.antt) and rests on its laws.
--
-- Which file models what:
--   Prelude, Go: shared lemmas; Go's `int` of 64 bits with its wrap-around (Go/Int64), `float64`
--     as far as pagination divides and rounds up (Go/Float64), `strconv.Itoa` (Go/Decimal),
--     `strings.Split` and `strings.Replace` (Go/Strings).
--   Errors: the error values of handlers/auth and validate, and their texts.
--   Http: requests, headers, contexts, the world, and the response writers. `Writer` has one
--     constructor for each writer type of handlers/request_logger.go, and `external` for any
--     other; a responseLogger is the address of its counter.
--   Auth: handlers/auth. `Keys` has APIKey.Handler (`api_key_handler`) and XAPIKey.Handler
--     (`x_api_key_handler`), `User` saveUser and GetUser, `Spec` the documented cases as a relation.
--   Recovery: handlers/recovery. `Middleware` has New and ServeHTTP (`serve_http`), `Reports` the
--     panic logger and the raygun reporter, and `Sharing` the reporter's one client, with requests
--     that panic at the same time; a step is a call on that client.
--   Logging: handlers/request_logger.go. `Calls` has the writers' methods and MakeLogger, `Serve`
--     LogServeHTTP, `Requests` parseURI, uriPath and getUserIP (`UserIp` says which source it takes). `Wrapping`, `Counts`, `Trace` and
--     `Report` lead to what a logger reports after any sequence of calls, `Seen` compares that with
--     the status that the client gets. `Concurrent` has requests beside each other on one store of
--     loggers; a step is a call of `MakeLogger` or of a method of a writer.
--   Logging/Sinks: `Statsd`, `Healthd`, `Structured` model handlers/statsd.go, handlers/healthd.go,
--     handlers/structured.go with handlers/context.go; `Lines` reads the lines of healthd again,
--     `Closing` counts the files that are opened and closed.
--   Log: log/context.go and log/exported.go. `Interface` is the interface FieldLogger with its laws
--     (`Laws`), by which the handlers log; `Methods` are its logging methods. `Entry` has the methods
--     of LoggerEntry and New, `Levels` what New does with a level, `Contexts` what contexts carry,
--     and `Entries` makes a FieldLogger of it. `Setters` is the logger behind an entry, `Exported`
--     the package's functions that log, `Global` those that hand on to its entry. Fields are values
--     there; `Sharing` has the same methods on a store of maps, for what is copied and what is shared.
--   Metrics: metrics/statsd.go.
--   Validate: validate/validate.go; `Laws` has the documented outcomes as a relation (`Answers`).
--   Nettest: nettest/netserver.go. The root has what the two readers pass on, `Create` what
--     CreateServer does, `Packets` the goroutine of a packet server step by step, and `Server` those
--     of a stream server as a step relation: `Counting` is about what the WaitGroup counts,
--     `Delivery` about what has been received, `Progress` and `Bound` about the end of the goroutines.
--   Pagination: pagination/paginator.go, with what stays true of a paginator in `Sound`; `Json` is
--     pagination/json.go, `Json/Links` which links there are, `Json/Targets` where they lead, and
--     `Json/Leads` what they ask for (with what net/url documents as `Laws` and `Gets`); `Following`
--     asks for the pages that they lead to, and `Following/Crawl` has a client that follows them
--     from page to page to the end.
--   Chains: middlewares round each other. `Status` is what is reported of a request that ends with a
--     status, `Recovered` logging round recovery, `Refused` logging round authentication, `Nested`
--     logging round logging, `Ambient` the structured log in the logging context, `Crashed` the panic
--     log and raygun in it, `Stack` logging round recovery round authentication, `Late` what the
--     client sees of a panic, `Identity` authentication and the logging context in either order.
--
-- Bounds and fuel. An `int` is an integer in [-2^63, 2^63) and its arithmetic wraps. The binary
-- exponent of a quotient is searched for with 128 doublings, which is enough since both operands
-- are below 2^64. The digits of a number n are made with fuel n + 1, which is more than it has. The
-- servers of nettest have no fuel: their runs are of any length. The fuel of the client that
-- follows links is its number of requests, of which as many as there are pages are enough.
--
-- Parameters. Code outside the repository is an argument of the definitions that use it: the
-- response writer of the server (`External`, with net/http's rules on the status of a response as
-- `Responds`), net and net/url (`Net`, `Codec`), logrus (`Logrus`, with the documented behaviour of
-- WithFields and WithError as `Merges` and `Raises`), the raygun client (`RaygunClient`; what it keeps
-- between calls is `Keeper` with `KeeperLaws`), the statsd client, a client's reading of links
-- (`Reader` with `Reads`), the file system and the formatting of numbers and times (`Files`,
-- `Texts`), and the unmarshallers.
--
-- Not modelled: the connection that Hijack hands over, the encoding of the JSON that MarshalJSON
-- hands to encoding/json, and sockets with their deadlines: what a connection reads is a list of
-- answers, and when it comes is left open, as is the order in which goroutines move. What happens
-- within a call of a method while another goroutine is in a method of the same writer is left out.
-- A request is a value: what a handler changes in place in its `*http.Request` other than the URL
-- is not seen by the code that called it. `LogServeHTTP` itself takes no time on the two clocks; time
-- passes in the handler and in what reports. The doc.go files have no code.
pub mod Prelude
pub mod Go
pub mod Errors
pub mod Http
pub mod Auth
pub mod Log
pub mod Metrics
pub mod Recovery
pub mod Logging
pub mod Chains
pub mod Validate
pub mod Nettest
pub mod Pagination
