-- ===== src/Http/Writers.antt =====
-- Response writers: the server's, and those of handlers/request_logger.go, as one data type with a
-- constructor for each Go type.
use golang_service.Prelude.{ℕ, Bool, String, List, Option}
use golang_service.Prelude.Int.{ℤ}
use golang_service.Errors.{Error}
use golang_service.Http.Values.{Request}
use golang_service.Http.Run.{Sent, Effect}

-- A response writer of other code: what it answers after the calls that it has had, and which of
-- the optional interfaces it implements.
pub record External : Type 0 where
  -- `Write`
  pub answer : List Sent → String → ℤ × Option Error
  pub flusher : Bool
  -- `Hijack`, where it is a `http.Hijacker`: its error
  pub hijacker : Option (List Sent → Option Error)
  pub close_notifier : Bool
  -- `Status` and `Size`, where it has them; with `Flush` it is a `LoggingResponseWriter`
  pub logging : Option (List Sent → ℤ × ℤ)

-- A logger is named by its address; a struct that embeds interfaces holds their values.
pub data Writer : Type 0 where
  external : External → Writer
  -- &responseLogger{w}
  response_logger : ℕ → Writer → Writer
  -- &hijackLogger{responseLogger{w}}
  hijack_logger : ℕ → Writer → Writer
  -- &closeNotifyWriter{LoggingResponseWriter, CloseNotifier}
  close_notify_writer : Writer → Writer → Writer
  -- hijackCloseNotifier{LoggingResponseWriter, Hijacker, CloseNotifier}
  hijack_close_notifier : Writer → Writer → Writer → Writer

-- `http.Handler`
abbrev pub Handler : Type 0
Handler = Writer → Request → Effect

-- handlers/failure/failure.go, `Handler`
abbrev pub FailureHandler : Type 0
FailureHandler = Writer → Request → Error → ℤ → Effect
