-- ===== src/Recovery/Middleware.antt =====
-- handlers/recovery/middleware.go: `ServeHTTP` and the function that it defers.
use golang_service.Prelude.{List, [], ◌∷◌, Option, none, some, String}
use golang_service.Prelude.Int.{ℤ, pos}
use golang_service.Errors.{Error, foreign}
use golang_service.Http.{
  World, Writer, Request, Handler, FailureHandler, Effect, Outcome, done, panicked, Panicked,
  with_error, with_text, with_other, bad_assertion, skip, ◌>>◌,
}

abbrev pub status_internal_server_error : ℤ
status_internal_server_error = pos 500

-- `err, ok := e.(error)`, else `errors.New(e.(string))`; none where that assertion panics in its
-- turn. The run-time error of a failed assertion is an `error` with a text of the runtime's.
unfoldable pub error_of : String → Panicked → Option Error
error_of runtime_text (with_error e) = some e
error_of runtime_text (with_text t) = some (foreign t)
error_of runtime_text (with_other v) = none
error_of runtime_text bad_assertion = some (foreign runtime_text)

-- `for _, r := range m.handlers { r.Handle(w, req, err, 500) }`
unfoldable pub handle_all : List FailureHandler → Writer → Request → Error → Effect
handle_all [] w req err = skip
handle_all (r ∷ rs) w req err = r w req err status_internal_server_error >> handle_all rs w req err

-- what follows `err, ok := e.(error)`
unfoldable pub handle_error : List FailureHandler → Writer → Request → Option Error → Effect
unfolding handle_all
handle_error rs w req (some err) s = handle_all rs w req err s
handle_error rs w req none s = (panicked (some bad_assertion), s)

-- the deferred function: `recover` gives nil where nothing panicked, and for `panic(nil)`
unfoldable pub recovered :
    String
    → List FailureHandler
    → Writer
    → Request
    → Outcome (Unit {0}) × World
    → Outcome (Unit {0}) × World
unfolding handle_error error_of
recovered text rs w req (done u, s) = (done u, s)
recovered text rs w req (panicked none, s) = (done tt, s)
recovered text rs w req (panicked (some v), s) = handle_error rs w req (error_of text v) s

-- `ServeHTTP` of the handler that `New(handlers...)` makes round `next`
unfoldable pub serve_http : String → List FailureHandler → Handler → Handler
unfolding recovered
serve_http text rs next w req s = recovered text rs w req (next w req s)

-- `New`: what it makes of the handlers is a middleware
unfoldable pub new : String → List FailureHandler → Handler → Handler
unfolding serve_http
new text handlers h = serve_http text handlers h
