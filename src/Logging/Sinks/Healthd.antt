-- ===== src/Logging/Sinks/Healthd.antt =====
-- handlers/healthd.go: a line for each request, and the file that it is written to.
use golang_service.Prelude.{
  ◌≡◌, ap, ◌∙◌, ◌++◌, true, false, Bool-cases, inl, inr, not, ◌||◌, List, [], ◌∷◌, Option, none,
  some, String, if◌then◌else◌, append_snoc,
}
use golang_service.Prelude.Int.{ℤ}
use golang_service.Prelude.Text.{str_eq}
use golang_service.Errors.{Error, ◌<>◌}
use golang_service.Go.Decimal.{itoa}
use golang_service.Http.{
  World, Writer, Request, Url, Handler, Outcome, done, panicked, with_error, Output, line, opened,
  closed, emit, header_get,
}
use golang_service.Logging.Calls.{make_logger, status_of}
use golang_service.Logging.Serve.{
  Caller, log_serve_http, elapsed, log_serve_http_done, log_serve_http_panicked,
}
use golang_service.Logging.Requests.{Net, parse_uri}

-- What the code calls of other packages: `fmt` for a number of nanoseconds as seconds with
-- three places, `strconv.Quote`, the hour of a time as text, and the error of `os.OpenFile`.
pub record Files : Type 0 where
  pub seconds3 : ℤ → String
  pub quote : String → String
  pub hour : ℤ → String
  pub open_error : String → Option Error

-- `healthdFileHandler`; a base is the file that it logs to
pub record FileHandler : Type 0 where
  pub path : String
  pub base : Option String
  pub handler : Handler
  pub timestamp : String

module _ (net : Net) (f : Files) where
  -- the text of `writeHealthdLog`
  unfoldable pub healthd_line : Request → Url → ℤ → ℤ → ℤ → String
  unfolding parse_uri header_get itoa
  healthd_line req url ts dur status =
      f.seconds3 ts
      <> f.quote (parse_uri net req url)
      <> itoa status
      <> "\""
      <> f.seconds3 dur
      <> "\""
      <> f.seconds3 dur
      <> "\""
      <> header_get req.header "X-Forwarded-For"
      <> "\n"

  -- `writeHealthdLog`, to the file of this name
  unfoldable pub write_healthd_log : String → Caller
  unfolding healthd_line
  write_healthd_log file w req url ts dur status size =
      emit (line file (healthd_line req url ts dur status))

  -- `healthdHandler.ServeHTTP`
  unfoldable pub healthd_io_handler : String → Handler → Handler
  unfolding log_serve_http write_healthd_log
  healthd_io_handler file h w req = log_serve_http w req h (write_healthd_log file)

  -- `defer logFile.Close()`: on a return and on a panic
  unfoldable pub close_after : String → Outcome (Unit {0}) × World → Outcome (Unit {0}) × World
  close_after file (o, s) = (o, record s { output = s.output ++ closed file ∷ [] })

  -- the file is opened, and the handler runs on it
  unfoldable pub serve_on_file : String → Option Error → Handler → Handler
  unfolding healthd_io_handler close_after
  serve_on_file file (some err) h w req s = (panicked (some (with_error err)), s)
  serve_on_file file none h w req s =
      close_after file
        (healthd_io_handler file h w req (record s { output = s.output ++ opened file ∷ [] }))

  -- `h.base.ServeHTTP`; the call on nil is never reached
  abbrev serve_base : Option String → Handler → Handler
  serve_base (some file) h w req s = healthd_io_handler file h w req s
  serve_base none h w req s = (panicked none, s)

  -- `healthdFileHandler.ServeHTTP`: the receiver is a copy, so that what is stored in it is lost
  unfoldable pub file_serve_http : FileHandler → Handler
  unfolding serve_on_file healthd_io_handler
  file_serve_http h w req s =
      let now = f.hour s.wall in
      let file = h.path <> "application.log." <> now in
      if not (str_eq h.timestamp now) || elim h.base [ none ↦ true | some b ↦ false ]
      then serve_on_file file (f.open_error file) h.handler w req s
      else serve_base h.base h.handler w req s

  -- the handler that `HealthdHandler` makes
  abbrev pub made : Handler → FileHandler
  made h = record { path = "/var/log/nginx/healthd/"; base = none; handler = h; timestamp = "" }

  -- `HealthdHandler`, where `failure` is the error of `os.MkdirAll`
  unfoldable pub new_healthd_handler : Option Error → Handler → World → Outcome FileHandler × World
  new_healthd_handler (some err) h s = (panicked (some (with_error err)), s)
  new_healthd_handler none h s = (done (made h), s)

-- the lines that a request leaves in its file
abbrev logged : Net → Files → Request → Url → ℤ → ℤ → ℤ → String → Outcome (Unit {0}) → List Output
logged net f req url ts dur status file (done u) =
    line file (healthd_line net f req url ts dur status) ∷ []
logged net f req url ts dur status file (panicked v) = []

module _ (net : Net) (f : Files) (h : Handler) (w : Writer) (req : Request) (s t : World) where
  -- the file of the current hour, and the state in which it has been opened
  abbrev pub log_file : String
  log_file = "/var/log/nginx/healthd/" <> "application.log." <> f.hour s.wall

  abbrev pub with_file : World
  with_file = record s { output = s.output ++ opened log_file ∷ [] }

  pub file_serve_http_opens :
      f.open_error log_file ≡ none
      → file_serve_http net f (made net f h) w req s
        ≡ close_after net f log_file (healthd_io_handler net f log_file h w req with_file)
  unfolding file_serve_http serve_on_file
  file_serve_http_opens e =
      let opens = ap (λ o. serve_on_file net f log_file o h w req s) e in
      elim (Bool-cases (str_eq "" (f.hour s.wall))) [ inl c ↦ rw c opens | inr c ↦ rw c opens ]

  -- Where the file cannot be opened, the error is the argument of a panic, and nothing is done.
  pub file_serve_http_fails :
      (err : Error)
      → f.open_error log_file ≡ some err
      → file_serve_http net f (made net f h) w req s ≡ (panicked (some (with_error err)), s)
  unfolding file_serve_http serve_on_file
  file_serve_http_fails err e =
      let fails = ap (λ o. serve_on_file net f log_file o h w req s) e in
      elim (Bool-cases (str_eq "" (f.hour s.wall))) [ inl c ↦ rw c fails | inr c ↦ rw c fails ]

  -- Where the file can be opened, a handler that `HealthdHandler` made opens the file of the
  -- current hour for each request and closes it after it, also where it has opened that file for an
  -- earlier request. A handler that returns has its one line written in between, and one that
  -- panics none.
  pub file_serve_http-reopens :
      (o : Outcome (Unit {0}))
      → f.open_error log_file ≡ none
      → h (make_logger w with_file).0 req (make_logger w with_file).1 ≡ (o, t)
      → file_serve_http net f (made net f h) w req s ≡ (
        o,
        record t {
          output =
              t.output
              ++ (logged net f req
                    (s.urls req.url)
                    s.wall
                    (elapsed t.ticks s.ticks)
                    (status_of (make_logger w with_file).0 t)
                    log_file
                    o
                  ++ closed log_file ∷ []);
        },
      )
  unfolding healthd_io_handler write_healthd_log close_after
  file_serve_http-reopens (done u) e g =
      file_serve_http_opens e
      ∙ ap (close_after net f log_file)
          (log_serve_http_done w req h (write_healthd_log net f log_file) with_file t g)
      ∙ ap (λ out. (done u, record t { output = out }))
          (append_snoc t.output
            (line log_file (
              healthd_line net f req (s.urls req.url) s.wall (elapsed t.ticks s.ticks)
                (status_of (make_logger w with_file).0 t)))
            (closed log_file ∷ []))
  file_serve_http-reopens (panicked v) e g =
      file_serve_http_opens e
      ∙ ap (close_after net f log_file)
          (log_serve_http_panicked w req h (write_healthd_log net f log_file) with_file t v g)
