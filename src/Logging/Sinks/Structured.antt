-- ===== src/Logging/Sinks/Structured.antt =====
-- handlers/structured.go, context.go: the fields of a request in a log entry, and in the request's
-- context.
use golang_service.Prelude.{◌≡◌, [], ◌∷◌, String}
use golang_service.Prelude.Int.{ℤ}
use golang_service.Prelude.Text.{lookup}
use golang_service.Http.{
  text, int, seconds, Fields, Context, World, Writer, Request, Url, Handler, done, header_get,
  with_context,
}
use golang_service.Log.Entry.{fields_in, over}
use golang_service.Log.Methods.{info, formatted, value}
use golang_service.Log.Interface.{FieldLogger, Laws, lookup-added}
use golang_service.Logging.Calls.{make_logger, status_of, size_of}
use golang_service.Logging.Serve.{Caller, log_serve_http, elapsed, log_serve_http_done}
use golang_service.Logging.Requests.{
  Net, Ip, IpResult, found, failed, parse_uri, uri_path, get_user_ip,
}

-- How addresses and times are written: `IP.String`, `Time.Format(RFC3339Nano)`.
pub record Texts : Type 0 where
  pub show_ip : Ip → String
  pub rfc3339 : ℤ → String

abbrev ip_text : Texts → IpResult → String
ip_text x (found ip) = x.show_ip ip
ip_text x (failed e) = ""

module _ {L : Type 0} (f : FieldLogger L) (net : Net) (x : Texts) where
  -- the fields of `writeStructuredLog`
  unfoldable pub request_fields : Request → Url → ℤ → ℤ → ℤ → ℤ → Fields
  unfolding parse_uri uri_path get_user_ip header_get
  request_fields req url ts dur status size =
      ("tag", text "request_handled")
      ∷ ("http.method", text req.method)
      ∷ ("http.protocol", text req.proto)
      ∷ ("http.uri", text (parse_uri net req url))
      ∷ ("http.path", text (uri_path net req url))
      ∷ ("http.host", text req.host)
      ∷ ("http.status", int status)
      ∷ ("http.bytes", int size)
      ∷ ("http.user", text (ip_text x (get_user_ip net req)))
      ∷ ("http.ref", text (header_get req.header "Referer"))
      ∷ ("http.user-agent", text (header_get req.header "User-Agent"))
      ∷ ("dur", seconds dur)
      ∷ ("http.time", text (x.rfc3339 ts))
      ∷ []

  -- `writeStructuredLog`
  unfoldable pub write_structured_log : L → Caller
  unfolding request_fields parse_uri
  write_structured_log logger w req url ts dur status size =
      f.log (f.with_kv logger (request_fields req url ts dur status size)) (
        formatted info "%s %s %s" (
          value (text req.method)
          ∷ value (text (parse_uri net req url))
          ∷ value (text req.proto)
          ∷ []))

  -- `structuredHandler.ServeHTTP`
  unfoldable pub structured_handler : L → Handler → Handler
  unfolding log_serve_http write_structured_log
  structured_handler logger h w req =
      log_serve_http w req h (write_structured_log (f.in_context logger req.context))

  -- `StructuredLogHandler`
  unfoldable pub structured_log_handler : L → Handler → Handler
  unfolding structured_handler
  structured_log_handler logger h = structured_handler logger h

  -- `StructuredHandler`, on the entry of the package log
  unfoldable pub structured_default : L → Handler → Handler
  unfolding structured_handler
  structured_default global h =
      structured_handler (f.with_kv global (("module", text "request.handler") ∷ [])) h

  -- the fields of `logContextHandler`, `transaction` being the new identifier
  unfoldable pub ambient_fields : String → Request → Url → Fields
  unfolding parse_uri uri_path get_user_ip header_get
  ambient_fields transaction req url =
      ("transaction", text transaction)
      ∷ ("http.method", text req.method)
      ∷ ("http.protocol", text req.proto)
      ∷ ("http.uri", text (parse_uri net req url))
      ∷ ("http.path", text (uri_path net req url))
      ∷ ("http.host", text req.host)
      ∷ ("http.user", text (ip_text x (get_user_ip net req)))
      ∷ ("http.ref", text (header_get req.header "Referer"))
      ∷ ("http.user-agent", text (header_get req.header "User-Agent"))
      ∷ []

  -- the context that `logContextHandler.ServeHTTP` gives to the handler
  unfoldable pub ambient_context : L → String → Request → Url → Context
  unfolding ambient_fields
  ambient_context logger transaction req url =
      f.new_context
        (f.with_kv (f.in_context logger req.context) (ambient_fields transaction req url))
        req.context

  -- `logContextHandler.ServeHTTP`, where the state gives the next identifier
  unfoldable pub context_handler : L → (World → String) → Handler → Handler
  unfolding ambient_context
  context_handler logger uuid h w req s =
      h w (with_context req (ambient_context logger (uuid s) req (s.urls req.url))) s

  -- `LoggingContextHandler`
  unfoldable pub logging_context_handler : L → (World → String) → Handler → Handler
  unfolding context_handler
  logging_context_handler logger uuid h = context_handler (f.with_kv logger []) uuid h

module _ {L : Type 0} (f : FieldLogger L) (laws : Laws f) (net : Net) (x : Texts) (k : String) where
  -- After a handler that returns, one entry of level info is written. Its fields are those of the
  -- request, with the URL and the time of before the handler ran and the status and size that were
  -- counted; under all other names they are those of the request's context, else the logger's, if
  -- the logger keeps the laws of a `FieldLogger`.
  pub structured_handler_done :
      (logger : L) (h : Handler) (w : Writer) (req : Request) (s t : World)
      → h (make_logger w s).0 req (make_logger w s).1 ≡ (done tt, t)
      → let url = s.urls req.url in
        (c : L) × (structured_handler f net x logger h w req s
          ≡ f.log c
              (formatted info "%s %s %s" (
                value (text req.method)
                ∷ value (text (parse_uri net req url))
                ∷ value (text req.proto)
                ∷ []))
              t)
        × (lookup k (f.fields c)
            ≡ over
                (lookup k (
                  request_fields f net x req url s.wall
                    (elapsed t.ticks s.ticks)
                    (status_of (make_logger w s).0 t)
                    (size_of (make_logger w s).0 t)))
                (over (lookup k (fields_in req.context)) (lookup k (f.fields logger))))
  unfolding structured_handler write_structured_log
  structured_handler_done logger h w req s t e =
      let fs =
        request_fields f net x req (s.urls req.url) s.wall (elapsed t.ticks s.ticks)
          (status_of (make_logger w s).0 t) (size_of (make_logger w s).0 t) in
      let base = f.in_context logger req.context in
      (
        f.with_kv base fs,
        log_serve_http_done w req h (write_structured_log f net x base) s t e,
        lookup-added f laws k logger req.context fs,
      )
