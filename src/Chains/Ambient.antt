-- ===== src/Chains/Ambient.antt =====
-- `LoggingContextHandler` (handlers/context.go) round `StructuredLogHandler`
-- (handlers/structured.go): what the entry of a request shows.
use golang_service.Prelude.{◌≡◌, ap, ◌∙◌, String, [], ◌∷◌}
use golang_service.Prelude.Text.{lookup}
use golang_service.Http.{World, Writer, Request, Handler, text, done, with_context}
use golang_service.Log.Entry.{fields_in, over}
use golang_service.Log.Methods.{info, formatted, value}
use golang_service.Log.Interface.{FieldLogger, Laws, over-kept}
use golang_service.Logging.Calls.{make_logger, status_of, size_of}
use golang_service.Logging.Serve.{elapsed}
use golang_service.Logging.Requests.{Net, parse_uri}
use golang_service.Logging.Sinks.Structured.{
  Texts, request_fields, ambient_fields, structured_handler, context_handler, ambient_context,
  structured_handler_done,
}

-- the request that the structured handler and its handler see
abbrev pub inner_request :
    {L : Type 0} → FieldLogger L → Net → Texts → L → (World → String) → Request → World → Request
inner_request f net x outer uuid req s =
    with_context req (ambient_context f net x outer (uuid s) req (s.urls req.url))

module _ {L : Type 0} (f : FieldLogger L) (laws : Laws f) (net : Net) (x : Texts) (k : String)
    (outer inner : L) (uuid : World → String) (h : Handler) (w : Writer) (req : Request)
    (s t : World) where
  -- After a handler that returns, the entry of a request inside both middlewares shows, under any
  -- name, what the structured handler says of the request, else what the context handler has put
  -- into the context, its new identifier for one, else a field of the request's own context, else
  -- one of the outer logger, else one of the inner logger. This supposes that the loggers
  -- keep the laws of a `FieldLogger`.
  pub structured-context_handler :
      h (make_logger w s).0 (inner_request f net x outer uuid req s) (make_logger w s).1
        ≡ (done tt, t)
      → let url = s.urls req.url in
        (c : L) × (context_handler f net x outer uuid (structured_handler f net x inner h) w req s
          ≡ f.log c
              (formatted info "%s %s %s" (
                value (text req.method)
                ∷ value (text (parse_uri net req url))
                ∷ value (text req.proto)
                ∷ []))
              t)
        × (lookup k (f.fields c)
            ≡ over
                (lookup k (
                  request_fields f net x req url s.wall
                    (elapsed t.ticks s.ticks)
                    (status_of (make_logger w s).0 t)
                    (size_of (make_logger w s).0 t)))
                (over (lookup k (ambient_fields f net x (uuid s) req url)) (
                  over
                    (lookup k (fields_in req.context))
                    (over (lookup k (f.fields outer)) (lookup k (f.fields inner))))))
  unfolding context_handler ambient_context request_fields
  structured-context_handler e =
      let (c, ran, shown) =
        structured_handler_done f laws net x k inner h w (inner_request f net x outer uuid req s) s
          t e in
      (
        c,
        ran,
        shown
            ∙ ap
                (over (
                  lookup k (
                    request_fields f net x req (s.urls req.url) s.wall (elapsed t.ticks s.ticks)
                      (status_of (make_logger w s).0 t) (size_of (make_logger w s).0 t))))
                (over-kept f laws k outer req.context
                  (ambient_fields f net x (uuid s) req (s.urls req.url))
                  (lookup k (f.fields inner))),
      )
