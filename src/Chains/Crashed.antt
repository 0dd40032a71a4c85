-- ===== src/Chains/Crashed.antt =====
-- `LoggingContextHandler` (handlers/context.go) round the recovery middleware with `PanicLogger`
-- and `Raygun` (handlers/recovery): what the log and raygun show of a panic.
use golang_service.Prelude.{◌≡◌, ap, ◌∙◌, String, List, [], ◌∷◌, some}
use golang_service.Prelude.Int.{pos}
use golang_service.Prelude.Text.{lookup}
use golang_service.Errors.{Error, error_message}
use golang_service.Http.{
  Any, text, int, Fields, World, Writer, Request, Handler, FailureHandler, Panicked, panicked, done,
  err, ◌>>◌, >>=-done,
}
use golang_service.Log.Entry.{fields_in, over}
use golang_service.Log.Methods.{error, plain, value}
use golang_service.Log.Interface.{FieldLogger, Laws, over-kept}
use golang_service.Logging.Requests.{Net}
use golang_service.Logging.Sinks.Structured.{
  Texts, ambient_fields, ambient_context, logging_context_handler, context_handler,
}
use golang_service.Recovery.Middleware.{
  error_of, handle_all, handle_error, recovered, serve_http, new,
}
use golang_service.Recovery.Reports.{
  RaygunClient, log_panic, log_panic_lem, panic_logger, raygun, report_crash,
}
use golang_service.Chains.Ambient.{inner_request}

-- what `panicLogger.Handle` adds to its logger
abbrev pub panic_fields : Any → Fields
panic_fields stack =
    ("tag", text "critical_error") ∷ ("stack", stack) ∷ ("status", int (pos 500)) ∷ []

module _ {L : Type 0} (f : FieldLogger L) (laws : Laws f) (net : Net) (x : Texts) (k : String)
    (logger : L) (uuid : World → String) (stack : Any) (runtime : String)
    (written : L → World → World)
    (returns : (c : L) (s : World)
      → f.log c (plain error (value (text "panic occoured") ∷ [])) s ≡ (done tt, written c s)) where
  context_handler-log_panic :
      (outer : L) (later : List FailureHandler) (next : Handler) (w : Writer) (req : Request)
      (s t : World) (v : Panicked) (e : Error)
      → error_of runtime v ≡ some e
      → next w (inner_request f net x outer uuid req s) s ≡ (panicked (some v), t)
      → (c : L) × (context_handler f net x outer uuid
            (serve_http runtime (log_panic f logger stack ∷ later) next)
            w
            req
            s
          ≡ handle_all later w (inner_request f net x outer uuid req s) e (written c t))
        × (lookup k (f.fields c)
            ≡ over (lookup k (("error", err e) ∷ [])) (
                over (lookup k (panic_fields stack)) (
                  over (lookup k (ambient_fields f net x (uuid s) req (s.urls req.url))) (
                    over
                      (lookup k (fields_in req.context))
                      (over (lookup k (f.fields outer)) (lookup k (f.fields logger)))))))
  unfolding context_handler serve_http recovered handle_error handle_all ambient_context
  context_handler-log_panic outer later next w req s t v e known crash =
      let inner = inner_request f net x outer uuid req s in
      let (c, logged, shown) = log_panic_lem f laws k logger stack w inner e (pos 500) t in
      (
        c,
        ap (recovered runtime (log_panic f logger stack ∷ later) w inner) crash
            ∙ ap (λ o. handle_error (log_panic f logger stack ∷ later) w inner o t) known
            ∙ >>=-done (log_panic f logger stack w inner e (pos 500)) _ t (logged ∙ returns c t),
        shown
            ∙ ap
                (λ a.
                  over (lookup k (("error", err e) ∷ [])) (over (lookup k (panic_fields stack)) a))
                (over-kept f laws k outer req.context
                  (ambient_fields f net x (uuid s) req (s.urls req.url))
                  (lookup k (f.fields logger))),
      )

  -- A panic with an error or a text inside the context handler is logged once, and then sent to
  -- raygun with the request that the handler saw, the fields of its context as custom data, and the
  -- message of the error, before the failure handlers after these two run with the same error. The
  -- entry shows, under any name, the error, else the tag, the stack and the status, else what the
  -- context handler has put into the context, the new identifier of the request for one, else a
  -- field of the request's own context, else one of the context handler's logger, else one of the
  -- panic logger's. The custom data shows the same from the context handler's fields on, and the
  -- package's entry for the panic logger. This supposes that the loggers keep the laws of a
  -- `FieldLogger`, and that logging returns.
  pub logging_context_handler-panic_logger :
      (outer global : L) (client : RaygunClient) (later : List FailureHandler) (next : Handler)
      (w : Writer) (req : Request) (s t : World) (v : Panicked) (e : Error)
      → error_of runtime v ≡ some e
      → let base = f.with_kv outer [] in
        let inner = inner_request f net x base uuid req s in
        let ambient = lookup k (ambient_fields f net x (uuid s) req (s.urls req.url)) in
        let own = lookup k (fields_in req.context) in
        next w inner s ≡ (panicked (some v), t)
        → (c : L) × (custom : Fields) × (logging_context_handler f net x outer uuid
              (new runtime (panic_logger f logger stack ∷ raygun f global client ∷ later) next)
              w
              req
              s
            ≡ (client.request inner
                  >> client.custom_data custom
                  >> client.create_error (error_message e)
                  >> handle_all later w inner e)
                (written c t))
          × (lookup k (f.fields c)
              ≡ over (lookup k (("error", err e) ∷ [])) (
                  over (lookup k (panic_fields stack)) (
                    over ambient
                      (over own (over (lookup k (f.fields outer)) (lookup k (f.fields logger)))))))
          × (lookup k custom
              ≡ over ambient
                  (over own (over (lookup k (f.fields outer)) (lookup k (f.fields global)))))
  unfolding logging_context_handler new panic_logger raygun report_crash handle_all ambient_context
      lookup
  logging_context_handler-panic_logger outer global client later next w req s t v e known crash =
      let base = f.with_kv outer [] in
      let fs = ambient_fields f net x (uuid s) req (s.urls req.url) in
      let inner = inner_request f net x base uuid req s in
      let bare : lookup k (f.fields base) ≡ lookup k (f.fields outer) = laws.added k outer [] in
      let (c, ran, shown) =
        context_handler-log_panic base (raygun f global client ∷ later) next w req s t v e known
          crash in
      (
        c,
        f.fields (f.in_context global inner.context),
        ran,
        shown
            ∙ ap
                (λ a. over (lookup k (("error", err e) ∷ [])) (
                  over (lookup k (panic_fields stack)) (
                    over (lookup k fs) (
                      over (lookup k (fields_in req.context))
                        (over a (lookup k (f.fields logger)))))))
                bare,
        laws.entered k global inner.context
            ∙ over-kept f laws k base req.context fs (lookup k (f.fields global))
            ∙ ap
                (λ a.
                  over (lookup k fs)
                    (over (lookup k (fields_in req.context)) (over a (lookup k (f.fields global)))))
                bare,
      )
