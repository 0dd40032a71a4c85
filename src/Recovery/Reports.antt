-- ===== src/Recovery/Reports.antt =====
-- handlers/recovery/logger.go, raygun.go: the two failure handlers of the package.
use golang_service.Prelude.{◌≡◌, refl, ap, ◌∙◌, List, [], ◌∷◌, String}
use golang_service.Prelude.Int.{ℤ}
use golang_service.Errors.{Error, error_message}
use golang_service.Http.{
  Any, text, int, World, Writer, Request, FailureHandler, Effect, ◌>>◌, Fields, err,
}
use golang_service.Log.Entry.{fields_in, over}
use golang_service.Log.Methods.{error, plain, value}
use golang_service.Log.Interface.{FieldLogger, Laws, lookup-added}
use golang_service.Prelude.Text.{lookup}

-- the calls of a raygun client
pub record RaygunClient : Type 0 where
  pub request : Request → Effect
  pub custom_data : Fields → Effect
  pub create_error : String → Effect

module _ {L : Type 0} (f : FieldLogger L) where
  -- `panicLogger.Handle`; `stack` is what `debug.Stack()` answers
  unfoldable pub log_panic : L → Any → FailureHandler
  log_panic logger stack w r e status =
      f.log
        (f.with_err
          (f.with_kv (f.in_context logger r.context)
            (("tag", text "critical_error") ∷ ("stack", stack) ∷ ("status", int status) ∷ []))
          e)
        (plain error (value (text "panic occoured") ∷ []))

  -- `PanicLogger`
  unfoldable pub panic_logger : L → Any → FailureHandler
  unfolding log_panic
  panic_logger logger stack = log_panic logger stack

  -- `raygunRecoverer.Handle`; `global` is the entry of the package log
  unfoldable pub report_crash : L → RaygunClient → FailureHandler
  unfolding error_message
  report_crash global client w r e status =
      client.request r
      >> client.custom_data (f.fields (f.in_context global r.context))
      >> client.create_error (error_message e)

  -- `Raygun`
  unfoldable pub raygun : L → RaygunClient → FailureHandler
  unfolding report_crash
  raygun global client = report_crash global client

module _ {L : Type 0} (f : FieldLogger L) (laws : Laws f) (k : String) where
  -- A panic is logged once, at the level error. The entry has the caught error over the tag, the
  -- stack and the status, over the fields of the request's context, over the logger's, if the
  -- logger keeps the laws of a `FieldLogger`.
  pub log_panic_lem :
      (logger : L) (stack : Any) (w : Writer) (req : Request) (e : Error) (status : ℤ) (s : World)
      → (c : L) × (log_panic f logger stack w req e status s
          ≡ f.log c (plain error (value (text "panic occoured") ∷ [])) s)
        × (lookup k (f.fields c)
            ≡ over (lookup k (("error", err e) ∷ [])) (
                over
                  (lookup k (
                    ("tag", text "critical_error")
                    ∷ ("stack", stack)
                    ∷ ("status", int status)
                    ∷ []))
                  (over (lookup k (fields_in req.context)) (lookup k (f.fields logger)))))
  unfolding log_panic
  log_panic_lem logger stack w req e status s =
      let fs =
        List.◌∷◌ ("tag", text "critical_error") (("stack", stack) ∷ ("status", int status) ∷ []) in
      let base = f.with_kv (f.in_context logger req.context) fs in
      (
        f.with_err base e,
        refl,
        laws.raised k base e
            ∙ ap (over (lookup k (("error", err e) ∷ [])))
                (lookup-added f laws k logger req.context fs),
      )
