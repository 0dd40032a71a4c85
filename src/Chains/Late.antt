-- ===== src/Chains/Late.antt =====
-- A logging middleware (handlers/request_logger.go) round the recovery middleware
-- (handlers/recovery/middleware.go): what the client sees of a request whose handler panics.
mod Tests
use golang_service.Prelude.{
  ℕ, zero, suc, ◌≡◌, refl, sym, ap, subst, ◌⊎◌, inl, inr, ◌+◌, ltb, Bool-cases, ◌∙◌, String, List,
  [], ◌∷◌, ◌++◌, none, some, arith,
}
use golang_service.Prelude.Int.{ℤ, pos, pos_part, neg_part, ◌≤ℤ◌, ◌<ℤ◌}
use golang_service.Errors.{Error}
use golang_service.Http.{World, Sent, external, External, Request, Handler, panicked, Panicked}
use golang_service.Logging.Wrapping.{
  Call, header_call, write_call, hijack_call, flush_call, perform, run,
}
use golang_service.Logging.Report.{make_logger_transparent}
use golang_service.Logging.Seen.{
  Responds, Answers, by_header, by_write, flushes, after_flushes, first_call_seen, flushes-seen,
}
use golang_service.Logging.Serve.{Caller, log_serve_http}
use golang_service.Chains.Status.{write_status, logger, begun, report, headed, run-append}
use golang_service.Chains.Recovered.{panic-status_of}
use golang_service.Recovery.Middleware.{error_of, serve_http}

-- What the client sees of a handler that panics after some calls, behind failure handlers that
-- write status 500. Two first calls do not settle it: `WriteHeader` with a code below 200, and
-- `Hijack`.
pub data Shown (e : External) : List Call → ℤ → Type 0 where
  unanswered : (n : ℕ) → Shown e (flushes n []) (after_flushes n e.flusher (pos 500))
  answered :
      (n : ℕ) (first : Call) (code : ℤ) (rest : List Call)
      → Answers first code
      → Shown e (flushes n (first ∷ rest)) (after_flushes n e.flusher code)
  informed :
      (n : ℕ) (code : ℤ) (rest : List Call) (other_code : ℤ)
      → code <ℤ pos 200
      → Shown e (flushes n (header_call code ∷ rest)) (after_flushes n e.flusher other_code)
  hijacked :
      (n : ℕ) (rest : List Call) (other_code : ℤ)
      → Shown e (flushes n (hijack_call ∷ rest)) (after_flushes n e.flusher other_code)

-- the flushes that calls begin with, and what comes first after them
data Leading : List Call → Type 0 where
  idle : (n : ℕ) → Leading (flushes n [])
  header : (n : ℕ) (code : ℤ) (rest : List Call) → Leading (flushes n (header_call code ∷ rest))
  writing : (n : ℕ) (b : String) (rest : List Call) → Leading (flushes n (write_call b ∷ rest))
  hijacking : (n : ℕ) (rest : List Call) → Leading (flushes n (hijack_call ∷ rest))

one_flush_more : {cs : List Call} → Leading cs → Leading (flush_call ∷ cs)
one_flush_more (idle n) = idle (suc n)
one_flush_more (header n code rest) = header (suc n) code rest
one_flush_more (writing n b rest) = writing (suc n) b rest
one_flush_more (hijacking n rest) = hijacking (suc n) rest

leading : (cs : List Call) → Leading cs
leading [] = idle 0
leading (header_call code ∷ cs) = header 0 code cs
leading (write_call b ∷ cs) = writing 0 b cs
leading (hijack_call ∷ cs) = hijacking 0 cs
leading (flush_call ∷ cs) = one_flush_more (leading cs)

final_or_informational : (code : ℤ) → (pos 200 ≤ℤ code) ⊎ (code <ℤ pos 200)
final_or_informational code = elim (Bool-cases (ltb (pos_part code) (200 + neg_part code))) [
  | inl below ↦ inr (ground arith)
  | inr above ↦ inl (ground arith)
]

flushes-append : (n : ℕ) (cs ds : List Call) → flushes n cs ++ ds ≡ flushes n (cs ++ ds)
flushes-append zero cs ds = refl
flushes-append (suc n) cs ds = ap (λ ds'. flush_call ∷ ds') (flushes-append n cs ds)

module _ (seen : List Sent → ℤ) (rules : Responds seen) (e : External) (s : World)
    (other : e.logging ≡ none) (fresh : s.sent ≡ []) where
  headed-run :
      (n : ℕ) (cs : List Call)
      → run (logger e s) (flushes n (cs ++ header_call (pos 500) ∷ [])) (begun e s)
        ≡ headed e s (flushes n cs) (pos 500)
  unfolding run perform
  headed-run n cs =
      let last = List.◌∷◌ (header_call (pos 500)) [] in
      ap (λ ds. run (logger e s) ds (begun e s)) (sym (flushes-append n cs last))
      ∙ run-append (logger e s) (flushes n cs) last (begun e s)

  module _ (n : ℕ) (cs : List Call) where
    abbrev last : List Call
    last = header_call (pos 500) ∷ []

    headed-seen :
        (code : ℤ)
        → seen (run (external e) (cs ++ last) s).sent ≡ code
        → seen (headed e s (flushes n cs) (pos 500)).sent ≡ after_flushes n e.flusher code
    headed-seen code shown =
        ap (λ (t : World). seen t.sent) (sym (headed-run n cs))
        ∙ ap seen (make_logger_transparent e s other (flushes n (cs ++ last)))
        ∙ flushes-seen seen rules e n (cs ++ last) s code fresh shown

  answered-Shown :
      (n : ℕ) (first : Call) (code : ℤ) (rest : List Call)
      → Answers first code
      → Shown e
          (flushes n (first ∷ rest))
          (seen (headed e s (flushes n (first ∷ rest)) (pos 500)).sent)
  answered-Shown n first code rest a =
      let more = rest ++ header_call (pos 500) ∷ [] in
      subst (Shown e (flushes n (first ∷ rest)))
        (sym (
          headed-seen n (first ∷ rest) code
            (first_call_seen seen rules e s first code more fresh a)))
        (answered n first code rest a)

  unsettled :
      (n : ℕ) (first : Call) (rest : List Call)
      → ((other_code : ℤ)
          → Shown e (flushes n (first ∷ rest)) (after_flushes n e.flusher other_code))
      → Shown e
          (flushes n (first ∷ rest))
          (seen (headed e s (flushes n (first ∷ rest)) (pos 500)).sent)
  unsettled n first rest any =
      let code = seen (run (external e) (first ∷ (rest ++ header_call (pos 500) ∷ [])) s).sent in
      subst (Shown e (flushes n (first ∷ rest))) (sym (headed-seen n (first ∷ rest) code refl))
        (any code)

  headed-Shown : {cs : List Call} → Leading cs → Shown e cs (seen (headed e s cs (pos 500)).sent)
  headed-Shown (idle n) =
      let first = by_header (pos 500) (omega arith) in
      subst (Shown e (flushes n []))
        (sym (
          headed-seen n [] (pos 500)
            (first_call_seen seen rules e s (header_call (pos 500)) (pos 500) [] fresh first)))
        (unanswered n)
  headed-Shown (header n code rest) = elim (final_or_informational code) [
    | inl final ↦ answered-Shown n (header_call code) code rest (by_header code final)
    | inr below ↦
        unsettled n (header_call code) rest (λ other_code. informed n code rest other_code below)
  ]
  headed-Shown (writing n b rest) = answered-Shown n (write_call b) (pos 200) rest (by_write b)
  headed-Shown (hijacking n rest) =
      unsettled n hijack_call rest (λ other_code. hijacked n rest other_code)

  module _ (text : String) (next : Handler) (caller : Caller) (req : Request) where
    -- If a handler panics with an error or a text, and the failure handler writes the status that
    -- it is given, then the request is reported with status 500, whatever the handler has called on
    -- its writer before. What the client sees depends on the handler's first call that is no flush.
    -- Without one it sees 500. After a write it sees 200, and after `WriteHeader` with a code from
    -- 200 on that code. After `WriteHeader` with a code below 200, and after `Hijack`, this is left
    -- open. In all these cases it sees 200 instead where the handler has flushed first and the
    -- server's writer is a `Flusher`. That writer has been asked for nothing and does not count by
    -- itself.
    pub late_panic :
        (v : Panicked) (err : Error) (cs : List Call)
        → error_of text v ≡ some err
        → next (logger e s) req (begun e s) ≡ (panicked (some v), run (logger e s) cs (begun e s))
        → let t = headed e s cs (pos 500) in
          (log_serve_http (external e) req (serve_http text (write_status ∷ []) next) caller s
            ≡ report e s caller req (pos 500) t)
          × Shown e cs (seen t.sent)
    late_panic v err cs known crash = (
      panic-status_of e s cs text next caller req v err other known crash,
      headed-Shown (leading cs),
    )
