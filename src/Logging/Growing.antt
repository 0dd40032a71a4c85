-- ===== src/Logging/Growing.antt =====
-- handlers/request_logger.go: the server's writer is only ever asked for more.
use mathlib.Core.List.{append_assoc, append-nil}
use golang_service.Prelude.{
  ◌≡◌, refl, sym, ap, ◌∙◌, Bool-cases, inl, inr, List, [], ◌∷◌, ◌++◌, Option-cases,
}
use golang_service.Http.{External, external, World, Sent, body, head, flushed, hijacked}
use golang_service.Logging.Calls.{write, write_header, flush, hijack}
use golang_service.Logging.Wrapping.{
  Call, write_call, header_call, flush_call, hijack_call, perform, run,
}

perform_grows :
    (e : External) (c : Call) (s : World)
    → (more : List Sent) × ((perform (external e) c s).sent ≡ s.sent ++ more)
unfolding perform write write_header flush hijack
perform_grows e (write_call b) s = (body b ∷ [], refl)
perform_grows e (header_call code) s = (head code ∷ [], refl)
perform_grows e flush_call s = elim (Bool-cases e.flusher) [
  | inl can ↦ rw can (flushed ∷ [], refl)
  | inr cannot ↦ rw cannot ([], sym (append-nil s.sent))
]
perform_grows e hijack_call s = elim (Option-cases e.hijacker) [
  | inl without ↦ rw without ([], sym (append-nil s.sent))
  | inr (answer, with) ↦ rw with (hijacked ∷ [], refl)
]

pub run_grows :
    (e : External) (cs : List Call) (s : World)
    → (more : List Sent) × ((run (external e) cs s).sent ≡ s.sent ++ more)
unfolding run
run_grows e [] s = ([], sym (append-nil s.sent))
run_grows e (c ∷ cs) s =
    let (first, one) = perform_grows e c s in
    let (rest, others) = run_grows e cs (perform (external e) c s) in
    (first ++ rest, others ∙ ap (λ sent. sent ++ rest) one ∙ append_assoc s.sent first rest)
