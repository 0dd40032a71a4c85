-- ===== src/Logging/Counts/Performed.antt =====
-- handlers/request_logger.go: what each method of a logging writer counts and passes on.
use golang_service.Prelude.{
  ℕ, ◌≡◌, refl, sym, ◌∙◌, ◌<◌, Bool-cases, Option-cases, inl, inr, subst, String, List, Option,
  none, some, length, arith,
}
use golang_service.Prelude.Int.{ℤ, pos}
use golang_service.Errors.{Error}
use golang_service.Http.{External, external, World, Sent, body, head, hijacked}
use golang_service.Logging.Calls.{
  is_hijacker, default_status, add_size, put_status, send, write, write_header, flush, hijack,
  wrap_writer,
}
use golang_service.Logging.Wrapping.{
  Call, write_call, header_call, flush_call, hijack_call, perform, core, perform-wrap_writer,
}
use golang_service.Logging.Counts.{Steps}
use golang_service.Logging.Counts.Puts.{default_status-Puts, put_status-Puts, add_size-Puts}

module _ (p : ℕ) (e : External) (s : World) (h : p < length s.counters) where
  abbrev defaulted : World
  defaulted = default_status p (pos 200) s

  write-Steps :
      (b : String)
      → Steps p e
          (write_call b)
          s
          (add_size p (e.answer defaulted.sent b).0 (send (body b) defaulted))
  unfolding write perform
  write-Steps b =
      let first = default_status-Puts p (pos 200) s h in
      let last =
        add_size-Puts p (e.answer defaulted.sent b).0 (send (body b) defaulted)
          (rw first.same_places h) in
      record {
        counted = last.at ∙ rw (first.at, first.same_sent);
        passed = last.same_sent ∙ rw first.same_sent;
        places = last.same_places ∙ first.same_places;
      }

  header-Steps :
      (code : ℤ) → Steps p e (header_call code) s (put_status p code (send (head code) s))
  unfolding write_header perform
  header-Steps code =
      let put = put_status-Puts p code (send (head code) s) h in
      record { counted = put.at; passed = put.same_sent; places = put.same_places }

  flush-Steps : Steps p e flush_call s (flush (external e) s)
  unfolding flush perform
  flush-Steps = elim (Bool-cases e.flusher) [
    | inl can ↦ rw can (record { counted = refl; passed = refl; places = refl })
    | inr cannot ↦ rw cannot (record { counted = refl; passed = refl; places = refl })
  ]

  idle-Steps : (e.hijacker ≡ none) → Steps p e hijack_call s s
  unfolding hijack perform
  idle-Steps without = record { counted = rw without; passed = rw without; places = refl }

  module _ (answer : List Sent → Option Error) (with : e.hijacker ≡ some answer) where
    refused-Steps :
        (err : Error) → answer s.sent ≡ some err → Steps p e hijack_call s (send hijacked s)
    unfolding hijack perform
    refused-Steps err refused = record {
      counted = rw (with, refused);
      passed = rw with;
      places = refl;
    }

    hijacked-Steps :
        answer s.sent ≡ none
        → Steps p e hijack_call s (default_status p (pos 101) (send hijacked s))
    unfolding hijack perform
    hijacked-Steps granted =
        let put = default_status-Puts p (pos 101) (send hijacked s) h in
        record {
          counted = put.at ∙ rw (with, granted);
          passed = put.same_sent ∙ rw with;
          places = put.same_places;
        }

  core-write :
      (b : String)
      → perform (core p e) (write_call b) s
        ≡ add_size p (e.answer defaulted.sent b).0 (send (body b) defaulted)
  unfolding perform write
  core-write b = elim (Bool-cases (is_hijacker (external e))) [
    | inl can ↦ rw can
    | inr cannot ↦ rw cannot
  ]

  core-header :
      (code : ℤ) → perform (core p e) (header_call code) s ≡ put_status p code (send (head code) s)
  unfolding perform write_header
  core-header code = elim (Bool-cases (is_hijacker (external e))) [
    | inl can ↦ rw can
    | inr cannot ↦ rw cannot
  ]

  core-flush : perform (core p e) flush_call s ≡ flush (external e) s
  unfolding perform flush
  core-flush = elim (Bool-cases (is_hijacker (external e))) [
    | inl can ↦ rw can
    | inr cannot ↦ rw cannot
  ]

  core-idle : e.hijacker ≡ none → perform (core p e) hijack_call s ≡ s
  unfolding perform hijack is_hijacker
  core-idle without = ground arith

  core-refused :
      (answer : List Sent → Option Error) (err : Error)
      → e.hijacker ≡ some answer
      → answer s.sent ≡ some err
      → perform (core p e) hijack_call s ≡ send hijacked s
  unfolding perform hijack is_hijacker
  core-refused answer err with refused = ground arith

  core-granted :
      (answer : List Sent → Option Error)
      → e.hijacker ≡ some answer
      → answer s.sent ≡ none
      → perform (core p e) hijack_call s ≡ default_status p (pos 101) (send hijacked s)
  unfolding perform hijack is_hijacker
  core-granted answer with granted = ground arith

  core_hijack-Steps : Steps p e hijack_call s (perform (core p e) hijack_call s)
  core_hijack-Steps = elim (Option-cases e.hijacker) [
    | inl without ↦ subst (Steps p e hijack_call s) (sym (core-idle without)) (idle-Steps without)
    | inr (answer, with) ↦ elim (Option-cases (answer s.sent)) [
      | inl granted ↦
          subst (Steps p e hijack_call s) (sym (core-granted answer with granted))
            (hijacked-Steps answer with granted)
      | inr (err, refused) ↦
          subst (Steps p e hijack_call s) (sym (core-refused answer err with refused))
            (refused-Steps answer with err refused)
    ]
  ]

  core-Steps : (c : Call) → Steps p e c s (perform (core p e) c s)
  core-Steps (write_call b) =
      subst (Steps p e (write_call b) s) (sym (core-write b)) (write-Steps b)
  core-Steps (header_call code) =
      subst (Steps p e (header_call code) s) (sym (core-header code)) (header-Steps code)
  core-Steps flush_call = subst (Steps p e flush_call s) (sym core-flush) flush-Steps
  core-Steps hijack_call = core_hijack-Steps

  pub wrapped-Steps : (c : Call) → Steps p e c s (perform (wrap_writer p (external e)) c s)
  wrapped-Steps c = rw (perform-wrap_writer p e c s) (core-Steps c)
