-- ===== src/Logging/Seen.antt =====
-- handlers/request_logger.go: the status that is reported beside the one that the client sees.
use golang_service.Prelude.{
  ℕ, zero, suc, Bool, true, false, ◌≡◌, ◌≢◌, ◌↔◌, refl, sym, ap, subst, ◌∙◌, Bool-cases, inl, inr,
  String, List, [], ◌∷◌, ◌++◌, none, All, arith,
}
use golang_service.Prelude.Int.{ℤ, pos, ◌≤ℤ◌}
use golang_service.Http.{External, external, World, Counter, Sent, body, head, flushed}
use golang_service.Logging.Calls.{make_logger, status_of, write, write_header, flush}
use golang_service.Logging.Wrapping.{
  Call, write_call, header_call, flush_call, hijack_call, perform, run,
}
use golang_service.Logging.Growing.{run_grows}
use golang_service.Logging.Counts.{count, lets_hijack}
use golang_service.Logging.Trace.{counts, or_status_set}
use golang_service.Logging.Report.{unused, make_logger_transparent, make_logger-counts}

-- What net/http documents of the status of a response, by what its writer was asked to do: the
-- first header is sent, and a write, a flush or the end of a handler without one sends 200.
pub record Responds (seen : List Sent → ℤ) : Type 0 where
  pub of_nothing : seen [] ≡ pos 200
  pub of_header : (code : ℤ) (rest : List Sent) → pos 200 ≤ℤ code → seen (head code ∷ rest) ≡ code
  pub of_body : (b : String) (rest : List Sent) → seen (body b ∷ rest) ≡ pos 200
  pub of_flush : (rest : List Sent) → seen (flushed ∷ rest) ≡ pos 200

-- A first call that answers the request, and the status that it answers with.
pub data Answers : Call → ℤ → Type 0 where
  by_header : (code : ℤ) → pos 200 ≤ℤ code → Answers (header_call code) code
  by_write : (b : String) → Answers (write_call b) (pos 200)

-- some flushes before other calls
abbrev pub flushes : ℕ → List Call → List Call
flushes zero cs = cs
flushes (suc n) cs = flush_call ∷ flushes n cs

-- What the client sees of an answer with a code after so many flushes, by whether the server's
-- writer is a `Flusher`.
abbrev pub after_flushes : ℕ → Bool → ℤ → ℤ
after_flushes zero flusher code = code
after_flushes (suc n) true code = pos 200
after_flushes (suc n) false code = code

unflushed : (n : ℕ) (code : ℤ) → after_flushes n false code ≡ code
unflushed zero code = refl
unflushed (suc n) code = refl

after_flushes_200 : (n : ℕ) (b : Bool) → after_flushes n b (pos 200) ≡ pos 200
after_flushes_200 zero b = refl
after_flushes_200 (suc n) true = refl
after_flushes_200 (suc n) false = refl

code_not_zero : (code : ℤ) → pos 200 ≤ℤ code → code ≢ pos 0
code_not_zero code valid z =
    let bad : pos 200 ≤ℤ pos 0 = subst (λ c. pos 200 ≤ℤ c) z valid in omega arith

-- the code of the last `WriteHeader`, and `code` where there is none
unfoldable pub last_header : ℤ → List Call → ℤ
last_header code [] = code
last_header code (header_call later ∷ cs) = last_header later cs
last_header code (write_call b ∷ cs) = last_header code cs
last_header code (flush_call ∷ cs) = last_header code cs
last_header code (hijack_call ∷ cs) = last_header code cs

abbrev pub IsCode : Call → Type 0
IsCode (header_call code) = code ≢ pos 0
IsCode _ = Unit

counts-last_header :
    (e : External) (t : World) (cs : List Call) (c : Counter)
    → All IsCode cs
    → c.status ≢ pos 0
    → (counts e t cs c).status ≡ last_header c.status cs
unfolding counts last_header
counts-last_header e t [] c h n = refl
counts-last_header e t (write_call b ∷ cs) c h n =
    let same = or_status_set c.status (pos 200) n in
    counts-last_header e (perform (external e) (write_call b) t) cs
      (count e t.sent (write_call b) c) h.1 (λ z. n (sym same ∙ z))
    ∙ ap (λ z. last_header z cs) same
counts-last_header e t (header_call code ∷ cs) c h n =
    counts-last_header e (perform (external e) (header_call code) t) cs (record c { status = code })
      h.1 h.0
counts-last_header e t (flush_call ∷ cs) c h n =
    counts-last_header e (perform (external e) flush_call t) cs c h.1 n
counts-last_header e t (hijack_call ∷ cs) c h n =
    let same : (count e t.sent hijack_call c).status ≡ c.status =
      elim (Bool-cases (lets_hijack e t.sent)) [
        | inl granted ↦ rw granted (or_status_set c.status (pos 101) n)
        | inr refused ↦ rw refused refl
      ] in
    counts-last_header e (perform (external e) hijack_call t) cs (count e t.sent hijack_call c) h.1
      (λ z. n (sym same ∙ z))
    ∙ ap (λ z. last_header z cs) same

counts-flushes :
    (e : External) (n : ℕ) (cs : List Call) (s : World)
    → (t : World) × (counts e s (flushes n cs) unused ≡ counts e t cs unused)
unfolding counts
counts-flushes e zero cs s = (s, refl)
counts-flushes e (suc n) cs s = counts-flushes e n cs (perform (external e) flush_call s)

first_call_counted :
    (e : External) (s : World) (first : Call) (code : ℤ) (rest : List Call)
    → Answers first code
    → All IsCode rest
    → (counts e s (first ∷ rest) unused).status ≡ last_header code rest
unfolding counts
first_call_counted e s _ _ rest (by_header code valid) h =
    counts-last_header e (perform (external e) (header_call code) s) rest
      (record unused { status = code }) h (code_not_zero code valid)
first_call_counted e s _ _ rest (by_write b) h =
    counts-last_header e (perform (external e) (write_call b) s) rest
      (count e s.sent (write_call b) unused) h (cc)

module _ (seen : List Sent → ℤ) (rules : Responds seen) (e : External) where
  pub first_call_seen :
      (s : World) (first : Call) (code : ℤ) (rest : List Call)
      → s.sent ≡ []
      → Answers first code
      → seen (run (external e) (first ∷ rest) s).sent ≡ code
  unfolding run perform write write_header
  first_call_seen s _ _ rest fresh (by_header code valid) =
      let (more, sent) = run_grows e rest (perform (external e) (header_call code) s) in
      ap seen (sent ∙ ap (λ x. (x ++ head code ∷ []) ++ more) fresh)
      ∙ rules.of_header code more valid
  first_call_seen s _ _ rest fresh (by_write b) =
      let (more, sent) = run_grows e rest (perform (external e) (write_call b) s) in
      ap seen (sent ∙ ap (λ x. (x ++ body b ∷ []) ++ more) fresh) ∙ rules.of_body b more

  pub flushes-seen :
      (n : ℕ) (cs : List Call) (s : World) (code : ℤ)
      → s.sent ≡ []
      → seen (run (external e) cs s).sent ≡ code
      → seen (run (external e) (flushes n cs) s).sent ≡ after_flushes n e.flusher code
  unfolding run perform flush
  flushes-seen zero cs s code fresh shown = shown
  flushes-seen (suc n) cs s code fresh shown = elim (Bool-cases e.flusher) [
    | inl can ↦
        let (more, sent) = run_grows e (flushes n cs) (perform (external e) flush_call s) in
        let first : (perform (external e) flush_call s).sent ≡ s.sent ++ flushed ∷ [] =
          rw can refl in
        ap seen (sent ∙ ap (λ x. x ++ more) (first ∙ ap (λ x. x ++ flushed ∷ []) fresh))
        ∙ rules.of_flush more
        ∙ sym (ap (λ b. after_flushes (suc n) b code) can)
    | inr cannot ↦
        let idle : perform (external e) flush_call s ≡ s = rw cannot refl in
        ap (λ t. seen (run (external e) (flushes n cs) t).sent) idle
        ∙ flushes-seen n cs s code fresh shown
        ∙ ap (λ b. after_flushes n b code) cannot
        ∙ unflushed n code
        ∙ sym (ap (λ b. after_flushes (suc n) b code) cannot)
  ]

module _ (seen : List Sent → ℤ) (rules : Responds seen) (e : External) (s : World)
    (other : e.logging ≡ none) (fresh : s.sent ≡ []) where
  -- Of a request whose handler first answers it, by a write or by `WriteHeader` with a code from
  -- 200 on, the status that is reported is the code of the last `WriteHeader`, if there is one,
  -- while the client sees that of the first answer, or 200 where the handler has flushed before it
  -- and the server's writer is a `Flusher`. So the two agree exactly if the last code is what the
  -- client sees. For a handler that does nothing but flush zero is reported, and the client sees
  -- 200. The server's writer is one that does not count by itself, and no code is zero.
  pub status_of-seen :
      (n : ℕ) (first : Call) (code : ℤ) (rest : List Call)
      → Answers first code
      → All IsCode rest
      → let (l, s') = make_logger (external e) s in
        let done = run l (flushes n (first ∷ rest)) s' in
        let idle = run l (flushes n []) s' in
        let shown = after_flushes n e.flusher code in
        (status_of l done ≡ last_header code rest)
        × (seen done.sent ≡ shown)
        × ((status_of l done ≡ seen done.sent) ↔ (last_header code rest ≡ shown))
        × (status_of l idle ≡ pos 0)
        × (seen idle.sent ≡ pos 200)
  unfolding run counts
  status_of-seen n first code rest answers h =
      let calls = flushes n (first ∷ rest) in
      let (t, skipped) = counts-flushes e n (first ∷ rest) s in
      let (t', still) = counts-flushes e n [] s in
      let status =
        (make_logger-counts e s other calls).0
        ∙ ap (λ c. c.status) skipped
        ∙ first_call_counted e t first code rest answers h in
      let sees =
        ap seen (make_logger_transparent e s other calls)
        ∙ flushes-seen seen rules e n (first ∷ rest) s code fresh
            (first_call_seen seen rules e s first code rest fresh answers) in
      (
        status,
        sees,
        (λ q. sym status ∙ q ∙ sees, λ q. status ∙ q ∙ sym sees),
        (make_logger-counts e s other (flushes n [])).0 ∙ ap (λ c. c.status) still,
        ap seen (make_logger_transparent e s other (flushes n []))
            ∙ flushes-seen seen rules e n [] s (pos 200) fresh (ap seen fresh ∙ rules.of_nothing)
            ∙ after_flushes_200 n e.flusher,
      )
