-- ===== src/Logging/Trace.antt =====
-- The counts of a logger after all the calls of a handler, stated without the logger.
use golang_service.Prelude.{
  ℕ, ◌≡◌, refl, sym, ap, String, ◌∙◌, ◌<◌, ◌≢◌, Bool-cases, inl, inr, List, [], ◌∷◌, ◌++◌, length,
  All, if◌then◌else◌, arith,
}
use golang_service.Prelude.Int.{ℤ, pos, ◌+ℤ◌, ◌≤ℤ◌, ◌<ℤ◌, +ℤ_parts, int_laws}
use golang_service.Go.Int64.{add_int, two63, wrap_of_IsInt64, IsInt64-of_bounds}
use golang_service.Http.{Sent, External, external, World, Counter}
use golang_service.Logging.Calls.{counter_at, wrap_writer}
use golang_service.Logging.Wrapping.{
  Call, write_call, header_call, flush_call, hijack_call, perform, run,
}
use golang_service.Logging.Counts.{count, lets_hijack, or_status, perform-sent}
use golang_service.Logging.Counts.Performed.{wrapped-Steps}

-- The calls made directly on the server's writer, from the world `t`, and what they add up to.
unfoldable pub counts : External → World → List Call → Counter → Counter
counts e t [] c = c
counts e t (x ∷ cs) c = counts e (perform (external e) x t) cs (count e t.sent x c)

pub run_wrapped :
    (p : ℕ) (e : External) (cs : List Call) (s t : World)
    → p < length s.counters
    → s.sent ≡ t.sent
    → let s' = run (wrap_writer p (external e)) cs s in
      (counter_at s'.counters p ≡ counts e t cs (counter_at s.counters p))
      × (s'.sent ≡ (run (external e) cs t).sent)
unfolding run counts
run_wrapped p e [] s t h same = (refl, same)
run_wrapped p e (x ∷ cs) s t h same =
    let step = wrapped-Steps p e s h x in
    let s' = perform (wrap_writer p (external e)) x s in
    let (later, sent) =
      run_wrapped p e cs s' (perform (external e) x t) (rw step.places h)
        (step.passed ∙ perform-sent e x s t same) in
    (later ∙ ap (counts e (perform (external e) x t) cs) (step.counted ∙ rw same), sent)

abbrev pub NotHeader : Call → Type 0
NotHeader (header_call code) = ⊥
NotHeader _ = Unit

-- The status that the calls imply where none of them sets one: that of the first write, or of the
-- first successful hijacking.
unfoldable pub implied : External → World → List Call → ℤ
implied e t [] = pos 0
implied e t (write_call b ∷ cs) = pos 200
implied e t (header_call code ∷ cs) = implied e (perform (external e) (header_call code) t) cs
implied e t (flush_call ∷ cs) = implied e (perform (external e) flush_call t) cs
implied e t (hijack_call ∷ cs) =
    let rest = implied e (perform (external e) hijack_call t) cs in
    if lets_hijack e t.sent then pos 101 else rest

-- The bytes that the server's writer reports as written.
unfoldable pub written : External → World → List Call → ℤ
written e t [] = pos 0
written e t (write_call b ∷ cs) =
    (e.answer t.sent b).0 +ℤ written e (perform (external e) (write_call b) t) cs
written e t (header_call code ∷ cs) = written e (perform (external e) (header_call code) t) cs
written e t (flush_call ∷ cs) = written e (perform (external e) flush_call t) cs
written e t (hijack_call ∷ cs) = written e (perform (external e) hijack_call t) cs

pub or_status_set : (z code : ℤ) → z ≢ pos 0 → or_status z code ≡ z
or_status_set z code n = ground arith

or_status_unset : (z code : ℤ) → z ≡ pos 0 → or_status z code ≡ code
or_status_unset z code h = ground arith

status_kept :
    (e : External) (t : World) (cs : List Call) (c : Counter)
    → All NotHeader cs
    → c.status ≢ pos 0
    → (counts e t cs c).status ≡ c.status
unfolding counts
status_kept e t [] c h n = refl
status_kept e t (write_call b ∷ cs) c h n =
    let same = or_status_set c.status (pos 200) n in
    status_kept e (perform (external e) (write_call b) t) cs (count e t.sent (write_call b) c) h.1
      (λ z. n (sym same ∙ z))
    ∙ same
status_kept e t (header_call code ∷ cs) c h n = absurd h.0
status_kept e t (flush_call ∷ cs) c h n =
    status_kept e (perform (external e) flush_call t) cs c h.1 n
status_kept e t (hijack_call ∷ cs) c h n =
    let same : (count e t.sent hijack_call c).status ≡ c.status =
      elim (Bool-cases (lets_hijack e t.sent)) [
        | inl granted ↦ rw granted (or_status_set c.status (pos 101) n)
        | inr refused ↦ rw refused
      ] in
    status_kept e (perform (external e) hijack_call t) cs (count e t.sent hijack_call c) h.1
      (λ z. n (sym same ∙ z))
    ∙ same

pub counts-implied :
    (e : External) (t : World) (cs : List Call) (c : Counter)
    → All NotHeader cs
    → c.status ≡ pos 0
    → (counts e t cs c).status ≡ implied e t cs
unfolding counts implied
counts-implied e t [] c h z = z
counts-implied e t (write_call b ∷ cs) c h z =
    let first = or_status_unset c.status (pos 200) z in
    status_kept e (perform (external e) (write_call b) t) cs (count e t.sent (write_call b) c) h.1
      (λ k. cc (first, k))
    ∙ first
counts-implied e t (header_call code ∷ cs) c h z = absurd h.0
counts-implied e t (flush_call ∷ cs) c h z =
    counts-implied e (perform (external e) flush_call t) cs c h.1 z
counts-implied e t (hijack_call ∷ cs) c h z =
    let t' = perform (external e) hijack_call t in
    let c' = count e t.sent hijack_call c in
    elim (Bool-cases (lets_hijack e t.sent)) [
      | inl granted ↦
          let set : c'.status ≡ pos 101 = rw granted (or_status_unset c.status (pos 101) z) in
          let says : implied e t (hijack_call ∷ cs) ≡ pos 101 = rw granted in
          status_kept e t' cs c' h.1 (λ k. cc (set, k)) ∙ set ∙ sym says
      | inr refused ↦
          let unset : c'.status ≡ pos 0 = rw refused z in
          let says : implied e t (hijack_call ∷ cs) ≡ implied e t' cs = rw refused in
          counts-implied e t' cs c' h.1 unset ∙ sym says
    ]

counts-append :
    (e : External) (t : World) (before after : List Call) (c : Counter)
    → counts e t (before ++ after) c
      ≡ counts e (run (external e) before t) after (counts e t before c)
unfolding counts run
counts-append e t [] after c = refl
counts-append e t (x ∷ before) after c =
    counts-append e (perform (external e) x t) before after (count e t.sent x c)

-- The status of a run that sets one last with `code`, and calls only other methods after that.
pub counts_last_header :
    (e : External) (t : World) (before after : List Call) (code : ℤ) (c : Counter)
    → All NotHeader after
    → code ≢ pos 0
    → (counts e t (before ++ header_call code ∷ after) c).status ≡ code
unfolding counts
counts_last_header e t before after code c h n =
    rw (counts-append e t before (header_call code ∷ after) c) (status_kept e _ after _ h n)

-- No write reports a negative number of bytes.
abbrev pub IsCounting : External → Type 0
IsCounting e = (sent : List Sent) (b : String) → pos 0 ≤ℤ (e.answer sent b).0

written_nonneg :
    (e : External) (t : World) (cs : List Call) → IsCounting e → pos 0 ≤ℤ written e t cs
unfolding written
written_nonneg e t [] h = omega arith
written_nonneg e t (write_call b ∷ cs) h =
    omega
      (arith, +ℤ_parts, h t.sent b, written_nonneg e (perform (external e) (write_call b) t) cs h)
written_nonneg e t (header_call code ∷ cs) h =
    written_nonneg e (perform (external e) (header_call code) t) cs h
written_nonneg e t (flush_call ∷ cs) h = written_nonneg e (perform (external e) flush_call t) cs h
written_nonneg e t (hijack_call ∷ cs) h = written_nonneg e (perform (external e) hijack_call t) cs h

-- Below 2^63 bytes the count does not wrap round.
pub counts-written :
    (e : External) (t : World) (cs : List Call) (c : Counter)
    → IsCounting e
    → pos 0 ≤ℤ c.size
    → c.size +ℤ written e t cs <ℤ pos two63
    → (counts e t cs c).size ≡ c.size +ℤ written e t cs
unfolding counts written
counts-written e t [] c h z b = omega int_laws
counts-written e t (write_call w ∷ cs) c h z b =
    let n = (e.answer t.sent w).0 in
    let rest = written_nonneg e (perform (external e) (write_call w) t) cs h in
    let given = h t.sent w in
    let exact : add_int c.size n ≡ c.size +ℤ n =
      wrap_of_IsInt64 (c.size +ℤ n) (IsInt64-of_bounds _ (omega int_laws) (omega int_laws)) in
    counts-written e (perform (external e) (write_call w) t) cs (count e t.sent (write_call w) c) h
      (rw exact (omega int_laws)) (rw exact (omega int_laws))
    ∙ rw exact (omega int_laws)
counts-written e t (header_call code ∷ cs) c h z b =
    counts-written e (perform (external e) (header_call code) t) cs (record c { status = code }) h z
      b
counts-written e t (flush_call ∷ cs) c h z b =
    counts-written e (perform (external e) flush_call t) cs c h z b
counts-written e t (hijack_call ∷ cs) c h z b =
    counts-written e (perform (external e) hijack_call t) cs (count e t.sent hijack_call c) h z b
