-- ===== src/Logging/Wrapping.antt =====
-- `MakeLogger` keeps what a writer can do, and what is done to the writer below.
use golang_service.Prelude.{
  ℕ, suc, ◌≡◌, refl, ap, ◌∙◌, true, false, Bool-cases, inl, inr, String, List, [], ◌∷◌, ◌++◌,
  Option, none, some, length, length-append, if◌then◌else◌, arith,
}
use golang_service.Prelude.Int.{ℤ, pos}
use golang_service.Errors.{Error}
use golang_service.Http.{
  External, Writer, external, response_logger, hijack_logger, close_notify_writer,
  hijack_close_notifier, World, Counter,
}
use golang_service.Logging.Calls.{
  is_flusher, is_hijacker, is_close_notifier, is_logging, bottom, wrap_writer, make_logger, write,
  write_header, flush, hijack, counter_at, allocate, status_of, size_of,
}

pub counter_at-append :
    (cs : List Counter) (c : Counter) → counter_at (cs ++ c ∷ []) (length cs) ≡ c
unfolding counter_at
counter_at-append [] c = refl
counter_at-append (d ∷ cs) c = counter_at-append cs c

length_snoc : (cs : List Counter) (c : Counter) → length (cs ++ c ∷ []) ≡ suc (length cs)
length_snoc cs c = omega (arith, length-append cs (c ∷ []))

-- What has become of a writer: it was a `LoggingResponseWriter` and comes back as it is, or it was
-- none, and the one new counter, at zero, is that of the logger round it.
pub data Wrapped (w : Writer) (s : World) (l : Writer) (s' : World) : Type 0 where
  unchanged : is_logging w ≡ true → l ≡ w → s' ≡ s → Wrapped w s l s'
  counted :
      is_logging w ≡ false
      → status_of l s' ≡ pos 0
      → size_of l s' ≡ pos 0
      → length s'.counters ≡ suc (length s.counters)
      → s'.sent ≡ s.sent
      → Wrapped w s l s'

pub status_of-wrap_writer :
    (p : ℕ) (e : External) (s : World)
    → (status_of (wrap_writer p (external e)) s ≡ (counter_at s.counters p).status)
      × (size_of (wrap_writer p (external e)) s ≡ (counter_at s.counters p).size)
unfolding wrap_writer status_of size_of
status_of-wrap_writer p e s = (ground arith, ground arith)

make_logger-Wrapped :
    (e : External) (s : World)
    → let (l, s') = make_logger (external e) s in Wrapped (external e) s l s'
unfolding make_logger
make_logger-Wrapped e s = elim (Bool-cases (is_logging (external e))) [
  | inl already ↦ rw already (unchanged already refl refl)
  | inr other ↦
      let p = length s.counters in
      let zero_counter : Counter = record { status = pos 0; size = pos 0 } in
      let new = counter_at-append s.counters zero_counter in
      let (status, size) = status_of-wrap_writer p e (allocate s) in
      rw other (
        counted other (status ∙ ap (λ (c : Counter). c.status) new)
          (size ∙ ap (λ (c : Counter). c.size) new) (length_snoc s.counters zero_counter) refl)
]

-- Whatever the writer, `MakeLogger` returns a `LoggingResponseWriter`, a `Flusher` among other
-- things, which is a `Hijacker` or a `CloseNotifier` exactly if the writer is, ends in the same
-- writer of other code, and is returned unchanged by `MakeLogger` in its turn. Any
-- `LoggingResponseWriter`, one of other code included, comes back unchanged, with nothing done.
-- Any other writer gets one new counter: the logger reports status and size zero, and the writer
-- has been asked for nothing.
pub make_logger-keeps :
    (w : Writer) (s : World)
    → let (l, s') = make_logger w s in
      (is_logging l ≡ true)
      × (is_flusher l ≡ true)
      × (is_hijacker l ≡ is_hijacker w)
      × (is_close_notifier l ≡ is_close_notifier w)
      × (bottom l ≡ bottom w)
      × (make_logger l s' ≡ (l, s'))
      × Wrapped w s l s'
unfolding make_logger bottom is_flusher
make_logger-keeps (external e) s = (
  ground arith,
  ground arith,
  ground arith,
  ground arith,
  ground arith,
  ground arith,
  make_logger-Wrapped e s,
)
make_logger-keeps (response_logger p w) s =
    (refl, refl, refl, refl, refl, refl, unchanged refl refl refl)
make_logger-keeps (hijack_logger p w) s =
    (refl, refl, refl, refl, refl, refl, unchanged refl refl refl)
make_logger-keeps (close_notify_writer l c) s =
    (refl, refl, refl, refl, refl, refl, unchanged refl refl refl)
make_logger-keeps (hijack_close_notifier l h c) s =
    (refl, refl, refl, refl, refl, refl, unchanged refl refl refl)

-- A call of a handler on its writer.
pub data Call : Type 0 where
  write_call : String → Call
  header_call : ℤ → Call
  flush_call hijack_call : Call

abbrev pub left_by : Option (Option Error × World) → World → World
left_by none s = s
left_by (some (err, s')) s = s'

-- The state after a call; `Hijack` is called only where it is there.
unfoldable pub perform : Writer → Call → World → World
perform w (write_call b) s = (write w b s).1
perform w (header_call code) s = write_header w code s
perform w flush_call s = flush w s
perform w hijack_call s = left_by (hijack w s) s

unfoldable pub run : Writer → List Call → World → World
run w [] s = s
run w (c ∷ cs) s = run w cs (perform w c s)

-- The logger that does the work inside the writers that `MakeLogger` makes.
abbrev pub core : ℕ → External → Writer
core p e =
    if is_hijacker (external e)
    then hijack_logger p (external e)
    else response_logger p (external e)

pub perform-wrap_writer :
    (p : ℕ) (e : External) (c : Call) (s : World)
    → perform (wrap_writer p (external e)) c s ≡ perform (core p e) c s
unfolding perform wrap_writer write write_header flush hijack
perform-wrap_writer p e (write_call b) s = ground arith
perform-wrap_writer p e (header_call code) s = ground arith
perform-wrap_writer p e flush_call s = ground arith
perform-wrap_writer p e hijack_call s = ground arith
