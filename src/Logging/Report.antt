-- ===== src/Logging/Report.antt =====
-- What the logger that `MakeLogger` puts round another writer reports after a handler's calls.
use golang_service.Prelude.{
  ◌≡◌, refl, ap, ◌∙◌, ◌≢◌, List, [], ◌∷◌, ◌++◌, none, length, length-append, All, arith,
}
use golang_service.Prelude.Int.{ℤ, pos, ◌<ℤ◌, zero_plus}
use golang_service.Go.Int64.{two63}
use golang_service.Http.{External, Writer, external, World, Counter}
use golang_service.Logging.Calls.{
  counter_at, wrap_writer, make_logger, status_of, size_of, allocate,
}
use golang_service.Logging.Wrapping.{
  Call, header_call, run, counter_at-append, status_of-wrap_writer,
}
use golang_service.Logging.Trace.{
  counts, run_wrapped, counts-implied, counts_last_header, counts-written, NotHeader, implied,
  written, IsCounting,
}

abbrev pub unused : Counter
unused = record { status = pos 0; size = pos 0 }

-- Writers of other code that do not count by themselves get a logger of their own.
pub make_logger_new :
    (e : External) (s : World)
    → e.logging ≡ none
    → make_logger (external e) s ≡ (wrap_writer (length s.counters) (external e), allocate s)
unfolding make_logger
make_logger_new e s other = ground arith

module _ (e : External) (s : World) (cs : List Call) where
  abbrev pub logger : Writer
  logger = wrap_writer (length s.counters) (external e)

  abbrev pub after : World
  after = run logger cs (allocate s)

  pub run_logger :
      (counter_at after.counters (length s.counters) ≡ counts e s cs unused)
      × (after.sent ≡ (run (external e) cs s).sent)
  run_logger =
      let (counted, sent) =
        run_wrapped (length s.counters) e cs (allocate s) s
          (omega (arith, length-append s.counters (unused ∷ []))) refl in
      (counted ∙ ap (counts e s cs) (counter_at-append s.counters unused), sent)

module _ (e : External) (s : World) (other : e.logging ≡ none) where
  -- What the logger reports is what the calls add up to.
  pub make_logger-counts :
      (cs : List Call)
      → let (l, s') = make_logger (external e) s in
        (status_of l (run l cs s') ≡ (counts e s cs unused).status)
        × (size_of l (run l cs s') ≡ (counts e s cs unused).size)
  make_logger-counts cs =
      let reports = status_of-wrap_writer (length s.counters) e (after e s cs) in
      let counted = (run_logger e s cs).0 in
      rw (make_logger_new e s other) (
        reports.0 ∙ ap (λ (c : Counter). c.status) counted,
        reports.1 ∙ ap (λ (c : Counter). c.size) counted,
      )

  module _ (cs : List Call) where
    -- Through the logger that `MakeLogger` puts round a writer that does not count by itself, the
    -- server's writer is asked for exactly what the handler's calls would have asked it for.
    pub make_logger_transparent :
        let (l, s') = make_logger (external e) s in
        (run l cs s').sent ≡ (run (external e) cs s).sent
    make_logger_transparent = rw (make_logger_new e s other) ((run_logger e s cs).1)

    -- Round a writer that does not count by itself, where no call is a `WriteHeader`, the status is
    -- 200 after a write and 101 after a successful hijacking, by what came first, and zero if there
    -- was neither.
    pub status_of-make_logger-implied :
        All NotHeader cs
        → let (l, s') = make_logger (external e) s in status_of l (run l cs s') ≡ implied e s cs
    status_of-make_logger-implied h =
        (make_logger-counts cs).0 ∙ counts-implied e s cs unused h refl

    -- Round a writer that does not count by itself, the size is the sum of the numbers of bytes
    -- that the writes of the server's writer returned, if none is negative and the sum stays below
    -- 2^63.
    pub size_of-make_logger :
        IsCounting e
        → written e s cs <ℤ pos two63
        → let (l, s') = make_logger (external e) s in size_of l (run l cs s') ≡ written e s cs
    size_of-make_logger h b =
        (make_logger-counts cs).1
        ∙ counts-written e s cs unused h (omega arith) (rw (zero_plus (written e s cs)) b)
        ∙ zero_plus (written e s cs)

  -- Round a writer that does not count by itself, the status is the code of the last
  -- `WriteHeader`, if that is not zero, whatever was called
  -- before and whichever other methods after it.
  pub status_of-make_logger_last :
      (before later : List Call) (code : ℤ)
      → All NotHeader later
      → code ≢ pos 0
      → let (l, s') = make_logger (external e) s in
        status_of l (run l (before ++ header_call code ∷ later) s') ≡ code
  status_of-make_logger_last before later code h n =
      let cs = before ++ header_call code ∷ later in
      (make_logger-counts cs).0 ∙ counts_last_header e s before later code unused h n
