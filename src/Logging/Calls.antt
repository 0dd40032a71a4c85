-- ===== src/Logging/Calls.antt =====
-- handlers/request_logger.go: `MakeLogger`, and the methods of the writers that it makes.
use golang_service.Prelude.{
  ℕ, suc, zero, Bool, true, false, String, List, [], ◌∷◌, ◌++◌, Option, none, some, length,
  if◌then◌else◌,
}
use golang_service.Prelude.Int.{ℤ, pos, eqb_ℤ}
use golang_service.Go.Int64.{add_int}
use golang_service.Errors.{Error}
use golang_service.Http.{
  External, Writer, external, response_logger, hijack_logger, close_notify_writer,
  hijack_close_notifier, World, Counter, Sent, body, head, flushed, hijacked,
}

-- the places of the world's `responseLogger`s
unfoldable pub counter_at : List Counter → ℕ → Counter
counter_at [] p = record { status = pos 0; size = pos 0 }
counter_at (c ∷ cs) zero = c
counter_at (c ∷ cs) (suc p) = counter_at cs p

unfoldable pub set_counter : List Counter → ℕ → Counter → List Counter
set_counter [] p c = []
set_counter (d ∷ cs) zero c = c ∷ cs
set_counter (d ∷ cs) (suc p) c = d ∷ set_counter cs p c

abbrev pub store : ℕ → Counter → World → World
store p c s = record s { counters = set_counter s.counters p c }

abbrev pub send : Sent → World → World
send e s = record s { sent = s.sent ++ e ∷ [] }

-- Which interfaces a writer implements; an embedded interface value lends its methods.
unfoldable pub is_flusher : Writer → Bool
is_flusher (external e) = e.flusher
is_flusher _ = true

unfoldable pub is_hijacker : Writer → Bool
is_hijacker (external e) = elim e.hijacker [ none ↦ false | some answer ↦ true ]
is_hijacker (response_logger p w) = false
is_hijacker (hijack_logger p w) = true
is_hijacker (close_notify_writer l c) = false
is_hijacker (hijack_close_notifier l h c) = true

unfoldable pub is_close_notifier : Writer → Bool
is_close_notifier (external e) = e.close_notifier
is_close_notifier (response_logger p w) = false
is_close_notifier (hijack_logger p w) = false
is_close_notifier (close_notify_writer l c) = true
is_close_notifier (hijack_close_notifier l h c) = true

-- `LoggingResponseWriter`: `Flush`, `Status` and `Size`
unfoldable pub is_logging : Writer → Bool
is_logging (external e) = elim e.logging [ none ↦ false | some counts ↦ e.flusher ]
is_logging _ = true

-- `Status`, `Size`; a writer of other code without these methods is never asked
unfoldable pub status_of : Writer → World → ℤ
status_of (external e) s = elim e.logging [ none ↦ pos 0 | some counts ↦ (counts s.sent).0 ]
status_of (response_logger p w) s = (counter_at s.counters p).status
status_of (hijack_logger p w) s = (counter_at s.counters p).status
status_of (close_notify_writer l c) s = status_of l s
status_of (hijack_close_notifier l h c) s = status_of l s

unfoldable pub size_of : Writer → World → ℤ
size_of (external e) s = elim e.logging [ none ↦ pos 0 | some counts ↦ (counts s.sent).1 ]
size_of (response_logger p w) s = (counter_at s.counters p).size
size_of (hijack_logger p w) s = (counter_at s.counters p).size
size_of (close_notify_writer l c) s = size_of l s
size_of (hijack_close_notifier l h c) s = size_of l s

-- `if l.status == 0 { l.status = … }`
unfoldable pub default_status : ℕ → ℤ → World → World
default_status p code s =
    let c = counter_at s.counters p in
    if eqb_ℤ c.status (pos 0) then store p (record c { status = code }) s else s

-- `l.size += size`
unfoldable pub add_size : ℕ → ℤ → World → World
add_size p n s = let c = counter_at s.counters p in store p (record c { size = add_int c.size n }) s

-- `l.status = s`
unfoldable pub put_status : ℕ → ℤ → World → World
put_status p code s = let c = counter_at s.counters p in store p (record c { status = code }) s

-- `Write`: the number of bytes written, and the error
unfoldable pub write : Writer → String → World → (ℤ × Option Error) × World
unfolding default_status add_size
write (external e) b s = (e.answer s.sent b, send (body b) s)
write (response_logger p w) b s =
    let (answer, s') = write w b (default_status p (pos 200) s) in (answer, add_size p answer.0 s')
write (hijack_logger p w) b s =
    let (answer, s') = write w b (default_status p (pos 200) s) in (answer, add_size p answer.0 s')
write (close_notify_writer l c) b s = write l b s
write (hijack_close_notifier l h c) b s = write l b s

-- `WriteHeader`
unfoldable pub write_header : Writer → ℤ → World → World
unfolding put_status
write_header (external e) code s = send (head code) s
write_header (response_logger p w) code s = put_status p code (write_header w code s)
write_header (hijack_logger p w) code s = put_status p code (write_header w code s)
write_header (close_notify_writer l c) code s = write_header l code s
write_header (hijack_close_notifier l h c) code s = write_header l code s

-- `Flush`, which does nothing where the writer below has no such method
unfoldable pub flush : Writer → World → World
flush (external e) s = if e.flusher then send flushed s else s
flush (response_logger p w) s = flush w s
flush (hijack_logger p w) s = flush w s
flush (close_notify_writer l c) s = flush l s
flush (hijack_close_notifier l h c) s = flush l s

-- `Hijack`: its error. A writer that is no `Hijacker` has no such method, and `none` stands for
-- the panic of the assertion `w.(http.Hijacker)`.
unfoldable pub hijack : Writer → World → Option (Option Error × World)
unfolding default_status
hijack (external e) s = elim e.hijacker [
  | none ↦ none
  | some answer ↦ some (answer s.sent, send hijacked s)
]
hijack (response_logger p w) s = none
hijack (hijack_logger p w) s = elim (hijack w s) [
  | none ↦ none
  | some (some err, s') ↦ some (some err, s')
  | some (none, s') ↦ some (none, default_status p (pos 101) s')
]
hijack (close_notify_writer l c) s = none
hijack (hijack_close_notifier l h c) s = hijack h s

-- `Header` hands on the header of the writer at the bottom.
unfoldable pub bottom : Writer → External
bottom (external e) = e
bottom (response_logger p w) = bottom w
bottom (hijack_logger p w) = bottom w
bottom (close_notify_writer l c) = bottom l
bottom (hijack_close_notifier l h c) = bottom l

-- `new(responseLogger)`: the address of the counter, with status and size zero
abbrev pub allocate : World → World
allocate s = record s { counters = s.counters ++ record { status = pos 0; size = pos 0 } ∷ [] }

-- `MakeLogger`, for a writer that is not yet a `LoggingResponseWriter`
unfoldable pub wrap_writer : ℕ → Writer → Writer
unfolding is_hijacker is_close_notifier
wrap_writer p w =
    let logger = if is_hijacker w then hijack_logger p w else response_logger p w in
    if is_close_notifier w
    then (if is_hijacker logger
        then hijack_close_notifier logger logger w
        else close_notify_writer logger w)
    else logger

unfoldable pub make_logger : Writer → World → Writer × World
unfolding wrap_writer is_logging
make_logger w s = if is_logging w then (w, s) else (wrap_writer (length s.counters) w, allocate s)
