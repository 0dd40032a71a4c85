-- ===== src/Logging/Concurrent/Tests.antt =====
-- Two requests beside each other.
use golang_service.Prelude.{◌≡◌, refl, [], ◌∷◌, ◌++◌, List}
use golang_service.Prelude.Int.{pos}
use golang_service.Http.{body, head}
use golang_service.Http.Fixtures.{recorder, rec, world}
use golang_service.Logging.Calls.{
  counter_at, set_counter, write, write_header, make_logger, status_of, size_of,
}
use golang_service.Logging.Wrapping.{header_call, write_call, run}
use golang_service.Logging.Concurrent.{Event, begins, calls, serve, calls_of}
use golang_service.Logging.Concurrent.Isolation.{idle, serve_isolated}

abbrev before : List Event
before = begins 0 recorder ∷ calls 0 (write_call "abc") ∷ []

abbrev later : List Event
later =
    calls 0 (header_call (pos 500))
    ∷ calls 1 (header_call (pos 404))
    ∷ calls 0 (write_call "def")
    ∷ calls 1 (write_call "ghi")
    ∷ []

both :
    let s = serve (before ++ begins 1 recorder ∷ later) (idle recorder world) in
    (status_of (s.request 0).writer s.world ≡ pos 500)
    × (status_of (s.request 1).writer s.world ≡ pos 404)
    × ((s.request 1).sent ≡ head (pos 404) ∷ body "ghi" ∷ [])
unfolding serve status_of counter_at write set_counter write_header
both = (refl, refl, refl)

serve_isolated_example :
    let s = serve (before ++ begins 1 recorder ∷ later) (idle recorder world) in
    let (l, w) = make_logger rec world in
    let alone = run l (calls_of 1 later) w in
    (status_of (s.request 1).writer s.world ≡ status_of l alone)
    × (size_of (s.request 1).writer s.world ≡ size_of l alone)
    × ((s.request 1).sent ≡ alone.sent)
serve_isolated_example =
    serve_isolated recorder recorder world before later 1 refl (tt, (tt, (tt, (tt, tt))))
