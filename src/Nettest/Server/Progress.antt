-- ===== src/Nettest/Server/Progress.antt =====
-- Until the counter is at zero, some goroutine of a stream server can go on.
use golang_service.Prelude.{◌≡◌, ◌≢◌, refl, ap, ◌+◌, ◌<◌, ◌⊎◌, ◌==◌, Bool-cases, inl, inr, arith}
use golang_service.Prelude.Family.{total, total-positive}
use golang_service.Nettest.Server.{
  Place, finished, Acceptor, accepting, accepted, added, returning, returned, Server, turn, Step,
  accept, accept_fails, add, spawn, leave, work, Reach,
}
use golang_service.Nettest.Server.Counting.{
  place_alive, alive, acceptor_alive, Counted, Reach-Counted,
}
use golang_service.Nettest.Server.Delivery.{all_finished}

abbrev pub CanStep : Server → Type 0
CanStep s = (t : Server) × Step s t

alive-running : (p : Place) → 0 < place_alive p → p ≢ finished
alive-running p h e = omega (arith, ap place_alive e)

by_connection : (s : Server) → 0 < total alive s.count s.connection → CanStep s
by_connection s h =
    let (i, lt, running) = total-positive alive s.count s.connection h in
    (turn i s, work i lt (alive-running (s.connection i).place running) refl)

by_acceptor :
    (s : Server) (a : Acceptor)
    → s.acceptor ≡ a
    → 0 < acceptor_alive a + total alive s.count s.connection
    → CanStep s
by_acceptor s accepting e h = (_, accept_fails e refl)
by_acceptor s (accepted script) e h = (_, add script e refl)
by_acceptor s (added script) e h = (_, spawn script e refl)
by_acceptor s returning e h = (_, leave e refl)
by_acceptor s returned e h = by_connection s (omega arith)

stuck : {s t : Server} → Counted s → s.wg ≡ 0 → ¬ Step s t
stuck {s} c z (accept script e q) = absurd (omega (arith, c.counted, ap acceptor_alive e))
stuck {s} c z (accept_fails e q) = absurd (omega (arith, c.counted, ap acceptor_alive e))
stuck {s} c z (add script e q) = absurd (omega (arith, c.counted, ap acceptor_alive e))
stuck {s} c z (spawn script e q) = absurd (omega (arith, c.counted, ap acceptor_alive e))
stuck {s} c z (leave e q) = absurd (omega (arith, c.counted, ap acceptor_alive e))
stuck {s} c z (work i lt n q) = n (all_finished c z i lt)

-- In each state that a stream server can reach, either the counter is above zero and some goroutine
-- can go on (once `Accept`, `ReadString` or the receiver answers), or the counter is at zero, so
-- that `wg.Wait()` returns, and no goroutine ever moves again.
pub wait_or_step : {s : Server} → Reach s → ((0 < s.wg) × CanStep s) ⊎ ((s.wg ≡ 0) × (¬ CanStep s))
wait_or_step {s} r =
    let c = Reach-Counted r in
    elim (Bool-cases (s.wg == 0)) [
      | inl e ↦ let z : s.wg ≡ 0 = ground arith in inr (z, λ (t, st). stuck c z st)
      | inr e ↦
          let pos : 0 < s.wg = ground arith in
          inl (pos, by_acceptor s s.acceptor refl (omega (arith, c.counted)))
    ]
