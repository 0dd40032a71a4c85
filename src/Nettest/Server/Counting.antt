-- ===== src/Nettest/Server/Counting.antt =====
-- What the `WaitGroup` counts: the goroutines that have not yet reached their end.
use golang_service.Prelude.{
  ℕ, suc, ◌≡◌, ◌≢◌, refl, sym, ap, subst, ◌∙◌, ◌+◌, ◌<◌, ◌==◌, true, false, Bool-cases, inl, inr,
  String, List, [], ◌∷◌, Option, none, some, arith, if◌then◌else◌,
}
use golang_service.Prelude.Family.{update, update_self, total, total-update, total-update_above}
use golang_service.Nettest.Server.{
  Place, testing, reading, sending, closing, leaving, finished, Connection, connect, next_place,
  advance, is_leaving, moved, Acceptor, accepting, accepted, added, returning, returned, Server,
  wg_done, turn, Step, accept, accept_fails, add, spawn, leave, work, Reach, start, later,
}

-- An `Add(1)` that is not yet matched by a goroutine counts too.
abbrev pub acceptor_alive : Acceptor → ℕ
acceptor_alive accepting = 1
acceptor_alive (accepted script) = 1
acceptor_alive (added script) = 2
acceptor_alive returning = 1
acceptor_alive returned = 0

abbrev pub place_alive : Place → ℕ
place_alive finished = 0
place_alive place = 1

abbrev pub alive : Connection → ℕ
alive c = place_alive c.place

pub record Counted (s : Server) : Type 0 where
  pub counted : s.wg ≡ acceptor_alive s.acceptor + total alive s.count s.connection
  pub sound : s.crashed ≡ false

alive-next_place :
    (p : Place) (left : List (Option String))
    → p ≢ finished
    → is_leaving p ≡ false
    → (place_alive p ≡ 1) × (place_alive (next_place p left) ≡ 1)
unfolding next_place is_leaving
alive-next_place (testing ct) left n e = (refl, ground arith)
alive-next_place (reading ct) [] n e = (refl, refl)
alive-next_place (reading ct) (none ∷ left) n e = (refl, refl)
alive-next_place (reading ct) (some s ∷ left) n e = (refl, refl)
alive-next_place (sending ct s) left n e = (refl, refl)
alive-next_place closing left n e = (refl, refl)
alive-next_place leaving left n e = (refl, cc)
alive-next_place finished left n e = absurd (n refl)

pub is_leaving_iff : (p : Place) → is_leaving p ≡ true → p ≡ leaving
unfolding is_leaving
is_leaving_iff leaving e = refl
is_leaving_iff (testing ct) e = cc
is_leaving_iff (reading ct) e = cc
is_leaving_iff (sending ct s) e = cc
is_leaving_iff closing e = cc
is_leaving_iff finished e = cc

wg_done-Counted :
    (s : Server) (n : ℕ)
    → s.wg ≡ n + 1
    → s.crashed ≡ false
    → n ≡ acceptor_alive s.acceptor + total alive s.count s.connection
    → Counted (wg_done s)
unfolding wg_done
wg_done-Counted s n e sound h =
    let some_left : (s.wg == 0) ≡ false = ground arith in
    rw some_left (record { counted = omega arith; sound = sound })

last_step : (left : List (Option String)) → place_alive (next_place leaving left) ≡ 0
unfolding next_place
last_step left = refl

total-spawn :
    (n : ℕ) (fam : ℕ → Connection) (script : List (Option String))
    → total alive (n + 1) (update fam n (connect script)) ≡ 1 + total alive n fam
unfolding total
total-spawn n fam script =
    let more : n + 1 ≡ suc n = omega arith in
    rw more (
      rw (update_self fam n (connect script))
        (ap (λ t. 1 + t) (total-update_above alive n n fam (connect script) (omega arith))))

-- The sum of the goroutines of connections goes down by one exactly with a last step.
total-moved :
    (i : ℕ) (s : Server)
    → i < s.count
    → (s.connection i).place ≢ finished
    → total alive s.count s.connection
      ≡ total alive s.count (moved i s).connection
        + (if is_leaving (s.connection i).place then 1 else 0)
unfolding moved advance
total-moved i s lt n =
    let c = s.connection i in
    let sum = total-update alive s.count i s.connection (advance c) lt in
    elim (Bool-cases (is_leaving c.place)) [
      | inl e ↦
          let now = ap place_alive (is_leaving_iff c.place e) in
          let then_none = ap (λ p. place_alive (next_place p c.left)) (is_leaving_iff c.place e) in
          rw e (omega (arith, sum, now, then_none, last_step c.left))
      | inr e ↦
          let (now, after) = alive-next_place c.place c.left n e in
          rw e (omega (arith, sum, now, after))
    ]

turn-Counted :
    (i : ℕ) (s : Server)
    → i < s.count
    → (s.connection i).place ≢ finished
    → Counted s
    → Counted (turn i s)
unfolding turn moved
turn-Counted i s lt n h = elim (Bool-cases (is_leaving (s.connection i).place)) [
  | inl e ↦
      let sum : total alive s.count s.connection ≡ total alive s.count (moved i s).connection + 1 =
        total-moved i s lt n ∙ rw e refl in
      rw e (
        wg_done-Counted (moved i s)
          (acceptor_alive s.acceptor + total alive s.count (moved i s).connection)
          (omega (arith, h.counted, sum)) h.sound refl)
  | inr e ↦
      let sum : total alive s.count s.connection ≡ total alive s.count (moved i s).connection + 0 =
        total-moved i s lt n ∙ rw e refl in
      rw e (record { counted = omega (arith, h.counted, sum); sound = h.sound })
]

Step-Counted : {s t : Server} → Step s t → Counted s → Counted t
Step-Counted {s} (accept script e q) h =
    subst Counted (sym q)
      (record { counted = omega (arith, h.counted, ap acceptor_alive e); sound = h.sound })
Step-Counted {s} (accept_fails e q) h =
    subst Counted (sym q)
      (record { counted = omega (arith, h.counted, ap acceptor_alive e); sound = h.sound })
Step-Counted {s} (add script e q) h =
    subst Counted (sym q)
      (record { counted = omega (arith, h.counted, ap acceptor_alive e); sound = h.sound })
Step-Counted {s} (spawn script e q) h = subst Counted (sym q) (record {
  counted = omega (arith, h.counted, ap acceptor_alive e, total-spawn s.count s.connection script);
  sound = h.sound;
})
Step-Counted {s} (leave e q) h = subst Counted (sym q) (
    wg_done-Counted (record s { acceptor = returned }) (total alive s.count s.connection)
      (omega (arith, h.counted, ap acceptor_alive e)) h.sound (omega arith))
Step-Counted {s} (work i lt n q) h = subst Counted (sym q) (turn-Counted i s lt n h)

-- The counter is the number of goroutines that run, an `Add(1)` before its goroutine included, and
-- `Done` never finds it at zero.
pub Reach-Counted : {s : Server} → Reach s → Counted s
unfolding total
Reach-Counted start = record { counted = omega arith; sound = refl }
Reach-Counted (later r st) = Step-Counted st (Reach-Counted r)
