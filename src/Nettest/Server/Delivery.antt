-- ===== src/Nettest/Server/Delivery.antt =====
-- What each connection of a stream server delivers, whatever the other goroutines do meanwhile.
use mathlib.Core.List.{append_assoc, append-nil}
use golang_service.Prelude.{
  ℕ, ◌≡◌, ◌≢◌, refl, sym, ap, subst, ◌∙◌, ◌+◌, ◌<◌, ◌≤◌, ◌%◌, ◌==◌, true, false, Bool-cases, inl,
  inr, String, List, [], ◌∷◌, ◌++◌, Option, none, some, arith, take, if◌then◌else◌,
}
use golang_service.Prelude.Family.{update, update_self, update_other, le-total}
use golang_service.Nettest.{read_lines, read_connection, before_error, read_connection_lem}
use golang_service.Nettest.Server.{
  Place, testing, reading, sending, closing, leaving, finished, Connection, connect, next_place,
  next_left, advance, sent_from, is_leaving, moved, tag, returned, Server, wg_done, turn, Step,
  accept, accept_fails, add, spawn, leave, work, Reach, start, later,
}
use golang_service.Nettest.Server.Counting.{place_alive, alive, Counted, Reach-Counted}

-- the lines of one connection, in the order in which they were received
unfoldable pub from : ℕ → List (ℕ × String) → List String
from i [] = []
from i ((j, line) ∷ log) = let rest = from i log in if j == i then line ∷ rest else rest

-- the lines that the loop still has to send
abbrev after_read : ℕ → List (Option String) → List String
after_read ct (some s ∷ left) = s ∷ read_lines (ct + 1) left
after_read ct left = []

unfoldable pub remaining : Place → List (Option String) → List String
remaining (testing ct) left = read_lines ct left
remaining (reading ct) left = after_read ct left
remaining (sending ct s) left = s ∷ read_lines (ct + 1) left
remaining place left = []

remaining-testing :
    (ct : ℕ) (left : List (Option String))
    → remaining (if ct % 8 == 0 then closing else reading ct) left ≡ read_lines ct left
unfolding remaining read_lines
remaining-testing ct [] = ground arith
remaining-testing ct (none ∷ left) = ground arith
remaining-testing ct (some s ∷ left) = ground arith

remaining-step :
    (p : Place) (left : List (Option String))
    → sent_from p ++ remaining (next_place p left) (next_left p left) ≡ remaining p left
unfolding remaining next_place next_left sent_from
remaining-step (testing ct) left = remaining-testing ct left
remaining-step (reading ct) [] = refl
remaining-step (reading ct) (none ∷ left) = refl
remaining-step (reading ct) (some s ∷ left) = refl
remaining-step (sending ct s) left = refl
remaining-step closing left = refl
remaining-step leaving left = refl
remaining-step finished left = refl

from-append : (i : ℕ) (xs ys : List (ℕ × String)) → from i (xs ++ ys) ≡ from i xs ++ from i ys
unfolding from
from-append i [] ys = refl
from-append i ((j, line) ∷ xs) ys = elim (Bool-cases (j == i)) [
  | inl e ↦ rw e (ap (λ r. line ∷ r) (from-append i xs ys))
  | inr e ↦ rw e (from-append i xs ys)
]

from-tag_self : (i : ℕ) (lines : List String) → from i (tag i lines) ≡ lines
unfolding from
from-tag_self i [] = refl
from-tag_self i (line ∷ lines) =
    let same : (i == i) ≡ true = ground arith in
    rw same (ap (λ r. line ∷ r) (from-tag_self i lines))

from-tag_other : (i j : ℕ) (lines : List String) → j ≢ i → from i (tag j lines) ≡ []
unfolding from
from-tag_other i j [] n = refl
from-tag_other i j (line ∷ lines) n =
    let other : (j == i) ≡ false = ground arith in rw other (from-tag_other i j lines n)

-- What was received from a connection and what it still has to send make up what one reader alone
-- would read; nothing came from a connection that is not there.
pub record Delivered (n : ℕ) (fam : ℕ → Connection) (log : List (ℕ × String)) : Type 0 where
  pub owed :
      (i : ℕ)
      → i < n
      → from i log ++ remaining (fam i).place (fam i).left ≡ read_connection (fam i).script
  pub none_yet : (i : ℕ) → n ≤ i → from i log ≡ []

abbrev pub OfServer : Server → Type 0
OfServer s = Delivered s.count s.connection s.received

moved-OfServer : (i : ℕ) (s : Server) → i < s.count → OfServer s → OfServer (moved i s)
unfolding moved advance
moved-OfServer i s lt h = record { owed = owed; none_yet = none_yet }
  where
    lines : List String
    lines = sent_from (s.connection i).place

    others : (k : ℕ) → i ≢ k → from k (s.received ++ tag i lines) ≡ from k s.received
    others k n =
        from-append k s.received (tag i lines)
        ∙ ap (λ r. from k s.received ++ r) (from-tag_other k i lines n)
        ∙ append-nil (from k s.received)

    self :
        from i (s.received ++ tag i lines)
          ++ remaining
              (next_place (s.connection i).place (s.connection i).left)
              (next_left (s.connection i).place (s.connection i).left)
        ≡ read_connection (s.connection i).script
    self =
        ap
          (λ r.
            r
            ++ remaining (next_place (s.connection i).place (s.connection i).left)
                (next_left (s.connection i).place (s.connection i).left))
          (from-append i s.received (tag i lines)
            ∙ ap (λ r. from i s.received ++ r) (from-tag_self i lines))
        ∙ append_assoc (from i s.received) lines (
            remaining (next_place (s.connection i).place (s.connection i).left)
              (next_left (s.connection i).place (s.connection i).left))
        ∙ ap (λ r. from i s.received ++ r)
            (remaining-step (s.connection i).place (s.connection i).left)
        ∙ h.owed i lt

    owed :
        (k : ℕ)
        → k < s.count
        → let c = update s.connection i (advance (s.connection i)) k in
          from k (s.received ++ tag i lines) ++ remaining c.place c.left ≡ read_connection c.script
    owed k kt = elim (Bool-cases (i == k)) [
      | inl e ↦
          let same : i ≡ k = ground arith in
          subst
            (λ k.
              let c = update s.connection i (advance (s.connection i)) k in
              from k (s.received ++ tag i lines) ++ remaining c.place c.left
              ≡ read_connection c.script)
            same (rw (update_self s.connection i (advance (s.connection i))) self)
      | inr e ↦
          let n : i ≢ k = ground arith in
          rw (update_other s.connection i k (advance (s.connection i)) n)
            (rw (others k n) (h.owed k kt))
    ]

    none_yet : (k : ℕ) → s.count ≤ k → from k (s.received ++ tag i lines) ≡ []
    none_yet k le = others k (omega arith) ∙ h.none_yet k le

-- `wg.Done()` changes nothing that was sent.
wg_done-OfServer : (s : Server) → OfServer s → OfServer (wg_done s)
unfolding wg_done
wg_done-OfServer s h = elim (Bool-cases (s.wg == 0)) [ inl e ↦ rw e h | inr e ↦ rw e h ]

turn-OfServer : (i : ℕ) (s : Server) → i < s.count → OfServer s → OfServer (turn i s)
unfolding turn
turn-OfServer i s lt h = elim (Bool-cases (is_leaving (s.connection i).place)) [
  | inl e ↦ rw e (wg_done-OfServer (moved i s) (moved-OfServer i s lt h))
  | inr e ↦ rw e (moved-OfServer i s lt h)
]

spawn-Delivered :
    (n : ℕ) (fam : ℕ → Connection) (log : List (ℕ × String)) (script : List (Option String))
    → Delivered n fam log
    → Delivered (n + 1) (update fam n (connect script)) log
unfolding read_connection remaining
spawn-Delivered n fam log script h = record {
  owed = λ i lt. elim (Bool-cases (n == i)) [
    | inl e ↦
        let same : n ≡ i = ground arith in
        subst
          (λ i.
            let c = update fam n (connect script) i in
            from i log ++ remaining c.place c.left ≡ read_connection c.script)
          same (rw (update_self fam n (connect script)) (rw (h.none_yet n (omega arith)) refl))
    | inr e ↦
        let other : n ≢ i = ground arith in
        rw (update_other fam n i (connect script) other) (h.owed i (omega arith))
  ];
  none_yet = λ i le. h.none_yet i (omega arith);
}

Step-OfServer : {s t : Server} → Step s t → OfServer s → OfServer t
Step-OfServer (accept script e q) h = subst OfServer (sym q) h
Step-OfServer (accept_fails e q) h = subst OfServer (sym q) h
Step-OfServer (add script e q) h = subst OfServer (sym q) h
Step-OfServer {s} (spawn script e q) h =
    subst OfServer (sym q) (spawn-Delivered s.count s.connection s.received script h)
Step-OfServer {s} (leave e q) h =
    subst OfServer (sym q) (wg_done-OfServer (record s { acceptor = returned }) h)
Step-OfServer {s} (work i lt n q) h = subst OfServer (sym q) (turn-OfServer i s lt h)

Reach-OfServer : {s : Server} → Reach s → OfServer s
unfolding from
Reach-OfServer start = record { owed = λ i lt. elim lt [ ]; none_yet = λ i le. refl }
Reach-OfServer (later r st) = Step-OfServer st (Reach-OfServer r)

alive-finished : (p : Place) → place_alive p ≡ 0 → p ≡ finished
alive-finished finished e = refl
alive-finished (testing ct) e = cc
alive-finished (reading ct) e = cc
alive-finished (sending ct s) e = cc
alive-finished closing e = cc
alive-finished leaving e = cc

pub all_finished :
    {s : Server} → Counted s → s.wg ≡ 0 → (i : ℕ) → i < s.count → (s.connection i).place ≡ finished
all_finished {s} c z i lt =
    alive-finished (s.connection i).place
      (omega (arith, c.counted, le-total alive s.count i s.connection lt))

-- What `wg.Wait()` promises, under every interleaving: once the counter is at zero, the lines that
-- were received from a connection are the first seven of those before its first error, in their
-- order.
pub wait-delivers :
    {s : Server}
    → Reach s
    → s.wg ≡ 0
    → (i : ℕ) → i < s.count
    → from i s.received ≡ take 7 (before_error (s.connection i).script)
unfolding remaining
wait-delivers {s} r z i lt =
    let c = s.connection i in
    let over = ap (λ p. remaining p c.left) (all_finished (Reach-Counted r) z i lt) in
    sym (append-nil (from i s.received))
    ∙ ap (λ m. from i s.received ++ m) (sym over)
    ∙ (Reach-OfServer r).owed i lt
    ∙ read_connection_lem c.script
