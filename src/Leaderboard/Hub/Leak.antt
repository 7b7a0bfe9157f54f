-- ===== src/Leaderboard/Hub/Leak.antt =====
-- A connection that ends before the hub of services/leaderboard-ws has registered it.
use obarena.Prelude.{
  ℕ, ◌<◌, ◌≡◌, ◌≢◌, refl, arith, String, true, List, [], ◌∷◌, ◌++◌, Option, none, some, inl, inr,
  some-cases, ap, update,
}
use obarena.Leaderboard.Hub.{
  Channel, Phase, absent, connected, gone, Hub, Event, connects, snapshot, writes, leaves,
  broadcast, takes_register, takes_unregister, takes_message, count, contains, remove, offer,
  try_send, close, set_send, fan_out, register, unregister, connect, leave, drop_first,
  take_register, take_unregister, take_message, act, client_of, step, run, new_hub,
}
use obarena.Leaderboard.Hub.Safety.{new_hub-IsSafe, run-IsSafe}

-- The client has left, and nothing on its way will unregister it.
record IsLeaked (c : ℕ) (h : Hub) : Type 0 where
  left : h.phase c ≡ gone
  registered : 0 < count c h.clients
  forgotten : count c h.unreg_ch ≡ 0

count-snoc : (c : ℕ) (xs : List ℕ) (d : ℕ) → d ≢ c → count c (xs ++ d ∷ []) ≡ count c xs
unfolding count
count-snoc c [] d ne = ground arith
count-snoc c (x ∷ xs) d ne = ground (arith, count-snoc c xs d)

count-remove_ne : (c : ℕ) (xs : List ℕ) (d : ℕ) → d ≢ c → count c (remove d xs) ≡ count c xs
unfolding count remove
count-remove_ne c [] d ne = refl
count-remove_ne c (x ∷ xs) d ne = ground (arith, count-remove_ne c xs d)

set_send-IsLeaked :
    (c d : ℕ) (h h' : Hub) (o : Option Channel)
    → IsLeaked c h
    → set_send h d o ≡ some h'
    → IsLeaked c h'
unfolding set_send
set_send-IsLeaked c d h h' none l e = absurd (cc)
set_send-IsLeaked c d h h' (some ch) l e = ground (arith, l.left, l.registered, l.forgotten)

fan_out-IsLeaked :
    (c : ℕ) (cs : List ℕ) (msg : String) (h h' : Hub)
    → IsLeaked c h
    → fan_out cs msg h ≡ some h'
    → IsLeaked c h'
unfolding fan_out
fan_out-IsLeaked c [] msg h h' l e = ground (arith, l.left, l.registered, l.forgotten)
fan_out-IsLeaked c (d ∷ cs) msg h h' l e =
    elim (some-cases (set_send h d (try_send msg (h.send d)))) [
      | inl stuck ↦ absurd (cc (rw (stuck, fan_out) at e))
      | inr (h'', sent) ↦
          fan_out-IsLeaked c cs msg h'' h'
            (set_send-IsLeaked c d h h'' (try_send msg (h.send d)) l sent) (rw (sent, fan_out) at e)
    ]

take_register-IsLeaked :
    (c : ℕ) (cs : List ℕ) (h h' : Hub) → IsLeaked c h → take_register cs h ≡ some h' → IsLeaked c h'
unfolding take_register register count
take_register-IsLeaked c [] h h' l e = ground (arith, l.left, l.registered, l.forgotten)
take_register-IsLeaked c (d ∷ cs) h h' l e = ground (arith, l.left, l.registered, l.forgotten)

take_unregister-IsLeaked :
    (c : ℕ) (cs : List ℕ) (h h' : Hub)
    → h.unreg_ch ≡ cs
    → IsLeaked c h
    → take_unregister cs h ≡ some h'
    → IsLeaked c h'
unfolding take_unregister unregister set_send close count
take_unregister-IsLeaked c [] h h' q l e = ground (arith, l.left, l.registered, l.forgotten)
take_unregister-IsLeaked c (d ∷ cs) h h' q l e =
    let forgotten : count c (d ∷ cs) ≡ 0 = rw q at l.forgotten in
    let ne : d ≢ c = ground arith in
    ground (arith, l.left, l.registered, forgotten, count-remove_ne c h.clients d ne)

take_message-IsLeaked :
    (c : ℕ) (ms : List String) (h h' : Hub)
    → IsLeaked c h
    → take_message ms h ≡ some h'
    → IsLeaked c h'
unfolding take_message
take_message-IsLeaked c [] h h' l e = ground (arith, l.left, l.registered, l.forgotten)
take_message-IsLeaked c (m ∷ ms) h h' l e =
    fan_out-IsLeaked c h.clients m (record h { msg_ch = ms }) h'
      (record { left = l.left; registered = l.registered; forgotten = l.forgotten }) e

-- No event mends it.
act-IsLeaked :
    (c : ℕ) (e : Event) (p : Phase) (h h' : Hub)
    → h.phase (client_of e) ≡ p
    → IsLeaked c h
    → act e p h ≡ some h'
    → IsLeaked c h'
unfolding act connect leave
act-IsLeaked c (connects d) absent h h' q l e =
    let ne : d ≢ c = λ same. ground (arith, l.left, ap h.phase same) in
    ground (arith, l.left, l.registered, l.forgotten, count-snoc c h.unreg_ch d ne)
act-IsLeaked c (snapshot d msg) connected h h' q l e =
    set_send-IsLeaked c d h h' (try_send msg (h.send d)) l e
act-IsLeaked c (writes d) connected h h' q l e =
    set_send-IsLeaked c d h h' (some (drop_first (h.send d))) l e
act-IsLeaked c (leaves d) connected h h' q l e =
    let ne : d ≢ c = λ same. ground (arith, l.left, ap h.phase same) in
    ground (arith, l.left, l.registered, l.forgotten, count-snoc c h.unreg_ch d ne)
act-IsLeaked c (broadcast msg) p h h' q l e = ground (arith, l.left, l.registered, l.forgotten)
act-IsLeaked c takes_register p h h' q l e = take_register-IsLeaked c h.reg_ch h h' l e
act-IsLeaked c takes_unregister p h h' q l e = take_unregister-IsLeaked c h.unreg_ch h h' refl l e
act-IsLeaked c takes_message p h h' q l e = take_message-IsLeaked c h.msg_ch h h' l e
act-IsLeaked c _ _ h h' q l e = ground (arith, l.left, l.registered, l.forgotten)

run-IsLeaked :
    (c : ℕ) (es : List Event) (h h' : Hub) → IsLeaked c h → run es h ≡ some h' → IsLeaked c h'
unfolding run
run-IsLeaked c [] h h' l e = ground (arith, l.left, l.registered, l.forgotten)
run-IsLeaked c (x ∷ es) h h' l e = elim (some-cases (step x h)) [
  | inl stuck ↦ absurd (cc (rw (stuck, run) at e))
  | inr (h'', stepped) ↦
      run-IsLeaked c es h'' h'
        (act-IsLeaked c x (h.phase (client_of x)) h h'' refl l (unfold step in stepped))
        (rw (stepped, run) at e)
]

-- The hub takes the unregistration before the registration.
abbrev pub wrong_order : ℕ → List Event → List Event
wrong_order c es = connects c ∷ leaves c ∷ takes_unregister ∷ takes_register ∷ es

-- The hub after them.
abbrev leaked_hub : ℕ → Hub
leaked_hub c = record new_hub {
  clients = c ∷ [];
  phase = update (update new_hub.phase c connected) c gone;
}

wrong_order-leaked :
    (c : ℕ) (es : List Event) → run (wrong_order c es) new_hub ≡ run es (leaked_hub c)
unfolding run step act connect leave take_register take_unregister register unregister offer count
    new_hub
wrong_order-leaked c es = ground arith

leaked_hub-IsLeaked : (c : ℕ) → IsLeaked c (leaked_hub c)
unfolding count new_hub
leaked_hub-IsLeaked c = ground arith

-- A client that connects and leaves before the hub has looked, and whose unregistration the hub
-- takes first, is still registered after any further events.
pub registered_for_good :
    (c : ℕ) (es : List Event)
    → (h : Hub) × (run (wrong_order c es) new_hub ≡ some h)
      × (h.phase c ≡ gone)
      × (contains c h.clients ≡ true)
registered_for_good c es =
    let (h, ran, _) = run-IsSafe (wrong_order c es) new_hub new_hub-IsSafe in
    let l =
      run-IsLeaked c es (leaked_hub c) h (leaked_hub-IsLeaked c)
        (rw (wrong_order-leaked c es) at ran) in
    (h, ran, l.left, ground (arith, l.registered))
