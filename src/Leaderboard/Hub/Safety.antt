-- ===== src/Leaderboard/Hub/Safety.antt =====
-- Panics and buffers of the hub of services/leaderboard-ws.
use obarena.Prelude.{
  ℕ, ◌+◌, ◌≤◌, ◌<◌, ◌≡◌, refl, arith, String, Bool, true, false, if◌then◌else◌, length, List, [],
  ◌∷◌, ◌++◌, Option, some, inl, inr, Bool-cases, update, ◌==◌, ◌∙◌,
}
use obarena.Leaderboard.Hub.{
  Phase, absent, connected, gone, Hub, Event, connects, snapshot, writes, leaves, broadcast,
  takes_register, takes_unregister, takes_message, tail, count, contains, remove, offer, try_send,
  close, set_send, fan_out, register, unregister, connect, leave, drop_first, take_register,
  take_unregister, take_message, act, client_of, step, run, new_hub,
}

abbrev bit : Bool → ℕ
bit true = 1
bit false = 0

abbrev is_absent : Phase → ℕ
is_absent absent = 1
is_absent _ = 0

-- A client is in one of these at most: not yet there, on its way in, registered, closed.
pub record IsSafe (h : Hub) : Type 0 where
  pub once :
      (c : ℕ)
      → count c h.reg_ch + count c h.clients + bit (h.send c).closed + is_absent (h.phase c) ≤ 1
  pub bounded : (c : ℕ) → length (h.send c).buffer ≤ 256
  pub left : (c : ℕ) → 0 < count c h.unreg_ch → h.phase c ≡ gone
  pub shut : (c : ℕ) → (h.send c).closed ≡ true → h.phase c ≡ gone

count-append :
    (c : ℕ) (xs : List ℕ) (d : ℕ) → count c (xs ++ d ∷ []) ≡ count c xs + count c (d ∷ [])
unfolding count
count-append c [] d = ground arith
count-append c (x ∷ xs) d = ground (arith, count-append c xs d)

count-remove :
    (c : ℕ) (xs : List ℕ) (d : ℕ) → count c (remove d xs) ≡ (if d == c then 0 else count c xs)
unfolding count remove
count-remove c [] d = ground arith
count-remove c (x ∷ xs) d = ground (arith, count-remove c xs d)

length-snoc : (m : String) (xs : List String) → length (xs ++ m ∷ []) ≡ length xs + 1
length-snoc m [] = omega arith
length-snoc m (x ∷ xs) = omega (arith, length-snoc m xs)

length-offer : (m : String) (xs : List String) → length xs ≤ 256 → length (offer 256 m xs) ≤ 256
unfolding offer
length-offer m xs h = ground (arith, length-snoc m xs)

length-tail : (xs : List String) → length (tail xs) ≤ length xs
unfolding tail
length-tail [] = omega arith
length-tail (x ∷ xs) = omega arith

-- There is a next state, and it is safe.
abbrev pub Succeeds : Option Hub → Type 0
Succeeds o = (h : Hub) × (o ≡ some h) × IsSafe h

module _ (h : Hub) (s : IsSafe h) where
  -- A send to an open channel.
  sent : ℕ → String → Hub
  sent c msg = record h {
    send = update h.send c (record (h.send c) { buffer = offer 256 msg (h.send c).buffer });
  }

  try_send-eq :
      (c : ℕ) (msg : String)
      → (h.send c).closed ≡ false
      → set_send h c (try_send msg (h.send c)) ≡ some (sent c msg)
  unfolding set_send try_send sent
  try_send-eq c msg is_open = rw is_open refl

  sent-IsSafe : (c : ℕ) (msg : String) → IsSafe (sent c msg)
  unfolding sent
  sent-IsSafe c msg = record {
    once = λ d. ground (arith, s.once d);
    bounded = λ d. ground (arith, s.bounded d, length-offer msg (h.send c).buffer (s.bounded c));
    left = s.left;
    shut = λ d shut. s.shut d (ground arith);
  }

  sent-closed : (c : ℕ) (msg : String) (d : ℕ) → ((sent c msg).send d).closed ≡ (h.send d).closed
  unfolding sent
  sent-closed c msg d = ground arith

  written-IsSafe : (c : ℕ) → Succeeds (set_send h c (some (drop_first (h.send c))))
  unfolding set_send drop_first
  written-IsSafe c = (
    record h { send = update h.send c (drop_first (h.send c)) },
    refl,
    record {
      once = λ d. ground (arith, s.once d);
      bounded = λ d. ground (arith, s.bounded d, length-tail (h.send c).buffer, s.bounded c);
      left = s.left;
      shut = λ d shut. s.shut d (ground arith);
    },
  )

  connect-IsSafe : (c : ℕ) → h.phase c ≡ absent → IsSafe (connect c h)
  unfolding connect count
  connect-IsSafe c here = record {
    once = λ d. ground (arith, s.once d, count-append d h.reg_ch c);
    bounded = λ d. ground (arith, s.bounded d);
    left = λ d there. ground (arith, s.left d, count-append d h.unreg_ch c);
    shut = λ d shut. ground (arith, s.shut d);
  }

  leave-IsSafe : (c : ℕ) → IsSafe (leave c h)
  unfolding leave count
  leave-IsSafe c = record {
    once = λ d. ground (arith, s.once d);
    bounded = s.bounded;
    left = λ d there. ground (arith, s.left d, count-append d h.unreg_ch c);
    shut = λ d shut. ground (arith, s.shut d);
  }

  -- What is registered is open.
  open_of_registered : (c : ℕ) → 0 < count c h.clients → (h.send c).closed ≡ false
  open_of_registered c held = ground (arith, s.once c)

  register-IsSafe :
      (c : ℕ) (cs : List ℕ) → h.reg_ch ≡ c ∷ cs → IsSafe (register c (record h { reg_ch = cs }))
  unfolding register count
  register-IsSafe c cs e = record {
    once = λ d. ground (arith, rw e at (s.once d));
    bounded = λ d. ground (arith, s.bounded d);
    left = λ d there. ground (arith, s.left d);
    shut = λ d shut. ground (arith, s.shut d);
  }

  unregister-Succeeds :
      (c : ℕ) (cs : List ℕ)
      → h.unreg_ch ≡ c ∷ cs
      → Succeeds (unregister c (record h { unreg_ch = cs }))
  unfolding unregister set_send close
  unregister-Succeeds c cs e =
      let left =
        λ (d : ℕ) (there : 0 < count d cs). s.left d (rw e (unfold count in ground arith)) in
      let own = s.left c (rw e (unfold count in ground arith)) in
      elim (Bool-cases (contains c h.clients)) [
        | inr unknown ↦ (
          record h { unreg_ch = cs },
          rw unknown refl,
          record { once = s.once; bounded = s.bounded; left = left; shut = s.shut },
        )
        | inl known ↦
            let is_open = open_of_registered c (ground arith) in
            (
              record h {
                unreg_ch = cs;
                clients = remove c h.clients;
                send = update h.send c (record (h.send c) { closed = true });
              },
              rw (known, is_open) refl,
              record {
                once = λ d. ground (arith, s.once d, count-remove d h.clients c);
                bounded = λ d. ground (arith, s.bounded d);
                left = left;
                shut = λ d shut. ground (arith, own, s.shut d);
              },
            )
      ]

fan_out-Succeeds :
    (cs : List ℕ) (msg : String) (h : Hub)
    → IsSafe h
    → ((c : ℕ) → 0 < count c cs → (h.send c).closed ≡ false)
    → Succeeds (fan_out cs msg h)
unfolding fan_out
fan_out-Succeeds [] msg h s are_open = (h, refl, s)
fan_out-Succeeds (c ∷ cs) msg h s are_open =
    let is_open : (h.send c).closed ≡ false = are_open c (unfold count in ground arith) in
    let rest =
      fan_out-Succeeds cs msg (sent h s c msg) (sent-IsSafe h s c msg)
        (λ d held. sent-closed h s c msg d ∙ are_open d (unfold count in ground arith)) in
    rw (try_send-eq h s c msg is_open, fan_out) rest

take_register-Succeeds :
    (cs : List ℕ) (h : Hub) → IsSafe h → h.reg_ch ≡ cs → Succeeds (take_register cs h)
unfolding take_register
take_register-Succeeds [] h s e = (h, refl, s)
take_register-Succeeds (c ∷ cs) h s e =
    (register c (record h { reg_ch = cs }), refl, register-IsSafe h s c cs e)

take_unregister-Succeeds :
    (cs : List ℕ) (h : Hub) → IsSafe h → h.unreg_ch ≡ cs → Succeeds (take_unregister cs h)
unfolding take_unregister
take_unregister-Succeeds [] h s e = (h, refl, s)
take_unregister-Succeeds (c ∷ cs) h s e = unregister-Succeeds h s c cs e

take_message-Succeeds : (ms : List String) (h : Hub) → IsSafe h → Succeeds (take_message ms h)
unfolding take_message
take_message-Succeeds [] h s = (h, refl, s)
take_message-Succeeds (m ∷ ms) h s =
    fan_out-Succeeds h.clients m (record h { msg_ch = ms })
      (record { once = s.once; bounded = s.bounded; left = s.left; shut = s.shut })
      (open_of_registered h s)

-- Each event from a safe hub leads to a safe hub.
act-Succeeds :
    (e : Event) (p : Phase) (h : Hub) → IsSafe h → h.phase (client_of e) ≡ p → Succeeds (act e p h)
unfolding act take_register take_unregister take_message
act-Succeeds (connects c) absent h s e = (connect c h, refl, connect-IsSafe h s c e)
act-Succeeds (snapshot c msg) connected h s e =
    (sent h s c msg, try_send-eq h s c msg (ground (arith, s.shut c)), sent-IsSafe h s c msg)
act-Succeeds (writes c) connected h s e = written-IsSafe h s c
act-Succeeds (leaves c) connected h s e = (leave c h, refl, leave-IsSafe h s c)
act-Succeeds (broadcast msg) p h s e = (
  record h { msg_ch = offer 256 msg h.msg_ch },
  refl,
  record { once = s.once; bounded = s.bounded; left = s.left; shut = s.shut },
)
act-Succeeds takes_register p h s e = take_register-Succeeds h.reg_ch h s refl
act-Succeeds takes_unregister p h s e = take_unregister-Succeeds h.unreg_ch h s refl
act-Succeeds takes_message p h s e = take_message-Succeeds h.msg_ch h s
act-Succeeds _ _ h s e = (h, refl, s)

pub step-Succeeds : (e : Event) (h : Hub) → IsSafe h → Succeeds (step e h)
unfolding step
step-Succeeds e h s = act-Succeeds e (h.phase (client_of e)) h s refl

-- Whatever the schedule, a safe hub never panics, and each buffer stays within its channel.
pub run-IsSafe :
    (es : List Event) (h : Hub) → IsSafe h → (h' : Hub) × (run es h ≡ some h') × IsSafe h'
unfolding run
run-IsSafe [] h s = (h, refl, s)
run-IsSafe (e ∷ es) h s =
    let (h', ran, s') = step-Succeeds e h s in
    let (h'', rest, s'') = run-IsSafe es h' s' in (h'', rw (ran, run) rest, s'')

pub new_hub-IsSafe : IsSafe new_hub
unfolding new_hub count
new_hub-IsSafe = record {
  once = λ c. omega arith;
  bounded = λ c. omega arith;
  left = λ c there. absurd (omega arith);
  shut = λ c shut. cc;
}
