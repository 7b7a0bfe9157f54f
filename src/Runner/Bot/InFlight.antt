-- ===== src/Runner/Bot/InFlight.antt =====
-- `inFlight` of `Bot.Run` against what is pending.
use obarena.Prelude.{
  ℕ, ◌+◌, ◌-◌, ◌≤◌, ◌<◌, ◌≡◌, refl, arith, ℤ, pos, String, eq_iff, Bool, true, false, ltb, Dict,
  lookup, insert, delete, IsDistinct, lookup-delete, delete-IsDistinct, insert-IsDistinct, List, [],
  ◌∷◌, length, none, some, some-cases, Bool-cases, inl, inr,
}
use obarena.Engine.Message
use obarena.Runner.Sequence.{StepKind, step_order, step_cancel, Step, order_id}
use obarena.Runner.Bot.{
  IncomingMessage, Bot, Phase, dialing, between, writing, succ_int, pred_int, is_full, settle,
  stale, clear_loop, clear, write, order_message, cancel_message, register, send_order, send_cancel,
  send_step, Event, dials, begins, writes, receives, clears, answer, receive, act, step, run,
}

-- `inFlight` counts what is pending and `k` orders more, 21 orders at most.
pub IsHeld : ℕ → Dict ℕ → ℤ → Type 0
IsHeld k pending in_flight =
    IsDistinct pending × (in_flight ≡ pos (length pending + k)) × (length pending + k ≤ 21)

pub none-IsHeld : (k : ℕ) → k ≤ 21 → IsHeld k [] (pos k)
unfolding IsHeld
none-IsHeld k room = ground (arith, room)

length-delete_absent :
    (oid : String) (m : Dict ℕ) → lookup oid m ≡ none → length (delete oid m) ≡ length m
unfolding lookup delete
length-delete_absent oid [] absent = refl
length-delete_absent oid ((j, v) ∷ m) absent = ground (arith, length-delete_absent oid m)

length-delete :
    (oid : String) (m : Dict ℕ) (t : ℕ)
    → IsDistinct m
    → lookup oid m ≡ some t
    → length m ≡ length (delete oid m) + 1
unfolding lookup delete
length-delete oid [] t d e = absurd (cc)
length-delete oid ((j, v) ∷ m) t (fresh, d) e =
    ground (arith, length-delete oid m t d, length-delete_absent oid m, fresh, eq_iff j oid)

settle-IsHeld :
    (k : ℕ) (pending : Dict ℕ) (in_flight : ℤ) (oid : String) (t : ℕ)
    → IsHeld k pending in_flight
    → lookup oid pending ≡ some t
    → IsHeld k (delete oid pending) (pred_int in_flight)
unfolding IsHeld
settle-IsHeld k pending in_flight oid t (d, e, b) there =
    let shorter = length-delete oid pending t d there in
    (delete-IsDistinct oid pending d, ground (arith, e, shorter), omega (arith, shorter, b))

-- What is pending is one more after a send; if the id was pending, one order more is not.
register-IsHeld :
    (k : ℕ) (pending : Dict ℕ) (in_flight : ℤ) (oid : String) (now : ℕ)
    → IsHeld k pending in_flight
    → is_full in_flight ≡ false
    → (k' : ℕ) × (k ≤ k') × IsHeld k' (insert oid now pending) (succ_int in_flight)
unfolding IsHeld insert
register-IsHeld k pending in_flight oid now (d, e, b) room =
    let few : length pending + k ≤ 20 = ground (arith, e, room) in
    elim (some-cases (lookup oid pending)) [
      | inl absent ↦
          let same = length-delete_absent oid pending absent in
          (
            k,
            omega arith,
            (
              insert-IsDistinct oid now pending d,
              ground (arith, e, same),
              omega (arith, same, few),
            ),
          )
      | inr (t, there) ↦
          let shorter = length-delete oid pending t d there in
          (
            k + 1,
            omega arith,
            (
              insert-IsDistinct oid now pending d,
              ground (arith, e, shorter),
              omega (arith, shorter, few),
            ),
          )
    ]

pub IsHeld-full :
    (k : ℕ) (pending : Dict ℕ) (in_flight : ℤ)
    → 20 < k
    → IsHeld k pending in_flight
    → is_full in_flight ≡ true
unfolding IsHeld
IsHeld-full k pending in_flight many h = ground (arith, h.1)

module _ {H : Type 0} where
  abbrev pub Held : ℕ → Bot H → Type 0
  Held k b = IsHeld k b.pending b.in_flight

  -- As many orders more, or some more than that.
  abbrev pub Grows : ℕ → Bot H → Type 0
  Grows k b = (k' : ℕ) × (k ≤ k') × Held k' b

  same_count : (k : ℕ) (b : Bot H) → Held k b → Grows k b
  same_count k b h = (k, omega arith, h)

  Held-IsDistinct : (k : ℕ) (b : Bot H) → Held k b → IsDistinct b.pending
  unfolding IsHeld
  Held-IsDistinct k b h = h.0

  clear_loop-Held :
      (now : ℕ) (m : Dict ℕ) (k : ℕ) (b : Bot H)
      → IsDistinct m
      → ((oid : String) (t : ℕ) → lookup oid m ≡ some t → lookup oid b.pending ≡ some t)
      → Held k b
      → Held k (clear_loop now m b)
  unfolding clear_loop
  clear_loop-Held now [] k b d there h = h
  clear_loop-Held now ((oid, sent_at) ∷ m) k b (fresh, d) there h =
      let own : lookup oid b.pending ≡ some sent_at =
        there oid sent_at (unfold lookup in ground (arith, eq_iff oid oid)) in
      let kept : (j : String) (t : ℕ) → lookup j m ≡ some t → lookup j b.pending ≡ some t =
        λ j t e. there j t (unfold lookup in ground (arith, e, fresh, eq_iff oid j)) in
      elim (Bool-cases (ltb 5000000000 (now - sent_at))) [
        | inl old ↦
            rw (old, clear_loop)
              (clear_loop-Held now m k (stale (settle oid b)) d
                (λ j t e.
                  ground (arith, e, fresh, kept j t, lookup-delete oid j b.pending, eq_iff oid j))
                (settle-IsHeld k b.pending b.in_flight oid sent_at h own))
        | inr young ↦ rw (young, clear_loop) (clear_loop-Held now m k b d kept h)
      ]

  write-Grows :
      (ok : Bool) (msg : Message.IncomingMessage) (todo : List Step) (k : ℕ) (b : Bot H)
      → Grows k b
      → Grows k (write ok msg todo b)
  unfolding write
  write-Grows true msg todo k b g = g
  write-Grows false msg todo k b g = g

  send_order-Grows :
      (now : ℕ) (ok : Bool) (s : Step) (todo : List Step) (k : ℕ) (b : Bot H)
      → Held k b
      → Grows k (send_order now ok s todo b)
  unfolding send_order
  send_order-Grows now ok s todo k b h =
      let oid = order_id b.id b.iteration s.tag in
      let named = record b { tag_to_id = insert s.tag oid b.tag_to_id } in
      elim (Bool-cases (is_full b.in_flight)) [
        | inl full ↦ rw full (same_count k named h)
        | inr room ↦ rw room (
            write-Grows ok (order_message oid s) todo k (register now oid named)
              (register-IsHeld k b.pending b.in_flight oid now h room))
      ]

  send_cancel-Grows :
      (ok : Bool) (s : Step) (todo : List Step) (k : ℕ) (b : Bot H)
      → Held k b
      → Grows k (send_cancel ok s todo b)
  unfolding send_cancel
  send_cancel-Grows ok s todo k b h = elim (some-cases (lookup s.cancel_tag b.tag_to_id)) [
    | inl unknown ↦ rw (unknown, send_cancel) (same_count k (record b { phase = writing todo }) h)
    | inr (oid, known) ↦
        rw (known, send_cancel) (write-Grows ok (cancel_message oid) todo k b (same_count k b h))
  ]

  send_step-Grows :
      (now : ℕ) (ok : Bool) (kind : StepKind) (s : Step) (todo : List Step) (k : ℕ) (b : Bot H)
      → Held k b
      → Grows k (send_step now ok kind s todo b)
  unfolding send_step
  send_step-Grows now ok step_order s todo k b h = send_order-Grows now ok s todo k b h
  send_step-Grows now ok step_cancel s todo k b h = send_cancel-Grows ok s todo k b h

module _ {H : Type 0} (record_value : ℕ → H → H) where
  receive-Held :
      (now : ℕ) (msg : IncomingMessage) (k : ℕ) (b : Bot H)
      → Held k b
      → Held k (receive record_value now msg b)
  unfolding receive answer
  receive-Held now msg k b h = elim (some-cases (lookup msg.order_id b.pending)) [
    | inl unknown ↦ rw (unknown, receive) h
    | inr (sent_at, known) ↦
        let settled = settle-IsHeld k b.pending b.in_flight msg.order_id sent_at h known in
        rw (known, receive) (ground (arith, settled, h))
  ]

  pub act-Grows :
      (e : Event) (p : Phase) (k : ℕ) (b : Bot H) → Held k b → Grows k (act record_value e p b)
  unfolding act clear
  act-Grows (dials ok) dialing k b h = (k, omega arith, ground (arith, h))
  act-Grows (begins failed) between k b h = (k, omega arith, ground (arith, h))
  act-Grows (writes now ok) (writing []) k b h = (k, omega arith, h)
  act-Grows (writes now ok) (writing (s ∷ todo)) k b h = send_step-Grows now ok s.kind s todo k b h
  act-Grows (receives now msg) p k b h =
      same_count k (receive record_value now msg b) (receive-Held now msg k b h)
  act-Grows (clears now) p k b h =
      same_count k (clear_loop now b.pending b)
        (clear_loop-Held now b.pending k b (Held-IsDistinct k b h) (λ oid t e. e) h)
  act-Grows _ _ k b h = same_count k b h

  -- Whatever the schedule: what `inFlight` counts beyond the pending orders never gets less, and
  -- it never counts more than 21.
  pub run-Grows :
      (es : List Event) (k : ℕ) (b : Bot H)
      → IsHeld k b.pending b.in_flight
      → let b' = run record_value es b in (k' : ℕ) × (k ≤ k') × IsHeld k' b'.pending b'.in_flight
  unfolding run step
  run-Grows [] k b h = (k, omega arith, h)
  run-Grows (e ∷ es) k b h =
      let (k', more, h') = act-Grows e b.phase k b h in
      let (k'', even_more, h'') = run-Grows es k' (step record_value e b) h' in
      (k'', omega (arith, more, even_more), h'')
