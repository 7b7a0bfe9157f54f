-- ===== src/Leaderboard/Hub/Delivery.antt =====
-- What one message does to the buffers of the clients of the hub.
use obarena.Prelude.{
  ℕ, ◌≤◌, ◌≡◌, arith, String, false, if◌then◌else◌, List, [], ◌∷◌, some, inl, inr, Bool-cases,
  update,
}
use obarena.Leaderboard.Hub.{Hub, count, contains, offer, try_send, set_send, fan_out, take_message}
use obarena.Leaderboard.Hub.Safety.{IsSafe}

abbrev after_send : ℕ → String → Hub → Hub
after_send d msg h = record h {
  send = update h.send d (record { buffer = offer 256 msg (h.send d).buffer; closed = false });
}

fan_out_buffers :
    (cs : List ℕ) (msg : String) (h h' : Hub) (c : ℕ)
    → count c cs ≤ 1
    → fan_out cs msg h ≡ some h'
    → (h'.send c).buffer
      ≡ (if contains c cs then offer 256 msg (h.send c).buffer else (h.send c).buffer)
unfolding fan_out count set_send try_send
fan_out_buffers [] msg h h' c once ran = ground arith
fan_out_buffers (d ∷ cs) msg h h' c once ran = elim (Bool-cases (h.send d).closed) [
  | inl shut ↦ absurd (cc (rw (shut, fan_out) at ran))
  | inr is_open ↦ ground (
    arith,
    fan_out_buffers cs msg (after_send d msg h) h' c (ground arith) (rw (is_open, fan_out) at ran),
  )
]

-- When the hub takes a message, each client that is registered gets it behind what it had, if its
-- channel has room, and once; the others get nothing.
take_message_delivers :
    (h : Hub) (msg : String) (ms : List String) (h' : Hub) (c : ℕ)
    → IsSafe h
    → take_message (msg ∷ ms) h ≡ some h'
    → (h'.send c).buffer
      ≡ (if contains c h.clients then offer 256 msg (h.send c).buffer else (h.send c).buffer)
unfolding take_message
take_message_delivers h msg ms h' c s ran =
    fan_out_buffers h.clients msg (record h { msg_ch = ms }) h' c (omega (arith, s.once c)) ran
