-- ===== src/Leaderboard/Hub.antt =====
-- `Hub`, its event loop and the life of a connection, hub.go of services/leaderboard-ws.
--
-- The goroutines are one schedule: each event is one receive or send of one of them. The result
-- `none` is a panic: a send on a closed channel, or a close of one.
pub mod Safety
pub mod Leak
pub mod Delivery
use obarena.Prelude.{
  ℕ, zero, suc, ◌+◌, String, Bool, true, false, ◌&&◌, ltb, ◌==◌, if◌then◌else◌, update, length,
  List, [], ◌∷◌, ◌++◌, Option, none, some,
}

-- `send` of a client: what is buffered, first in first out.
pub record Channel : Type 0 where
  pub buffer : List String
  pub closed : Bool

-- A connection: before `wsHandler` sends to `regCh`, while it reads, and after it has returned.
pub data Phase : Type 0 where
  absent connected gone : Phase

-- A client is a number. `send` and `phase` are of every client.
pub record Hub : Type 0 where
  pub clients : List ℕ
  pub reg_ch : List ℕ
  pub unreg_ch : List ℕ
  pub msg_ch : List String
  pub send : ℕ → Channel
  pub phase : ℕ → Phase

unfoldable pub count : ℕ → List ℕ → ℕ
count c [] = 0
count c (x ∷ xs) = let n = count c xs in if x == c then n + 1 else n

abbrev pub contains : ℕ → List ℕ → Bool
contains c xs = ltb 0 (count c xs)

unfoldable pub remove : ℕ → List ℕ → List ℕ
remove c [] = []
remove c (x ∷ xs) = let rest = remove c xs in if x == c then rest else x ∷ rest

unfoldable pub new_hub : Hub
new_hub = record {
  clients = [];
  reg_ch = [];
  unreg_ch = [];
  msg_ch = [];
  send = λ _. record { buffer = []; closed = false };
  phase = λ _. absent;
}

-- `select { case ch <- x: default: }` for a buffer of `cap`
unfoldable pub offer {ℓ} : {A : Type ℓ} → ℕ → A → List A → List A
offer cap x xs = if ltb (length xs) cap then xs ++ x ∷ [] else xs

-- The same on a client's channel, which may be closed.
unfoldable pub try_send : String → Channel → Option Channel
unfolding offer
try_send msg ch = if ch.closed then none else some (record ch { buffer = offer 256 msg ch.buffer })

unfoldable pub close : Channel → Option Channel
close ch = if ch.closed then none else some (record ch { closed = true })

unfoldable pub set_send : Hub → ℕ → Option Channel → Option Hub
set_send h c none = none
set_send h c (some ch) = some (record h { send = update h.send c ch })

-- The loop over `h.clients` for one message.
unfoldable pub fan_out : List ℕ → String → Hub → Option Hub
fan_out [] msg h = some h
fan_out (c ∷ cs) msg h = elim (set_send h c (try_send msg (h.send c))) [
  | none ↦ none
  | some h' ↦ fan_out cs msg h'
]

unfoldable pub register : ℕ → Hub → Hub
register c h = if contains c h.clients then h else record h { clients = c ∷ h.clients }

unfoldable pub unregister : ℕ → Hub → Option Hub
unregister c h =
    if contains c h.clients
    then set_send (record h { clients = remove c h.clients }) c (close (h.send c))
    else some h

-- The first half of `wsHandler`: a full `regCh` turns the connection away, by way of the `defer`.
unfoldable pub connect : ℕ → Hub → Hub
unfolding offer
connect c h =
    if ltb (length h.reg_ch) 64
    then record h { reg_ch = offer 64 c h.reg_ch; phase = update h.phase c connected }
    else record h { unreg_ch = offer 64 c h.unreg_ch; phase = update h.phase c gone }

-- The `defer` of `wsHandler`.
unfoldable pub leave : ℕ → Hub → Hub
unfolding offer
leave c h = record h { unreg_ch = offer 64 c h.unreg_ch; phase = update h.phase c gone }

unfoldable pub tail : List String → List String
tail [] = []
tail (_ ∷ xs) = xs

-- The writer goroutine takes the first message.
unfoldable pub drop_first : Channel → Channel
unfolding tail
drop_first ch = record ch { buffer = tail ch.buffer }

pub data Event : Type 0 where
  connects : ℕ → Event
  snapshot : ℕ → String → Event
  writes : ℕ → Event
  leaves : ℕ → Event
  broadcast : String → Event
  takes_register : Event
  takes_unregister : Event
  takes_message : Event

-- The hub receives from one of its channels, if there is something.
unfoldable pub take_register : List ℕ → Hub → Option Hub
unfolding register
take_register [] h = some h
take_register (c ∷ cs) h = some (register c (record h { reg_ch = cs }))

unfoldable pub take_unregister : List ℕ → Hub → Option Hub
unfolding unregister
take_unregister [] h = some h
take_unregister (c ∷ cs) h = unregister c (record h { unreg_ch = cs })

unfoldable pub take_message : List String → Hub → Option Hub
take_message [] h = some h
take_message (m ∷ ms) h = fan_out h.clients m (record h { msg_ch = ms })

-- What a connection does depends on how far it is; out of turn it does nothing.
unfoldable pub act : Event → Phase → Hub → Option Hub
unfolding connect leave take_register take_unregister
act (connects c) absent h = some (connect c h)
act (snapshot c msg) connected h = set_send h c (try_send msg (h.send c))
act (writes c) connected h = set_send h c (some (drop_first (h.send c)))
act (leaves c) connected h = some (leave c h)
act (broadcast msg) _ h = some (record h { msg_ch = offer 256 msg h.msg_ch })
act takes_register _ h = take_register h.reg_ch h
act takes_unregister _ h = take_unregister h.unreg_ch h
act takes_message _ h = take_message h.msg_ch h
act _ _ h = some h

abbrev pub client_of : Event → ℕ
client_of (connects c) = c
client_of (snapshot c _) = c
client_of (writes c) = c
client_of (leaves c) = c
client_of _ = 0

unfoldable pub step : Event → Hub → Option Hub
unfolding act
step e h = act e (h.phase (client_of e)) h

unfoldable pub run : List Event → Hub → Option Hub
unfolding step
run [] h = some h
run (e ∷ es) h = elim (step e h) [ none ↦ none | some h' ↦ run es h' ]
