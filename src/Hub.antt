-- ===== src/Hub.antt =====
-- internal/dashboard/websocket.go: the hub of the dashboard's websocket clients. A client is the
-- number of its allocation, which stands for its pointer; its `send` channel is its buffer, whether it
-- is closed, and what its writePump has taken out. The socket itself is left out. What several
-- goroutines do is a sequence of events, of which one is a turn of the hub's loop, a send on the
-- hub's channel, or a turn of a client's pump.
pub mod Follows
pub mod Sending
pub mod Steps
pub mod Streams
use fidex_go_node.Common.{
  ℕ, suc, ◌+◌, ◌<◌, String, Bool, true, false, List, [], ◌∷◌, ◌++◌, same_number, ltb, if◌then◌else◌,
  length, take, drop, select, not,
}
use fidex_go_node.Json.{Json, object, field, end, text}

abbrev pub Client : Type 0
Client = ℕ

-- A buffered channel of messages; `written` is what was received from it so far.
pub record Channel : Type 0 where
  pub buffer : List Json
  pub closed : Bool
  pub written : List Json

-- The capacity of a client's channel, and of the hub's channel of broadcasts.
abbrev pub capacity : ℕ
capacity = 256

-- `make(chan []byte, 256)`
abbrev new_channel : Channel
new_channel = record { buffer = []; closed = false; written = [] }

pub record Hub : Type 0 where
  pub clients : List Client
  pub channels : Client → Channel
  pub allocated : ℕ
  pub broadcast : List Json

-- NewHub
abbrev pub new_hub : Hub
new_hub = record { clients = []; channels = λ c. new_channel; allocated = 0; broadcast = [] }

-- What became of an event: it happened, its goroutine still waits, or it panicked, as a send on a
-- closed channel and a second close do.
pub data Outcome : Type 0 where
  moved : Hub → Outcome
  waits panicked : Outcome

abbrev pub set_channel : Client → Channel → (Client → Channel) → Client → Channel
set_channel c ch channels d = if same_number d c then ch else channels d

unfoldable pub is_registered : Client → List Client → Bool
is_registered c [] = false
is_registered c (d ∷ ds) = let later = is_registered c ds in if same_number d c then true else later

-- `delete(h.clients, client)`
abbrev pub remove : Client → List Client → List Client
remove c ds = select (λ d. not (same_number d c)) ds

-- `close(client.send)` and the deletion of the client.
unfoldable pub drop_client : Client → Hub → Outcome
drop_client c h =
    let ch = h.channels c in
    if ch.closed
    then panicked
    else moved (record h {
      clients = remove c h.clients;
      channels = set_channel c (record ch { closed = true }) h.channels;
    })

abbrev then_on : Outcome → (Hub → Outcome) → Outcome
then_on (moved h) k = k h
then_on waits k = waits
then_on panicked k = panicked

-- The `select` of a broadcast for one client: a closed channel panics, and a client whose buffer is
-- full is dropped.
unfoldable pub send_to : Json → Client → Hub → Outcome
unfolding drop_client
send_to m c h =
    let ch = h.channels c in
    if ch.closed
    then panicked
    else if ltb (length ch.buffer) capacity
    then moved (record h {
      channels = set_channel c (record ch { buffer = ch.buffer ++ m ∷ [] }) h.channels;
    })
    else drop_client c h

-- The loop over the clients that are registered when the broadcast begins.
unfoldable pub send_all : Json → List Client → Hub → Outcome
unfolding send_to
send_all m [] h = moved h
send_all m (c ∷ cs) h = then_on (send_to m c h) (send_all m cs)

pub data Event : Type 0 where
  connect : Event
  publish : String → Json → Event
  take_broadcast : Event
  unregister : Client → Event
  write : Client → ℕ → Event

-- json.Marshal of a WSMessage.
abbrev pub ws_message : String → Json → Json
ws_message message_type data_json =
    object (field "type" (text message_type) (field "data" data_json end))

-- ServeWs allocates a client with a channel of its own, and the hub registers it.
abbrev pub register : Hub → Hub
register h = record h {
  clients = h.allocated ∷ h.clients;
  channels = set_channel h.allocated new_channel h.channels;
  allocated = suc h.allocated;
}

-- Broadcast: the send waits while the hub's channel is full.
abbrev pub enqueue : Json → Hub → Outcome
enqueue m h =
    if ltb (length h.broadcast) capacity
    then moved (record h { broadcast = h.broadcast ++ m ∷ [] })
    else waits

abbrev pub broadcast_next : List Json → Hub → Outcome
broadcast_next [] h = waits
broadcast_next (m ∷ ms) h = send_all m h.clients (record h { broadcast = ms })

-- writePump takes one message, and `n` of those that are in the buffer after it.
abbrev pub written_on : ℕ → Channel → Channel
written_on n ch = record ch {
  buffer = drop (suc n) ch.buffer;
  written = ch.written ++ take (suc n) ch.buffer;
}

abbrev pub pump : Client → ℕ → List Json → Hub → Outcome
pump c n [] h = waits
pump c n (m ∷ ms) h =
    moved (record h { channels = set_channel c (written_on n (h.channels c)) h.channels })

unfoldable pub step : Event → Hub → Outcome
unfolding send_all drop_client
step connect h = moved (register h)
step (publish message_type data_json) h = enqueue (ws_message message_type data_json) h
step take_broadcast h = broadcast_next h.broadcast h
step (unregister c) h = if is_registered c h.clients then drop_client c h else moved h
step (write c n) h = pump c n (h.channels c).buffer h

-- An interleaving of the goroutines: an event whose goroutine waits changes nothing.
abbrev after_event : Outcome → Hub → (Hub → Outcome) → Outcome
after_event (moved h') h k = k h'
after_event waits h k = k h
after_event panicked h k = panicked

unfoldable pub run : List Event → Hub → Outcome
unfolding step
run [] h = moved h
run (e ∷ es) h = after_event (step e h) h (run es)
