-- ===== src/Hub/Steps.antt =====
-- websocket.go: every event keeps the hub safe, and each client's stream follows what is taken.
use fidex_go_node.Common.{
  ℕ, zero, suc, ◌<◌, ◌≤◌, List, [], ◌∷◌, ◌++◌, ◌≡◌, ◌∙◌, ap, inl, inr, arith, refl, same_number,
  ltb, if◌then◌else◌, length, Bool-cases, take, drop,
}
use fidex_go_node.Json.{Json}
use fidex_go_node.Hub.{
  Client, Channel, Hub, Outcome, moved, waits, panicked, capacity, set_channel, is_registered,
  drop_client, register, Event, connect, publish, take_broadcast, unregister, write, step, enqueue,
  ws_message, pump, written_on, broadcast_next,
}
use fidex_go_node.Hub.Follows.{
  Safe, stream, Follows, Follows-same, Follows-dropped, append_assoc, is_registered-remove,
}
use fidex_go_node.Hub.Sending.{
  send_all-Broadcasted, dropped, drop_client-dropped, dropped-Safe, Follows-Served,
}

-- The messages that the hub's loop takes from its channel during an event, and during a run.
abbrev first_of : List Json → List Json
first_of [] = []
first_of (m ∷ ms) = m ∷ []

abbrev pub taken_at : Event → Hub → List Json
taken_at take_broadcast h = first_of h.broadcast
taken_at _ h = []

abbrev next_of : Outcome → Hub → Hub
next_of (moved h') h = h'
next_of _ h = h

unfoldable pub taken : List Event → Hub → List Json
taken [] h = []
taken (e ∷ es) h = taken_at e h ++ taken es (next_of (step e h) h)

-- What holds after an event.
abbrev pub Sound : List Json → Hub → Outcome → Type 0
Sound ms h (moved h') =
    Safe h' × (h.allocated ≤ h'.allocated) × ((c : Client) → c < h.allocated → Follows c h h' ms)
Sound ms h waits = ms ≡ []
Sound ms h panicked = ⊥

pub register-Sound : (h : Hub) → Safe h → Sound [] h (moved (register h))
unfolding is_registered
register-Sound h s = (
  record {
    distinct = (
      ground (arith, s.allocated h.allocated, Bool-cases (is_registered h.allocated h.clients)),
      s.distinct,
    );
    allocated = λ c e. ground (arith, s.allocated c, e);
    sendable = λ c e. ground (arith, s.sendable c, e);
  },
  omega arith,
  λ c l. Follows-same c h (register h) (ground arith) (ground arith),
)

pub same-Sound :
    (h h' : Hub)
    → h'.clients ≡ h.clients
    → h'.allocated ≡ h.allocated
    → ((c : Client) → ((h'.channels c).closed ≡ (h.channels c).closed) × (stream h' c ≡ stream h c))
    → Safe h
    → Sound [] h (moved h')
same-Sound h h' cs a k s = (
  record {
    distinct = rw cs s.distinct;
    allocated = λ c e. rw a (s.allocated c (rw cs at e));
    sendable = λ c e. let (closed, same) = k c in closed ∙ s.sendable c (rw cs at e);
  },
  omega (arith, a),
  λ c l. let (closed, same) = k c in Follows-same c h h' (ap (is_registered c) cs) same,
)

enqueue-Sound : (m : Json) (h : Hub) → Safe h → Sound [] h (enqueue m h)
enqueue-Sound m h s = elim (Bool-cases (ltb (length h.broadcast) capacity)) [
  | inl room ↦ rw room (
      same-Sound h (record h { broadcast = h.broadcast ++ m ∷ [] }) refl refl (λ c. (refl, refl)) s)
  | inr full ↦ rw full refl
]

unregister-Sound :
    (c : Client) (h : Hub)
    → Safe h
    → Sound [] h (if is_registered c h.clients then drop_client c h else moved h)
unregister-Sound c h s = elim (Bool-cases (is_registered c h.clients)) [
  | inr out ↦ rw out (same-Sound h h refl refl (λ d. (refl, refl)) s)
  | inl there ↦
      rw (there, drop_client-dropped c h (s.sendable c there))
        (
          dropped-Safe c h s,
          omega arith,
          λ d l. elim (Bool-cases (same_number d c)) [
            | inl same ↦
                Follows-dropped d h (dropped c h) []
                  (ground (arith, is_registered-remove d c h.clients)) (ground arith)
            | inr other ↦
                Follows-same d h (dropped c h) (ground (arith, is_registered-remove d c h.clients))
                  (ground arith)
          ],
        )
]

take-drop : (n : ℕ) (xs : List Json) → take n xs ++ drop n xs ≡ xs
take-drop zero xs = refl
take-drop (suc n) [] = refl
take-drop (suc n) (x ∷ xs) = ap (λ l. x ∷ l) (take-drop n xs)

written_on-stream :
    (n : ℕ) (ch : Channel)
    → (written_on n ch).written ++ (written_on n ch).buffer ≡ ch.written ++ ch.buffer
written_on-stream n ch =
    append_assoc ch.written (take (suc n) ch.buffer) (drop (suc n) ch.buffer)
    ∙ ap (λ l. ch.written ++ l) (take-drop (suc n) ch.buffer)

pump-Sound : (c : Client) (n : ℕ) (b : List Json) (h : Hub) → Safe h → Sound [] h (pump c n b h)
pump-Sound c n [] h s = refl
pump-Sound c n (m ∷ ms) h s =
    same-Sound h (record h { channels = set_channel c (written_on n (h.channels c)) h.channels })
      refl refl (λ d. ground (arith, written_on-stream n (h.channels c))) s

broadcast_next-Sound :
    (b : List Json) (h : Hub) → Safe h → Sound (first_of b) h (broadcast_next b h)
broadcast_next-Sound [] h s = refl
broadcast_next-Sound (m ∷ ms) h s =
    let start : Hub = record h { broadcast = ms } in
    let safe : Safe start = record {
      distinct = s.distinct;
      allocated = s.allocated;
      sendable = s.sendable;
    } in
    let (h', loop, after, kept, served) =
      send_all-Broadcasted m h.clients start s.distinct s.sendable safe in
    rw loop (after, omega (arith, kept), λ c l. Follows-Served m c h h' (served c))

pub step-Sound : (e : Event) (h : Hub) → Safe h → Sound (taken_at e h) h (step e h)
unfolding step
step-Sound connect h s = register-Sound h s
step-Sound (publish message_type data_json) h s =
    enqueue-Sound (ws_message message_type data_json) h s
step-Sound take_broadcast h s = broadcast_next-Sound h.broadcast h s
step-Sound (unregister c) h s = unregister-Sound c h s
step-Sound (write c n) h s = pump-Sound c n (h.channels c).buffer h s
