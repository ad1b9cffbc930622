-- ===== src/Examples/Hub.antt =====
-- The theorems on the websocket hub at a concrete interleaving.
use fidex_go_node.Common.{List, [], ◌∷◌, ◌++◌, ◌≡◌, refl, true}
use fidex_go_node.Json.{Json, text}
use fidex_go_node.Hub.{
  Hub, new_hub, moved, Event, connect, publish, take_broadcast, unregister, write, run, step,
  send_all, drop_client, is_registered, register,
}
use fidex_go_node.Hub.Follows.{Safe, stream}
use fidex_go_node.Hub.Steps.{taken}
use fidex_go_node.Hub.Streams.{run_never_panics, connect-stream, state_of}

abbrev earlier : List Event
earlier = connect ∷ publish "partner_added" (text "B") ∷ []

abbrev later : List Event
later = take_broadcast ∷ write 1 0 ∷ unregister 0 ∷ unregister 0 ∷ []

run_never_panics_example : (h : Hub) × (run (earlier ++ later) new_hub ≡ moved h) × Safe h
run_never_panics_example = run_never_panics (earlier ++ later)

abbrev before : Hub
before = state_of (run earlier new_hub)

abbrev after : Hub
after = state_of (run later (register before))

before_reached : run earlier new_hub ≡ moved before
unfolding run step
before_reached = refl

after_reached : run later (register before) ≡ moved after
unfolding run step send_all is_registered drop_client
after_reached = refl

connect-stream_example :
    (is_registered before.allocated after.clients ≡ true
      → stream after before.allocated ≡ taken later (register before))
    × ((rest : List Json) × (taken later (register before) ≡ stream after before.allocated ++ rest))
connect-stream_example = connect-stream earlier later before after before_reached after_reached
