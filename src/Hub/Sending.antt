-- ===== src/Hub/Sending.antt =====
-- websocket.go: the loop of a broadcast over the clients, and the deletion of one.
use fidex_go_node.Common.{
  true, false, List, [], ◌∷◌, ◌++◌, ◌≡◌, ◌∙◌, ◌⊎◌, inl, inr, arith, refl, ltb, length, Bool-cases,
}
use fidex_go_node.Json.{Json}
use fidex_go_node.Hub.{
  Client, Hub, moved, capacity, set_channel, is_registered, remove, drop_client, send_to, send_all,
}
use fidex_go_node.Hub.Follows.{
  Distinct, Safe, is_registered-remove, remove-Distinct, stream, Follows, Follows-dropped,
  append_assoc,
}

-- What a client that stays registered gets of one message, and what a dropped one gets.
abbrev pub appended : Json → Client → Hub → Hub
appended m c h = record h {
  channels =
      set_channel c (record (h.channels c) { buffer = (h.channels c).buffer ++ m ∷ [] }) h.channels;
}

abbrev pub dropped : Client → Hub → Hub
dropped c h = record h {
  clients = remove c h.clients;
  channels = set_channel c (record (h.channels c) { closed = true }) h.channels;
}

pub drop_client-dropped :
    (c : Client) (h : Hub) → (h.channels c).closed ≡ false → drop_client c h ≡ moved (dropped c h)
unfolding drop_client
drop_client-dropped c h e = rw e refl

send_to-cases :
    (m : Json) (c : Client) (h : Hub)
    → (h.channels c).closed ≡ false
    → (send_to m c h ≡ moved (appended m c h)) ⊎ (send_to m c h ≡ moved (dropped c h))
unfolding send_to
send_to-cases m c h e = elim (Bool-cases (ltb (length (h.channels c).buffer) capacity)) [
  | inl room ↦ inl (rw (e, room) refl)
  | inr full ↦ inr (rw (e, full) refl)
]

pub dropped-Safe : (c : Client) (h : Hub) → Safe h → Safe (dropped c h)
dropped-Safe c h s = record {
  distinct = remove-Distinct c h.clients s.distinct;
  allocated = λ d e. s.allocated d (ground (arith, is_registered-remove d c h.clients, e));
  sendable = λ d e. ground (arith, is_registered-remove d c h.clients, e, s.sendable d);
}

appended-Safe : (m : Json) (c : Client) (h : Hub) → Safe h → Safe (appended m c h)
appended-Safe m c h s = record {
  distinct = s.distinct;
  allocated = s.allocated;
  sendable = λ d e. ground (arith, s.sendable d, s.sendable c, e);
}

-- The loop of a broadcast over clients that can be sent to.
abbrev CanSend : List Client → Hub → Type 0
CanSend cs h = (c : Client) → is_registered c cs ≡ true → (h.channels c).closed ≡ false

-- What one turn of the loop does to a client.
abbrev Served : Json → Client → List Client → Hub → Hub → Type 0
Served m c cs h h' =
    (is_registered c cs ≡ true
      → ((is_registered c h'.clients ≡ is_registered c h.clients)
          × (stream h' c ≡ stream h c ++ m ∷ []))
        ⊎ ((is_registered c h'.clients ≡ false) × (stream h' c ≡ stream h c)))
    × (is_registered c cs ≡ false
        → (is_registered c h'.clients ≡ is_registered c h.clients) × (stream h' c ≡ stream h c))

abbrev Broadcasted : Json → List Client → Hub → Type 0
Broadcasted m cs h =
    (h' : Hub) × (send_all m cs h ≡ moved h')
    × Safe h'
    × (h'.allocated ≡ h.allocated)
    × ((c : Client) → Served m c cs h h')

-- The rest of the loop after the first client's turn, which left `h'`.
send_all-cons :
    (m : Json) (c : Client) (cs : List Client) (h h' : Hub)
    → is_registered c cs ≡ false
    → send_to m c h ≡ moved h'
    → h'.allocated ≡ h.allocated
    → ((d : Client) → Served m d (c ∷ []) h h')
    → Broadcasted m cs h'
    → Broadcasted m (c ∷ cs) h
unfolding send_all is_registered
send_all-cons m c cs h h' apart turn kept served (h'', loop, safe, kept', others) =
    (h'', rw turn loop, safe, kept' ∙ kept, λ d. ground (arith, served d, others d, apart))

appended-Served : (m : Json) (c d : Client) (h : Hub) → Served m d (c ∷ []) h (appended m c h)
unfolding is_registered
appended-Served m c d h =
    ground (arith, append_assoc (h.channels c).written (h.channels c).buffer (m ∷ []))

dropped-Served : (m : Json) (c d : Client) (h : Hub) → Served m d (c ∷ []) h (dropped c h)
unfolding is_registered
dropped-Served m c d h = ground (arith, is_registered-remove d c h.clients)

appended-CanSend :
    (m : Json) (c : Client) (cs : List Client) (h : Hub)
    → is_registered c cs ≡ false
    → CanSend (c ∷ cs) h
    → CanSend cs (appended m c h) × CanSend cs (dropped c h)
unfolding is_registered
appended-CanSend m c cs h apart can =
    (λ d e. ground (arith, can d, can c, e), λ d e. ground (arith, can d, e, apart))

pub send_all-Broadcasted :
    (m : Json) (cs : List Client) (h : Hub)
    → Distinct cs
    → CanSend cs h
    → Safe h
    → Broadcasted m cs h
unfolding send_all is_registered
send_all-Broadcasted m [] h d can safe =
    (h, refl, safe, refl, λ c. (λ e. ground arith, λ e. (refl, refl)))
send_all-Broadcasted m (c ∷ cs) h (apart, d) can safe =
    let (next, next') = appended-CanSend m c cs h apart can in
    elim (send_to-cases m c h (ground (arith, can c))) [
      | inl kept ↦
          send_all-cons m c cs h (appended m c h) apart kept refl (λ x. appended-Served m c x h)
            (send_all-Broadcasted m cs (appended m c h) d next (appended-Safe m c h safe))
      | inr full ↦
          send_all-cons m c cs h (dropped c h) apart full refl (λ x. dropped-Served m c x h)
            (send_all-Broadcasted m cs (dropped c h) d next' (dropped-Safe c h safe))
    ]

pub Follows-Served :
    (m : Json) (c : Client) (h h' : Hub) → Served m c h.clients h h' → Follows c h h' (m ∷ [])
Follows-Served m c h h' (registered, other) = elim (Bool-cases (is_registered c h.clients)) [
  | inr out ↦ (let (r, s) = other out in Follows-dropped c h h' (m ∷ []) (ground arith) s)
  | inl there ↦ elim (registered there) [
    | inr (r, s) ↦ Follows-dropped c h h' (m ∷ []) r s
    | inl (r, s) ↦ record {
      stays = λ e. (there, s);
      gone = λ e. ground arith;
      prefix = (m ∷ [], [], s, refl);
    }
  ]
]
