-- ===== src/Hub/Streams.antt =====
-- websocket.go: what every interleaving of the hub's goroutines keeps true, and what each client
-- receives.
use fidex_go_node.Common.{true, List, [], ◌∷◌, ◌++◌, ◌≡◌, ◌∙◌, ap, sym, arith, refl}
use mathlib.Core.Path.{subst}
use fidex_go_node.Json.{Json}
use fidex_go_node.Hub.{
  Hub, new_hub, Outcome, moved, waits, panicked, is_registered, register, Event, step, run,
}
use fidex_go_node.Hub.Follows.{Safe, stream, Follows, Follows-trans}
use fidex_go_node.Hub.Steps.{taken_at, taken, Sound, register-Sound, same-Sound, step-Sound}

-- What a run from a state that is safe leaves.
abbrev Ran : List Event → Hub → Type 0
Ran es h = (h' : Hub) × (run es h ≡ moved h') × Sound (taken es h) h (moved h')

-- One event before a run: the outcome of the event is given with its equation.
run-cons :
    (e : Event) (es : List Event) (h : Hub) (o : Outcome)
    → step e h ≡ o
    → Safe h
    → Sound (taken_at e h) h o
    → ((h' : Hub) → Safe h' → Ran es h')
    → Ran (e ∷ es) h
unfolding run taken
run-cons e es h panicked q safe sound later = elim sound [ ]
run-cons e es h waits q safe sound later =
    let (h', ends, (s, grown, follows)) = later h safe in
    (h', rw q ends, (s, grown, rw (q, sound) follows))
run-cons e es h (moved h1) q safe (s, grown, follows) later =
    let (h', ends, (s', grown', follows')) = later h1 s in
    (
      h',
      rw q ends,
      (
        s',
        omega (arith, grown, grown'),
        rw q (λ c l.
            Follows-trans c h h1 h' (taken_at e h) (taken es h1) (follows c l)
              (follows' c (omega (arith, l, grown)))),
      ),
    )

run-Ran : (es : List Event) (h : Hub) → Safe h → Ran es h
unfolding run taken
run-Ran [] h s = (h, refl, same-Sound h h refl refl (λ c. (refl, refl)) s)
run-Ran (e ∷ es) h s = run-cons e es h (step e h) refl s (step-Sound e h s) (run-Ran es)

new_hub-Safe : Safe new_hub
unfolding is_registered
new_hub-Safe = record {
  distinct = tt;
  allocated = λ c e. ground arith;
  sendable = λ c e. ground arith;
}

-- Whatever the order in which clients connect and leave, messages are broadcast and the pumps
-- run, the hub never sends on a closed channel and closes none twice: a run from a new hub reaches a
-- state in which no client is registered twice and every registered client's channel is open.
pub run_never_panics : (es : List Event) → (h : Hub) × (run es new_hub ≡ moved h) × Safe h
run_never_panics es =
    let (h, ends, (s, grown, follows)) = run-Ran es new_hub new_hub-Safe in (h, ends, s)

abbrev pub state_of : Outcome → Hub
state_of (moved h) = h
state_of _ = new_hub

moved-injective : (h h' : Hub) → moved h ≡ moved h' → h ≡ h'
moved-injective h h' e = ap state_of e

-- A client that connects at any time receives, in order and without a gap, the messages that the
-- hub takes from then on: all of them while it is registered, and a first part of them when it was
-- dropped for a full buffer or left.
pub connect-stream :
    (es fs : List Event) (h h' : Hub)
    → run es new_hub ≡ moved h
    → run fs (register h) ≡ moved h'
    → let c = h.allocated in
      (is_registered c h'.clients ≡ true → stream h' c ≡ taken fs (register h))
      × ((rest : List Json) × (taken fs (register h) ≡ stream h' c ++ rest))
connect-stream es fs h h' before after =
    let (h1, ends, safe) = run_never_panics es in
    let here : h1 ≡ h = moved-injective h1 h (sym ends ∙ before) in
    let (safe', grown, opened) = register-Sound h (subst Safe here safe) in
    let (h2, ends', (s, grown', follows)) = run-Ran fs (register h) safe' in
    let there : h2 ≡ h' = moved-injective h2 h' (sym ends' ∙ after) in
    let f =
      subst (λ x. Follows h.allocated (register h) x (taken fs (register h))) there
        (follows h.allocated (omega arith)) in
    let fresh : stream (register h) h.allocated ≡ [] = ground arith in
    let (sent, rest, part, split) = f.prefix in
    (
      λ e. (f.stays e).1 ∙ ap (λ l. l ++ taken fs (register h)) fresh,
      (rest, split ∙ ap (λ l. l ++ rest) (sym (part ∙ ap (λ l. l ++ sent) fresh))),
    )
