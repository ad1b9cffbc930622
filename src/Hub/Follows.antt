-- ===== src/Hub/Follows.antt =====
-- websocket.go: the states of the hub in which nothing can panic, and what a client's stream is
-- against the messages that the hub takes.
use fidex_go_node.Common.{
  ◌<◌, true, false, List, [], ◌∷◌, ◌++◌, ◌≡◌, ◌∙◌, ap, sym, inl, inr, arith, refl, same_number,
  if◌then◌else◌, Bool-cases,
}
use fidex_go_node.Json.{Json}
use fidex_go_node.Hub.{Client, Hub, is_registered, remove}

-- No client is registered twice.
abbrev pub Distinct : List Client → Type 0
Distinct [] = Unit
Distinct (c ∷ cs) = (is_registered c cs ≡ false) × Distinct cs

-- Every registered client is one that was allocated, and its channel is open.
pub record Safe (h : Hub) : Type 0 where
  pub distinct : Distinct h.clients
  pub allocated : (c : Client) → is_registered c h.clients ≡ true → c < h.allocated
  pub sendable : (c : Client) → is_registered c h.clients ≡ true → (h.channels c).closed ≡ false

pub is_registered-remove :
    (c d : Client) (cs : List Client)
    → is_registered c (remove d cs) ≡ (if same_number c d then false else is_registered c cs)
unfolding is_registered
is_registered-remove c d [] = ground arith
is_registered-remove c d (e ∷ cs) = ground (arith, is_registered-remove c d cs)

pub remove-Distinct : (d : Client) (cs : List Client) → Distinct cs → Distinct (remove d cs)
remove-Distinct d [] h = tt
remove-Distinct d (c ∷ cs) (f, h) =
    ground (arith, is_registered-remove c d cs, remove-Distinct d cs h)

-- What a client has received and what waits for it, in order.
abbrev pub stream : Hub → Client → List Json
stream h c = (h.channels c).written ++ (h.channels c).buffer

-- What becomes of one client while the hub takes the messages `taken`: it is sent a first part of
-- them, and all of them if it is still registered afterwards; it never comes back.
pub record Follows (c : Client) (h h' : Hub) (taken : List Json) : Type 0 where
  pub stays :
      is_registered c h'.clients ≡ true
      → (is_registered c h.clients ≡ true) × (stream h' c ≡ stream h c ++ taken)
  pub gone : is_registered c h.clients ≡ false → stream h' c ≡ stream h c
  pub prefix :
      (sent : List Json) × (rest : List Json) × (stream h' c ≡ stream h c ++ sent)
      × (taken ≡ sent ++ rest)

append_nil : (xs : List Json) → xs ++ [] ≡ xs
append_nil [] = refl
append_nil (x ∷ xs) = ap (λ ys. x ∷ ys) (append_nil xs)

pub append_assoc : (xs ys zs : List Json) → (xs ++ ys) ++ zs ≡ xs ++ (ys ++ zs)
append_assoc [] ys zs = refl
append_assoc (x ∷ xs) ys zs = ap (λ l. x ∷ l) (append_assoc xs ys zs)

-- A step that leaves the client's registration and its stream as they are.
pub Follows-same :
    (c : Client) (h h' : Hub)
    → is_registered c h'.clients ≡ is_registered c h.clients
    → stream h' c ≡ stream h c
    → Follows c h h' []
Follows-same c h h' r s = record {
  stays = λ e. (sym r ∙ e, s ∙ sym (append_nil (stream h c)));
  gone = λ e. s;
  prefix = ([], [], s ∙ sym (append_nil (stream h c)), refl);
}

-- A step that unregisters the client, whatever was taken.
pub Follows-dropped :
    (c : Client) (h h' : Hub) (taken : List Json)
    → is_registered c h'.clients ≡ false
    → stream h' c ≡ stream h c
    → Follows c h h' taken
Follows-dropped c h h' taken r s = record {
  stays = λ e. ground arith;
  gone = λ e. s;
  prefix = ([], taken, s ∙ sym (append_nil (stream h c)), refl);
}

pub Follows-trans :
    (c : Client) (h h' h'' : Hub) (t u : List Json)
    → Follows c h h' t
    → Follows c h' h'' u
    → Follows c h h'' (t ++ u)
Follows-trans c h h' h'' t u f g = record {
  stays = λ e.
      let (r, s) = g.stays e in
      let (r', s') = f.stays r in (r', s ∙ ap (λ l. l ++ u) s' ∙ append_assoc (stream h c) t u);
  gone = λ e. elim (Bool-cases (is_registered c h'.clients)) [
    | inl there ↦ (let (r, s) = f.stays there in ground arith)
    | inr left ↦ g.gone left ∙ f.gone e
  ];
  prefix =
      let (sent, rest, s, split) = f.prefix in
      let (more, left, s', split') = g.prefix in
      elim (Bool-cases (is_registered c h'.clients)) [
        | inl there ↦
            let (r, all) = f.stays there in
            (
              t ++ more,
              left,
              s' ∙ ap (λ l. l ++ more) all ∙ append_assoc (stream h c) t more,
              ap (λ l. t ++ l) split' ∙ sym (append_assoc t more left),
            )
        | inr out ↦
            (sent, rest ++ u, g.gone out ∙ s, ap (λ l. l ++ u) split ∙ append_assoc sent rest u)
      ];
}
