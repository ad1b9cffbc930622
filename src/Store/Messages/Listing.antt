-- ===== src/Store/Messages/Listing.antt =====
-- message_repository.go: what the listings return.
use fidex_go_node.Common.{
  ℤ, ℕ, zero, suc, ◌-◌, ◌≤◌, Option, none, List, [], ◌∷◌, ◌≡◌, inl, inr, arith, refl, leb, leb→le,
  leb_false→lt, All, All-mono, Bool-cases, length, take, drop, select,
}
use Prim.Native.Nat.{min}
use mathlib.Core.List.{Perm}
use mathlib.Core.List.Perm
use fidex_go_node.Errors.{ok}
use fidex_go_node.Domain.{Message, MessageStatus, same_status, same_status_iff}
use fidex_go_node.Store.Messages.{
  Messages, insert_by_created, order_by_created, list_by_status, page_limit, page_offset,
  insert_by_age, order_by_age, matches, list_paginated,
}

-- Older rows come first.
abbrev IsOrdered : List Message → Type 0
IsOrdered [] = Unit
IsOrdered (m ∷ ms) = All (λ n. m.created_at ≤ n.created_at) ms × IsOrdered ms

pub insert_by_created-All :
    (P : Message → Type 0) (m : Message) (ms : List Message)
    → P m
    → All P ms
    → All P (insert_by_created m ms)
unfolding insert_by_created
insert_by_created-All P m [] p h = (p, tt)
insert_by_created-All P m (n ∷ ms) p (q, h) = ground (arith, insert_by_created-All P m ms p h)

insert_by_created-IsOrdered :
    (m : Message) (ms : List Message) → IsOrdered ms → IsOrdered (insert_by_created m ms)
unfolding insert_by_created
insert_by_created-IsOrdered m [] h = (tt, tt)
insert_by_created-IsOrdered m (n ∷ ms) (g, h) = elim (Bool-cases (leb m.created_at n.created_at)) [
  | inl e ↦ rw e (
    (
      leb→le _ _ e,
      All-mono (λ x (q : n.created_at ≤ x.created_at). omega (arith, leb→le _ _ e)) ms g,
    ),
    (g, h),
  )
  | inr e ↦ rw e (
    insert_by_created-All (λ x. n.created_at ≤ x.created_at) m ms
        (omega (arith, leb_false→lt _ _ e)) g,
    insert_by_created-IsOrdered m ms h,
  )
]

insert_by_created-perm : (m : Message) (ms : List Message) → Perm (insert_by_created m ms) (m ∷ ms)
unfolding insert_by_created
insert_by_created-perm m [] = Perm.rfl
insert_by_created-perm m (n ∷ ms) = elim (Bool-cases (leb m.created_at n.created_at)) [
  | inl e ↦ rw e Perm.rfl
  | inr e ↦ rw e (Perm.trans (Perm.cons n (insert_by_created-perm m ms)) (Perm.swap m n ms))
]

order_by_created-IsOrdered : (ms : List Message) → IsOrdered (order_by_created ms)
unfolding order_by_created
order_by_created-IsOrdered [] = tt
order_by_created-IsOrdered (m ∷ ms) =
    insert_by_created-IsOrdered m _ (order_by_created-IsOrdered ms)

order_by_created-perm : (ms : List Message) → Perm (order_by_created ms) ms
unfolding order_by_created
order_by_created-perm [] = Perm.rfl
order_by_created-perm (m ∷ ms) =
    Perm.trans (insert_by_created-perm m (order_by_created ms))
      (Perm.cons m (order_by_created-perm ms))

pub order_by_created-All :
    (P : Message → Type 0) (ms : List Message) → All P ms → All P (order_by_created ms)
unfolding order_by_created
order_by_created-All P [] h = tt
order_by_created-All P (m ∷ ms) (p, h) =
    insert_by_created-All P m (order_by_created ms) p (order_by_created-All P ms h)

select-status :
    (status : MessageStatus) (ms : List Message)
    → All (λ m. m.status ≡ status) (select (λ m. same_status m.status status) ms)
select-status status [] = tt
select-status status (m ∷ ms) =
    ground (arith, select-status status ms, same_status_iff m.status status)

-- ListByStatus returns the rows of the given status and no other, each as often as it stands in
-- the table, the older rows first.
list_by_status_lem :
    (t : Messages) (status : MessageStatus) (found : List Message)
    → list_by_status none t status ≡ ok found
    → IsOrdered found
      × All (λ m. m.status ≡ status) found
      × Perm found (select (λ m. same_status m.status status) t.rows)
unfolding list_by_status
list_by_status_lem t status found h =
    let kept = select (λ m. same_status m.status status) t.rows in
    let same : order_by_created kept ≡ found = cc in
    rw (← same) (
      order_by_created-IsOrdered kept,
      order_by_created-All (λ m. m.status ≡ status) kept (select-status status t.rows),
      order_by_created-perm kept,
    )

length-take-drop :
    (n k : ℕ) (ms : List Message) → length (take n (drop k ms)) ≡ min n (length ms - k)
length-take-drop zero k ms = omega arith
length-take-drop (suc n) zero [] = omega arith
length-take-drop (suc n) zero (m ∷ ms) = ground (arith, length-take-drop n 0 ms)
length-take-drop (suc n) (suc k) [] = omega arith
length-take-drop (suc n) (suc k) (m ∷ ms) = omega (arith, length-take-drop (suc n) k ms)

length-insert_by_age :
    (m : Message) (ms : List Message) → length (insert_by_age m ms) ≡ suc (length ms)
unfolding insert_by_age
length-insert_by_age m [] = refl
length-insert_by_age m (n ∷ ms) = ground (arith, length-insert_by_age m ms)

length-order_by_age : (ms : List Message) → length (order_by_age ms) ≡ length ms
unfolding order_by_age
length-order_by_age [] = refl
length-order_by_age (m ∷ ms) =
    omega (arith, length-insert_by_age m (order_by_age ms), length-order_by_age ms)

-- A page of ListPaginated: the total counts every matching row, whatever the page, and the page
-- holds as many rows as are left from its offset on, up to the limit. A limit below 1 is 20, and
-- an offset below 0 is 0.
list_paginated_lem :
    (t : Messages) (filter : Option MessageStatus) (limit offset : ℤ) (page : List Message)
    (total : ℕ)
    → list_paginated none none t filter limit offset ≡ ok (page, total)
    → (total ≡ length (select (matches filter) t.rows))
      × (length page ≡ min (page_limit limit) (total - page_offset offset))
unfolding list_paginated
list_paginated_lem t filter limit offset page total h =
    let found = select (matches filter) t.rows in
    ground (
      arith,
      length-take-drop (page_limit limit) (page_offset offset) (order_by_age found),
      length-order_by_age found,
    )
