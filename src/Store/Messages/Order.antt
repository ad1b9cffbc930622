-- ===== src/Store/Messages/Order.antt =====
-- message_repository.go: the listing of one status holds a row under its message_id exactly when the
-- table has it there with that status.
use fidex_go_node.Common.{
  String, Bool, none, some, List, [], ◌∷◌, ◌≡◌, ◌≢◌, ◌==◌, arith, refl, sym, eq_iff, if◌then◌else◌,
  All, All-select, Bool-cases, inl, inr, leb, select,
}
use fidex_go_node.Domain.{Message, MessageStatus, same_status}
use fidex_go_node.Errors.{ok}
use fidex_go_node.Store.Table.{find_row}
use fidex_go_node.Store.Table.Laws.{AreDistinct, IsFresh, kept, find_row-select, select-AreDistinct}
use fidex_go_node.Store.Messages.{
  Messages, key_of, insert_by_created, order_by_created, list_by_status,
}
use fidex_go_node.Store.Messages.Listing.{insert_by_created-All, order_by_created-All}

find_row-insert_by_created :
    (key : String) (m : Message) (ms : List Message)
    → IsFresh key_of m.message_id ms
    → find_row key_of key (insert_by_created m ms)
      ≡ (if m.message_id == key then some m else find_row key_of key ms)
unfolding find_row insert_by_created
find_row-insert_by_created key m [] f = refl
find_row-insert_by_created key m (n ∷ ms) (p, f) =
    ground (
      arith,
      find_row-insert_by_created key m ms f,
      eq_iff m.message_id key,
      eq_iff n.message_id key,
    )

insert_by_created-AreDistinct :
    (m : Message) (ms : List Message)
    → IsFresh key_of m.message_id ms
    → AreDistinct key_of ms
    → AreDistinct key_of (insert_by_created m ms)
unfolding insert_by_created
insert_by_created-AreDistinct m [] f d = (tt, tt)
insert_by_created-AreDistinct m (n ∷ ms) (p, f) (g, d) =
    elim (Bool-cases (leb m.created_at n.created_at)) [
      | inl e ↦ rw e ((p, f), (g, d))
      | inr e ↦ rw e (
        insert_by_created-All (λ x. x.message_id ≢ n.message_id) m ms (λ h. p (sym h)) g,
        insert_by_created-AreDistinct m ms f d,
      )
    ]

find_row-order_by_created :
    (key : String) (ms : List Message)
    → AreDistinct key_of ms
    → find_row key_of key (order_by_created ms) ≡ find_row key_of key ms
unfolding find_row order_by_created
find_row-order_by_created key [] d = refl
find_row-order_by_created key (m ∷ ms) (f, d) =
    rw
      (
        find_row-insert_by_created key m (order_by_created ms)
            (order_by_created-All (λ x. x.message_id ≢ m.message_id) ms f),
        find_row-order_by_created key ms d,
      )
      refl

order_by_created-AreDistinct :
    (ms : List Message) → AreDistinct key_of ms → AreDistinct key_of (order_by_created ms)
unfolding order_by_created
order_by_created-AreDistinct [] d = tt
order_by_created-AreDistinct (m ∷ ms) (f, d) =
    insert_by_created-AreDistinct m (order_by_created ms)
      (order_by_created-All (λ x. x.message_id ≢ m.message_id) ms f)
      (order_by_created-AreDistinct ms d)

module _ (t : Messages) (status : MessageStatus) (listed : List Message)
    (d : AreDistinct key_of t.rows) (h : list_by_status none t status ≡ ok listed) where
  abbrev has_status : Message → Bool
  has_status m = same_status m.status status

  listed_lem : order_by_created (select has_status t.rows) ≡ listed
  unfolding list_by_status
  listed_lem = cc

  pub list_by_status-AreDistinct : AreDistinct key_of listed
  list_by_status-AreDistinct =
      rw (← listed_lem)
        (order_by_created-AreDistinct _ (select-AreDistinct key_of has_status t.rows d))

  pub find_row-list_by_status :
      (key : String) → find_row key_of key listed ≡ kept has_status (find_row key_of key t.rows)
  find_row-list_by_status key =
      rw
        (
          ← listed_lem,
          find_row-order_by_created key _ (select-AreDistinct key_of has_status t.rows d),
        )
        (find_row-select key_of has_status key t.rows d)

  pub list_by_status-All : (P : Message → Type 0) → All P t.rows → All P listed
  list_by_status-All P a =
      rw (← listed_lem) (order_by_created-All P _ (All-select P has_status t.rows a))
