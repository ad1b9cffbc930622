-- ===== src/Api/Receipt/Reconcile.antt =====
-- internal/api/external_handlers.go: what a receipt does to the rows of the table.
use fidex_go_node.Common.{
  to_upper_is, ◌||◌, String, true, false, Option, none, some, [], ◌∷◌, ◌≡◌, ◌≢◌, ◌==◌, inl, inr,
  arith, refl, eq_iff, if◌then◌else◌, Bool-cases, is_empty, sprint, contains, contains-append,
}
use fidex_go_node.Errors.{Error}
use fidex_go_node.Json.{Body, raw, json, decode, is_empty_body}
use fidex_go_node.Domain.{failed, Message, delivered, inbound}
use fidex_go_node.Crypto.{Jose, JmdnReceipt}
use fidex_go_node.Store.{Driver}
use fidex_go_node.Store.Table.{find_row}
use fidex_go_node.Store.Table.Laws.{find_row-append_found, find_row-update_rows}
use fidex_go_node.Store.Messages.{Messages, key_of, set_status, create, update_status}
use fidex_go_node.Store.Messages.Rows.{IsValid}
use fidex_go_node.Store.Messages.Create.{create-IsValid, create_cases, stored}
use fidex_go_node.Store.Messages.Update.{update_status-IsValid}
use fidex_go_node.Api.{Handlers}
use fidex_go_node.Api.Inbound.{draft}
use fidex_go_node.Api.Receipt.{
  FlatReceipt, decode_flat, Arrival, Shape, flat, Reading, shaped, unreadable, shape_of,
  receipt_message_id, new_status, disposition_of, reconcile, store_receipt, receipt_handler, finish,
  answer,
}

decoded_full :
    (body : Body) (r : FlatReceipt) → decode_flat body ≡ (r, true) → is_empty_body body ≡ false
unfolding decode_flat decode
decoded_full (raw t) r d = ground arith
decoded_full (json j) r d = refl

nothing_in_empty : contains "" "jmdn:" ≢ true
unfolding contains
nothing_in_empty h = ground arith

flat-ne-empty : (r : FlatReceipt) → receipt_message_id (flat r) ≢ ""
unfolding receipt_message_id
flat-ne-empty r h =
    let found =
      contains-append "jmdn:"
        (sprint (r.receipt.original_message_id ∷ ":" ∷ r.receipt.timestamp ∷ [])) in
    nothing_in_empty (rw h at found)

module _ (driver : Driver) (arrival : Arrival) where
  reconcile-IsValid :
      (t : Messages) (r : JmdnReceipt) → IsValid t → IsValid (reconcile driver arrival t r)
  unfolding reconcile
  reconcile-IsValid t r v = elim (Bool-cases (is_empty r.original_message_id)) [
    | inl b ↦ rw b v
    | inr b ↦ rw b (update_status-IsValid t _ arrival.update_fault v _)
  ]

  store_receipt_table :
      (t : Messages) (shape : Shape) (body : Body)
      → (store_receipt driver arrival t shape body).0
        ≡ (create driver arrival.now arrival.insert_fault t
            (draft (receipt_message_id shape) inbound delivered body arrival.now)).0
  unfolding store_receipt
  store_receipt_table t shape body = ground arith

  store_receipt-IsValid :
      (t : Messages) (shape : Shape) (body : Body)
      → IsValid t
      → IsValid (store_receipt driver arrival t shape body).0
  store_receipt-IsValid t shape body v =
      rw (store_receipt_table t shape body)
        (create-IsValid driver arrival.now arrival.insert_fault t _ v)

  store_receipt_quiet :
      (t : Messages) (r : FlatReceipt) (body : Body)
      → arrival.insert_fault ≡ none
      → is_empty_body body ≡ false
      → (store_receipt driver arrival t (flat r) body).1 ≡ none
  unfolding store_receipt create
  store_receipt_quiet t r body quiet full = ground (
    arith,
    driver.unique_error_reported,
    flat-ne-empty r,
    eq_iff (receipt_message_id (flat r)) "",
  )

  -- A row that stands in the table is found there after the receipt was stored.
  store_receipt_keeps :
      (t : Messages) (shape : Shape) (body : Body) (key : String) (row : Message)
      → find_row key_of key t.rows ≡ some row
      → find_row key_of key (store_receipt driver arrival t shape body).0.rows ≡ some row
  store_receipt_keeps t shape body key row f =
      let m = draft (receipt_message_id shape) inbound delivered body arrival.now in
      elim (create_cases driver arrival.now arrival.insert_fault t m) [
        | inl (same, _, _, _, _) ↦
            rw (store_receipt_table t shape body, same)
              (find_row-append_found key_of key t.rows (stored arrival.now t m) row f)
        | inr (same, _) ↦ rw (store_receipt_table t shape body, same) f
      ]

  reconcile_effect :
      (t : Messages) (r : JmdnReceipt) (key : String) (row : Message)
      → arrival.update_fault ≡ none
      → r.original_message_id ≢ ""
      → find_row key_of key t.rows ≡ some row
      → find_row key_of key (reconcile driver arrival t r).rows
        ≡ some (if r.original_message_id == key then set_status (new_status r.status) row else row)
  unfolding reconcile update_status
  reconcile_effect t r key row quiet named f = ground (
    arith,
    eq_iff r.original_message_id "",
    find_row-update_rows key_of r.original_message_id key (set_status (new_status r.status))
        (λ m. refl) t.rows,
  )

  finish-IsValid :
      (jose : Jose) (h : Handlers jose) (shape : Shape) (t : Messages) (problem : Option Error)
      → IsValid t
      → IsValid (finish driver arrival jose h shape t problem).0
  unfolding finish
  finish-IsValid jose h shape t none v = reconcile-IsValid t _ v
  finish-IsValid jose h shape t (some e) v = v

  answer-IsValid :
      (jose : Jose) (h : Handlers jose) (t : Messages) (body : Body) (reading : Reading)
      → IsValid t
      → IsValid (answer driver arrival jose h t body reading).0
  unfolding answer
  answer-IsValid jose h t body (unreadable m e) v = v
  answer-IsValid jose h t body (shaped shape) v =
      finish-IsValid jose h shape _ _ (store_receipt-IsValid t shape body v)

  module _ (jose : Jose) (h : Handlers jose) (t : Messages) (body : Body) where
    -- Whatever is posted as a receipt, the table of messages stays well-formed.
    receipt_handler-IsValid : IsValid t → IsValid (receipt_handler driver arrival jose h t body).0
    unfolding receipt_handler
    receipt_handler-IsValid v = answer-IsValid jose h t body (shape_of arrival.decode_error body) v

    handler_flat :
        (r : FlatReceipt)
        → decode_flat body ≡ (r, true)
        → r.receipt.original_message_id ≢ ""
        → shape_of arrival.decode_error body ≡ shaped (flat r)
    unfolding shape_of
    handler_flat r d named = ground (arith, eq_iff r.receipt.original_message_id "")

    -- When the database reports no fault, a flat receipt with an original_message_id settles the
    -- row that it names, inbound or outbound, and no other row that was there: FAILED for
    -- a status of FAILED or ERROR in any case, DELIVERED for every other. The signature, the signer
    -- and whether the receipt was seen before make no difference.
    pub flat_receipt_effect :
        (r : FlatReceipt) (key : String) (row : Message)
        → decode_flat body ≡ (r, true)
        → r.receipt.original_message_id ≢ ""
        → arrival.insert_fault ≡ none
        → arrival.update_fault ≡ none
        → find_row key_of key t.rows ≡ some row
        → find_row key_of key (receipt_handler driver arrival jose h t body).0.rows
          ≡ some (
              if r.receipt.original_message_id == key
              then set_status
                  (if to_upper_is r.receipt.status "FAILED" || to_upper_is r.receipt.status "ERROR"
                    then failed
                    else delivered)
                  row
              else row)
    unfolding receipt_handler answer finish disposition_of new_status
    flat_receipt_effect r key row d named quiet calm f =
        let after = (store_receipt driver arrival t (flat r) body).0 in
        let kept = store_receipt_keeps t (flat r) body key row f in
        let stored_ok = store_receipt_quiet t r body quiet (decoded_full body r d) in
        let same = handler_flat r d named in
        ground (arith, same, stored_ok, reconcile_effect after r.receipt key row calm named kept)
