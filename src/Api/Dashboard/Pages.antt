-- ===== src/Api/Dashboard/Pages.antt =====
-- dashboard_handlers.go, messagesHandler: the pages against the whole listing.
use Prim.Native.Nat.{◌/◌}
use fidex_go_node.Common.{
  ℕ, zero, suc, ◌+◌, ◌-◌, ◌*◌, ◌^◌, ◌≤◌, ◌<◌, String, Option, none, some, Bool-cases, Option-cases,
  inl, inr, List, [], ◌∷◌, ◌++◌, ◌≡◌, ◌∙◌, arith, refl, ap, if◌then◌else◌, length, take, drop,
  select, decimal, pos, negsuc, is_empty, wrap_int64, wrap_int64-small,
}
use native.Mathlib.Nat.{div-mul-le_self, lt-div-mul-add}
use fidex_go_node.Errors.{ok, Result-cases}
use fidex_go_node.Domain.{Message, MessageStatus}
use fidex_go_node.Store.Messages.{Messages, matches, order_by_age, list_paginated, page_limit}
use fidex_go_node.Strconv.{atoi, atoi-decimal}
use fidex_go_node.Api.Dashboard.{
  Query, messages, MessagesReply, refused, listed, MessageListResponse, list_filtered, list_with,
  limit_of, offset_of, status_named,
}

module _ {ℓ} {A : Type ℓ} where
  take_nil : (n : ℕ) → take {A = A} n [] ≡ []
  take_nil zero = refl
  take_nil (suc n) = refl

  take-append : (n m : ℕ) (xs : List A) → take n xs ++ take m (drop n xs) ≡ take (n + m) xs
  take-append zero m xs = ap (λ k. take k xs) (omega arith)
  take-append (suc n) m [] = rw (take_nil m, take_nil (suc n + m)) refl
  take-append (suc n) m (x ∷ xs) =
      let same : suc (n + m) ≡ suc n + m = omega arith in
      ap (λ ys. x ∷ ys) (take-append n m xs) ∙ ap (λ k. take k (x ∷ xs)) same

  drop_nil : (n : ℕ) → drop {A = A} n [] ≡ []
  drop_nil zero = refl
  drop_nil (suc n) = refl

  drop-drop : (n m : ℕ) (xs : List A) → drop n (drop m xs) ≡ drop (m + n) xs
  drop-drop n zero xs = ap (λ k. drop k xs) (omega arith)
  drop-drop n (suc m) [] = rw (drop_nil n, drop_nil (suc m + n)) refl
  drop-drop n (suc m) (x ∷ xs) =
      let same : suc (m + n) ≡ suc m + n = omega arith in
      drop-drop n m xs ∙ ap (λ k. drop k (x ∷ xs)) same

  take_all : (n : ℕ) (xs : List A) → length xs ≤ n → take n xs ≡ xs
  take_all zero [] h = refl
  take_all zero (x ∷ xs) h = ground arith
  take_all (suc n) [] h = refl
  take_all (suc n) (x ∷ xs) h = ground (arith, take_all n xs)

abbrev rows_of : MessagesReply → List Message
rows_of (refused r) = []
rows_of (listed l) = l.messages

-- The messages of a status, or all of them, in the order in which the dashboard shows them.
abbrev named_listing : Messages → Option MessageStatus → List Message
named_listing t none = []
named_listing t (some s) = order_by_age (select (matches (some s)) t.rows)

abbrev pub listing : Messages → String → List Message
listing t status =
    if is_empty status
    then order_by_age (select (matches none) t.rows)
    else named_listing t (status_named status)

-- The query of a client that asks for `limit` messages from the position `offset` on.
abbrev ask : ℕ → ℕ → String → Query
ask limit offset status = record { limit = decimal limit; offset = decimal offset; status = status }

module _ (t : Messages) (status : String) (limit : ℕ) where
  -- What a client sees that reads `pages` pages one after the other.
  abbrev pub collect : ℕ → ℕ → List Message
  collect zero offset = []
  collect (suc pages) offset =
      rows_of (messages none none t (ask limit offset status)) ++ collect pages (offset + limit)

  module _ (positive : 0 < limit) (bounded : limit ≤ 100) where
    limit_kept : limit_of (decimal limit) ≡ limit
    unfolding limit_of
    limit_kept = rw (atoi-decimal limit (omega arith)) (ground arith)

    offset_kept : (offset : ℕ) → offset < 2 ^ 63 → offset_of (decimal offset) ≡ offset
    unfolding offset_of
    offset_kept offset small = rw (atoi-decimal offset small) refl

    page_rows :
        (offset : ℕ)
        → offset < 2 ^ 63
        → rows_of (messages none none t (ask limit offset status))
          ≡ take limit (drop offset (listing t status))
    unfolding messages list_filtered list_with list_paginated
    page_rows offset small =
        let width : page_limit (pos limit) ≡ limit = ground arith in
        elim (Bool-cases (is_empty status)) [
          | inl all ↦ rw (limit_kept, offset_kept offset small, all, width) refl
          | inr one ↦ elim (Option-cases (status_named status)) [
            | inl unknown ↦
                rw
                  (
                    limit_kept,
                    offset_kept offset small,
                    one,
                    unknown,
                    drop_nil offset,
                    take_nil limit,
                  )
                  refl
            | inr (s, known) ↦ rw (limit_kept, offset_kept offset small, one, known, width) refl
          ]
        ]

    collect_lem :
        (pages offset : ℕ)
        → offset + pages * limit < 2 ^ 63
        → collect pages offset ≡ take (pages * limit) (drop offset (listing t status))
    collect_lem zero offset small =
        let none_read : 0 ≡ 0 * limit = omega arith in
        ap (λ k. take k (drop offset (listing t status))) none_read
    collect_lem (suc pages) offset small =
        let all = listing t status in
        let width : limit + pages * limit ≡ suc pages * limit = omega arith in
        rw
          (
            page_rows offset (omega arith),
            collect_lem pages (offset + limit) (omega arith),
            ← drop-drop limit offset all,
            take-append limit (pages * limit) (drop offset all),
          )
          (ap (λ k. take k (drop offset all)) width)

    -- A client that asks for one page after the other, with any limit from 1 to 100 and any
    -- status or none, until the pages cover all rows, has read the whole listing: every message of
    -- that status once, in the listing's order. The offsets fit an int64, and the table does not
    -- change and reports no fault meanwhile.
    pub collect-listing :
        (pages : ℕ)
        → pages * limit < 2 ^ 63
        → length (listing t status) ≤ pages * limit
        → collect pages 0 ≡ listing t status
    collect-listing pages small enough =
        collect_lem pages 0 (omega arith) ∙ take_all (pages * limit) (listing t status) enough

limit_of_bounded : (s : String) → (1 ≤ limit_of s) × (limit_of s ≤ 100)
unfolding limit_of
limit_of_bounded s = elim (Option-cases (atoi s)) [
  | inl bad ↦ rw bad (omega arith, omega arith)
  | inr (pos n, read) ↦ rw read (ground arith)
  | inr (negsuc n, read) ↦ rw read (omega arith, omega arith)
]

length-take : (n : ℕ) (ms : List Message) → length (take n ms) ≤ n
length-take zero ms = omega arith
length-take (suc n) [] = omega arith
length-take (suc n) (m ∷ ms) = omega (arith, length-take n ms)

list_filtered_bounded :
    (t : Messages) (status : String) (limit offset : ℕ) (rows : List Message) (total : ℕ)
    → 1 ≤ limit
    → list_filtered none none t status limit offset ≡ ok (rows, total)
    → length rows ≤ limit
unfolding list_filtered list_with list_paginated
list_filtered_bounded t status limit offset rows total positive h =
    let short = length-take limit (drop offset (order_by_age (select (matches none) t.rows))) in
    elim (Option-cases (status_named status)) [
      | inl unknown ↦ ground (arith, short)
      | inr (s, known) ↦ ground (
        arith,
        short,
        length-take limit (drop offset (order_by_age (select (matches (some s)) t.rows))),
      )
    ]

quotient-le : (n k : ℕ) → 1 ≤ k → n / k ≤ n
quotient-le n k h =
    let low = div-mul-le_self n k in
    let more : n / k * 1 ≤ n / k * k = grind (arith, h) in omega (arith, low, more)

-- Whatever the query says, the answer has a page size between 1 and 100 and no more messages than
-- that. When the offset is not the largest int64, it has the number of the page in which the offset
-- lies, counted from 1.
pub messages_bounded :
    (t : Messages) (q : Query) (l : MessageListResponse)
    → messages none none t q ≡ listed l
    → (1 ≤ l.per_page)
      × (l.per_page ≤ 100)
      × (length l.messages ≤ l.per_page)
      × (offset_of q.offset < 2 ^ 63 - 1
          → (number : ℕ) × (l.page ≡ pos number)
            × (1 ≤ number)
            × ((number - 1) * l.per_page ≤ offset_of q.offset)
            × (offset_of q.offset < number * l.per_page))
unfolding messages
messages_bounded t q l h =
    let limit = limit_of q.limit in
    let offset = offset_of q.offset in
    let (least, most) = limit_of_bounded q.limit in
    elim (Result-cases (list_filtered none none t q.status limit offset)) [
      | inr (e, bad) ↦ ground arith
      | inl ((rows, total), good) ↦
          let size : l.per_page ≡ limit = ground arith in
          let number : l.page ≡ wrap_int64 (offset / limit + 1) = ground arith in
          let shown : l.messages ≡ rows = ground arith in
          let same : offset / limit + 1 - 1 ≡ offset / limit = omega arith in
          rw (size, number, shown)
            (
              least,
              most,
              list_filtered_bounded t q.status limit offset rows total least good,
              λ small.
                  let below : offset / limit + 1 < 2 ^ 63 =
                    omega (arith, small, quotient-le offset limit least) in
                  (
                    offset / limit + 1,
                    wrap_int64-small (offset / limit + 1) below,
                    omega arith,
                    rw same (div-mul-le_self offset limit),
                    grind (arith, lt-div-mul-add {a = offset} {b = limit} least),
                  ),
            )
    ]
