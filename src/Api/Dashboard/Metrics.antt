-- ===== src/Api/Dashboard/Metrics.antt =====
-- dashboard_handlers.go, metricsHandler: what its numbers count.
use fidex_go_node.Common.{
  ℕ, ◌+◌, ◌-◌, ◌*◌, List, [], ◌∷◌, none, some, ◌≡◌, arith, refl, ltb, same_number, if◌then◌else◌,
  length, Bool-cases, Option-cases, inl, inr,
}
use fidex_go_node.Domain.{
  Message, MessageStatus, queued, sent, delivered, failed, quarantined, same_status,
  same_status_iff,
}
use fidex_go_node.Store.{Fault}
use fidex_go_node.Store.Messages.{Messages, count_since, groups, count_by_status_since}
use fidex_go_node.Store.Partners
use fidex_go_node.Store.Partners.{Partners}
use fidex_go_node.Api.Dashboard.{metrics, count_of}

-- What the map of counts holds of a status.
abbrev among : MessageStatus → List MessageStatus → ℕ → ℕ
among s [] n = 0
among s (k ∷ ks) n = if same_status k s then n else among s ks n

among-zero : (s : MessageStatus) (ks : List MessageStatus) → among s ks 0 ≡ 0
among-zero s [] = refl
among-zero s (k ∷ ks) = ground (arith, among-zero s ks)

count_of-groups :
    (since : ℕ) (s : MessageStatus) (ks : List MessageStatus) (rows : List Message)
    → count_of s (groups since ks rows) ≡ among s ks (count_since since s rows)
unfolding groups
count_of-groups since s [] rows = refl
count_of-groups since s (k ∷ ks) rows =
    let later = count_of-groups since s ks rows in
    elim (Bool-cases (same_status k s)) [
      | inr other ↦ ground (arith, later)
      | inl same ↦
          let one : k ≡ s = (same_status_iff k s).0 same in
          rw one (elim (Bool-cases (same_number (count_since since s rows) 0)) [
            | inr some_rows ↦ ground (arith, (same_status_iff s s).1 refl)
            | inl no_rows ↦ ground (arith, later, (same_status_iff s s).1 refl, among-zero s ks)
          ])
    ]

-- A number that is read from the database, or 0 when it reports a fault.
abbrev unless_fault : Fault → ℕ → ℕ
unless_fault none n = n
unless_fault (some e) n = 0

-- The metrics count the rows of the last 24 hours with the status DELIVERED, QUEUED and FAILED, and
-- all partners; a fault of the database makes its own numbers 0 and no other. There is a success
-- rate exactly when one of the three counts is positive, and it is the delivered part of their sum.
metrics_lem :
    (now : ℕ) (message_fault partner_fault : Fault) (t : Messages) (partners : Partners)
    → let m = metrics now message_fault partner_fault t partners in
      let counted : MessageStatus → ℕ =
        λ s. unless_fault message_fault (count_since (now - 24 * 60 * 60 * 1000000000) s t.rows) in
      (m.messages_delivered ≡ counted delivered)
      × (m.messages_queued ≡ counted queued)
      × (m.messages_failed ≡ counted failed)
      × (m.active_partners ≡ unless_fault partner_fault (length partners.rows))
      × (m.success_rate ≡ (
          let total = counted delivered + counted queued + counted failed in
          if ltb 0 total then some (counted delivered, total) else none))
unfolding metrics count_by_status_since Partners.count
metrics_lem now none partner_fault t partners =
    let since = now - 24 * 60 * 60 * 1000000000 in
    let all = queued ∷ sent ∷ delivered ∷ failed ∷ quarantined ∷ [] in
    ground (
      arith,
      count_of-groups since delivered all t.rows,
      count_of-groups since queued all t.rows,
      count_of-groups since failed all t.rows,
      Option-cases partner_fault,
    )
metrics_lem now (some e) partner_fault t partners = ground (arith, Option-cases partner_fault)
