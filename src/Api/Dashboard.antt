-- ===== src/Api/Dashboard.antt =====
-- internal/api/dashboard_handlers.go: the metrics and the pages of messages.
pub mod Discover
pub mod Qr
pub mod Discovered
pub mod Pages
pub mod Metrics
use Prim.Native.Nat.{◌/◌}
use fidex_go_node.Common.{
  wrap_int64, ℕ, ◌+◌, ◌-◌, ◌*◌, String, Option, none, some, List, [], ◌∷◌, ◌==◌, ◌&&◌, ◌||◌, ℤ, pos,
  is_empty, ltb, leb, if◌then◌else◌,
}
use fidex_go_node.Errors.{Result, ok, err}
use fidex_go_node.Domain.{
  Message, MessageStatus, queued, sent, delivered, failed, quarantined, same_status, Partner,
}
use fidex_go_node.Store.{Fault, failure}
use fidex_go_node.Store.Messages.{Messages, list_paginated, count_by_status_since}
use fidex_go_node.Store.Partners
use fidex_go_node.Store.Partners.{Partners}
use fidex_go_node.Strconv.{atoi}
use fidex_go_node.Api.{Reply, respond_with_error}

pub record DashboardMetrics : Type 0 where
  pub messages_delivered : ℕ
  pub messages_queued : ℕ
  pub messages_failed : ℕ
  -- The quotient of the two numbers, or 0.
  pub success_rate : Option (ℕ × ℕ)
  pub active_partners : ℕ
  pub system_status : String

abbrev no_metrics : DashboardMetrics
no_metrics = record {
  messages_delivered = 0;
  messages_queued = 0;
  messages_failed = 0;
  success_rate = none;
  active_partners = 0;
  system_status = "operational";
}

-- A missing key of the map of counts reads as 0.
abbrev pub count_of : MessageStatus → List (MessageStatus × ℕ) → ℕ
count_of s [] = 0
count_of s ((k, n) ∷ counts) = if same_status k s then n else count_of s counts

abbrev with_counts : Result (List (MessageStatus × ℕ)) → DashboardMetrics
with_counts (err e) = no_metrics
with_counts (ok counts) =
    let d = count_of delivered counts in
    let q = count_of queued counts in
    let f = count_of failed counts in
    record no_metrics {
      messages_delivered = d;
      messages_queued = q;
      messages_failed = f;
      success_rate = if ltb 0 (d + q + f) then some (d, d + q + f) else none;
    }

abbrev with_partners : Result ℕ → DashboardMetrics → DashboardMetrics
with_partners (err e) m = m
with_partners (ok n) m = record m { active_partners = n }

-- metricsHandler: a fault of the database leaves its numbers 0, and the answer is 200 all the same.
unfoldable pub metrics : ℕ → Fault → Fault → Messages → Partners → DashboardMetrics
metrics now message_fault partner_fault t partners =
    with_partners (Partners.count partner_fault partners)
      (with_counts (count_by_status_since message_fault t (now - 24 * 60 * 60 * 1000000000)))

pub record Query : Type 0 where
  pub limit : String
  pub offset : String
  pub status : String

abbrev limit_within : Option ℤ → ℕ
limit_within (some (pos n)) = if ltb 0 n && leb n 100 then n else 20
limit_within _ = 20

abbrev offset_within : Option ℤ → ℕ
offset_within (some (pos n)) = n
offset_within _ = 0

unfoldable pub limit_of : String → ℕ
limit_of s = limit_within (atoi s)

unfoldable pub offset_of : String → ℕ
offset_of s = offset_within (atoi s)

-- A status that the text names; a message of the table has no other.
unfoldable pub status_named : String → Option MessageStatus
status_named s =
    if s == "QUEUED"
    then some queued
    else if s == "SENT"
    then some sent
    else if s == "DELIVERED"
    then some delivered
    else if s == "FAILED"
    then some failed
    else if s == "QUARANTINED"
    then some quarantined
    else none

-- ListPaginated with a status that no row has.
abbrev list_nothing : Fault → Fault → Result (List Message × ℕ)
list_nothing (some e) fault = err (failure "count messages" e)
list_nothing none (some e) = err (failure "query messages" e)
list_nothing none none = ok ([], 0)

module _ (count_fault fault : Fault) (t : Messages) where
  unfoldable pub list_with : Option MessageStatus → ℕ → ℕ → Result (List Message × ℕ)
  list_with none limit offset = list_nothing count_fault fault
  list_with (some s) limit offset =
      list_paginated count_fault fault t (some s) (pos limit) (pos offset)

  unfoldable pub list_filtered : String → ℕ → ℕ → Result (List Message × ℕ)
  unfolding list_with
  list_filtered status limit offset =
      if is_empty status
      then list_paginated count_fault fault t none (pos limit) (pos offset)
      else list_with (status_named status) limit offset

pub record MessageListResponse : Type 0 where
  pub messages : List Message
  pub total : ℕ
  pub page : ℤ
  pub per_page : ℕ

pub data MessagesReply : Type 0 where
  refused : Reply → MessagesReply
  listed : MessageListResponse → MessagesReply

abbrev answer_page : ℕ → ℕ → Result (List Message × ℕ) → MessagesReply
answer_page limit offset (err e) = refused (respond_with_error 500 "Failed to query messages" e)
answer_page limit offset (ok (rows, total)) = listed record {
  messages = rows;
  total = total;
  page = wrap_int64 (offset / limit + 1);
  per_page = limit;
}

-- messagesHandler; the number of the page is an int.
unfoldable pub messages : Fault → Fault → Messages → Query → MessagesReply
messages count_fault fault t q =
    let limit = limit_of q.limit in
    let offset = offset_of q.offset in
    answer_page limit offset (list_filtered count_fault fault t q.status limit offset)
