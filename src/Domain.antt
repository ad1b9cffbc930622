-- ===== src/Domain.antt =====
-- internal/domain/repositories.go and internal/constants/jobtypes.go: the rows that the
-- repositories keep. An instant is a number of nanoseconds, and 0 is Go's zero time; a pointer that
-- may be nil is an Option.
use fidex_go_node.Common.{ℕ, String, Bool, true, false, Option, List, ◌≡◌, ◌↔◌, ◌||◌, ◌==◌, arith}
use fidex_go_node.Json.{Body}

pub data MessageStatus : Type 0 where
  queued sent delivered failed quarantined : MessageStatus

pub data MessageDirection : Type 0 where
  inbound outbound : MessageDirection

pub record Message : Type 0 where
  pub id : ℕ
  pub message_id : String
  pub direction : MessageDirection
  pub status : MessageStatus
  pub payload : Body
  pub job_type : String
  pub retry_count : ℕ
  pub next_retry_at : Option ℕ
  pub last_error : String
  pub created_at : ℕ

pub record Partner : Type 0 where
  pub id : ℕ
  pub partner_id : String
  pub name : String
  pub jwks_url : String
  pub message_endpoint : String
  pub mdn_receipt_endpoint : String
  pub public_key_jwks : String
  pub supported_encryption_algorithms : List String
  pub last_key_refresh : Option ℕ
  pub created_at : ℕ
  pub updated_at : ℕ

pub record User : Type 0 where
  pub id : ℕ
  pub username : String
  pub password_hash : String
  pub created_at : ℕ

pub record Session : Type 0 where
  pub session_id : String
  pub user_id : ℕ
  pub expires_at : ℕ
  pub created_at : ℕ

abbrev pub job_type_process_outbound : String
job_type_process_outbound = "process_outbound"

abbrev pub job_type_send_jmdn : String
job_type_send_jmdn = "send_jmdn"

unfoldable is_known_job_type : String → Bool
is_known_job_type t = t == job_type_process_outbound || t == job_type_send_jmdn

abbrev pub same_status : MessageStatus → MessageStatus → Bool
same_status queued queued = true
same_status sent sent = true
same_status delivered delivered = true
same_status failed failed = true
same_status quarantined quarantined = true
same_status _ _ = false

pub same_status_iff : (s t : MessageStatus) → (same_status s t ≡ true) ↔ (s ≡ t)
same_status_iff s t = ground arith
