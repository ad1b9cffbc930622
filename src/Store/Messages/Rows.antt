-- ===== src/Store/Messages/Rows.antt =====
-- message_repository.go: what holds of every row of the table `messages`.
use fidex_go_node.Common.{◌≤◌, false, ◌≡◌, ◌≢◌, All}
use fidex_go_node.Json.{is_empty_body}
use fidex_go_node.Domain.{Message}
use fidex_go_node.Store.Table.Laws.{AreDistinct}
use fidex_go_node.Store.Messages.{Messages, key_of}

-- What every statement keeps true of the rows.
abbrev pub IsComplete : Message → Type 0
IsComplete m = (m.message_id ≢ "") × (is_empty_body m.payload ≡ false) × (m.job_type ≢ "")

pub record IsValid (t : Messages) : Type 0 where
  pub distinct : AreDistinct key_of t.rows
  pub numbered : All (λ m. m.id ≤ t.sequence) t.rows
  pub complete : All IsComplete t.rows
