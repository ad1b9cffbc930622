-- ===== src/Store.antt =====
-- internal/repository: the SQLite tables, as lists of rows in the order of insertion. Each
-- statement takes what the driver reports of it: `some text` is an error, and then the statement
-- has changed nothing.
pub mod Table
pub mod Messages
pub mod Partners
pub mod Sessions
pub mod Users
use fidex_go_node.Common.{
  ℕ, String, Bool, true, Option, [], ◌∷◌, ◌≡◌, ◌||◌, contains, sprint, same_number, if◌then◌else◌,
}
use fidex_go_node.Errors.{Error, plain}

abbrev pub Fault : Type 0
Fault = Option String

-- The driver's text for a broken UNIQUE constraint; `isUniqueConstraint` looks for it.
unfoldable pub is_unique_constraint : String → Bool
is_unique_constraint msg =
    contains msg "UNIQUE constraint failed" || contains msg "constraint failed: UNIQUE"

pub record Driver : Type 0 where
  pub unique_error : String
  pub unique_error_reported : is_unique_constraint unique_error ≡ true

-- A time that the caller may leave zero.
abbrev pub or_now : ℕ → ℕ → ℕ
or_now at now = if same_number at 0 then now else at

abbrev pub not_found : String → String → Error
not_found what key = plain (sprint (what ∷ key ∷ []))

abbrev pub failure : String → String → Error
failure what e = plain (sprint ("failed to " ∷ what ∷ ": " ∷ e ∷ []))
