-- ===== src/Store/Table.antt =====
-- A table of SQLite with a UNIQUE text column, as a list of rows in the order of insertion, and the
-- statements that name one value of that column.
pub mod Laws
use fidex_go_node.Common.{
  String, Bool, true, false, Option, none, some, List, [], ◌∷◌, ◌==◌, if◌then◌else◌,
}

module _ {R : Type 0} (key_of : R → String) where
  -- SELECT … WHERE key = ?
  unfoldable pub find_row : String → List R → Option R
  find_row key [] = none
  find_row key (r ∷ rows) = if key_of r == key then some r else find_row key rows

  -- UPDATE … WHERE key = ?
  unfoldable pub update_rows : String → (R → R) → List R → List R
  update_rows key f [] = []
  update_rows key f (r ∷ rows) =
      let rest = update_rows key f rows in if key_of r == key then f r ∷ rest else r ∷ rest

  -- DELETE … WHERE key = ?
  unfoldable pub delete_rows : String → List R → List R
  delete_rows key [] = []
  delete_rows key (r ∷ rows) =
      let rest = delete_rows key rows in if key_of r == key then rest else r ∷ rest

-- The same with a condition on other columns.
module _ {R : Type 0} where
  abbrev pub update_where : (R → Bool) → (R → R) → List R → List R
  update_where p f [] = []
  update_where p f (r ∷ rows) =
      let rest = update_where p f rows in if p r then f r ∷ rest else r ∷ rest

  abbrev pub find_where : (R → Bool) → List R → Option R
  find_where p [] = none
  find_where p (r ∷ rows) = if p r then some r else find_where p rows

  abbrev pub is_found : Option R → Bool
  is_found none = false
  is_found (some r) = true
