-- ===== src/Store/Table/Laws.antt =====
-- How one row of a table is found, changed and removed, and what holds of every row.
use fidex_go_node.Common.{
  String, Bool, true, Option, none, some, List, [], ◌∷◌, ◌++◌, ◌≡◌, ◌≢◌, ◌==◌, arith, refl,
  if◌then◌else◌, eq_iff, All, All-append, All-select, select, Bool-cases, inl, inr, sym,
}
use mathlib.Core.Path.{subst}
use mathlib.Core.Option.{some-injective}
use fidex_go_node.Store.Table.{find_row, update_rows, delete_rows}

-- What `update_rows` makes of a row that was looked up.
abbrev pub changed : {R : Type 0} → Bool → (R → R) → Option R → Option R
changed true f (some m) = some (f m)
changed _ f o = o

-- A row that was looked up, if it passes a test.
abbrev pub kept : {R : Type 0} → (R → Bool) → Option R → Option R
kept keep none = none
kept keep (some r) = if keep r then some r else none

module _ {R : Type 0} (key_of : R → String) where
  abbrev pub Keeps : (R → R) → Type 0
  Keeps f = (m : R) → key_of (f m) ≡ key_of m

  pub find_row-append :
      (key : String) (rows : List R) (m : R)
      → find_row key_of key rows ≡ none
      → find_row key_of key (rows ++ m ∷ []) ≡ (if key_of m == key then some m else none)
  unfolding find_row
  find_row-append key [] m h = refl
  find_row-append key (n ∷ rows) m h = ground (arith, find_row-append key rows m)

  pub find_row-append_found :
      (key : String) (rows : List R) (m n : R)
      → find_row key_of key rows ≡ some n
      → find_row key_of key (rows ++ m ∷ []) ≡ some n
  unfolding find_row
  find_row-append_found key [] m n h = ground arith
  find_row-append_found key (x ∷ rows) m n h = ground (arith, find_row-append_found key rows m n)

  find_row-append_other :
      (key : String) (rows : List R) (m : R)
      → key_of m ≢ key
      → find_row key_of key (rows ++ m ∷ []) ≡ find_row key_of key rows
  unfolding find_row
  find_row-append_other key [] m h = ground (arith, eq_iff (key_of m) key)
  find_row-append_other key (n ∷ rows) m h = ground (arith, find_row-append_other key rows m h)

  -- A change of the rows of one message_id shows at that message_id, and nowhere else.
  pub find_row-update_rows :
      (key other : String) (f : R → R) (keeps : Keeps f) (rows : List R)
      → find_row key_of other (update_rows key_of key f rows)
        ≡ changed (key == other) f (find_row key_of other rows)
  unfolding find_row update_rows
  find_row-update_rows key other f keeps [] = ground arith
  find_row-update_rows key other f keeps (m ∷ rows) = ground (
    arith,
    find_row-update_rows key other f keeps rows,
    keeps m,
    eq_iff (key_of m) key,
    eq_iff (key_of m) other,
    eq_iff key other,
  )

  pub find_row-delete_rows :
      (key other : String) (rows : List R)
      → find_row key_of other (delete_rows key_of key rows)
        ≡ (if key == other then none else find_row key_of other rows)
  unfolding find_row delete_rows
  find_row-delete_rows key other [] = ground arith
  find_row-delete_rows key other (m ∷ rows) = ground (
    arith,
    find_row-delete_rows key other rows,
    eq_iff (key_of m) key,
    eq_iff (key_of m) other,
    eq_iff key other,
  )

  pub find_row_key :
      (key : String) (rows : List R) (m : R) → find_row key_of key rows ≡ some m → key_of m ≡ key
  unfolding find_row
  find_row_key key [] m h = ground arith
  find_row_key key (n ∷ rows) m h = ground (arith, find_row_key key rows m, eq_iff (key_of n) key)

  pub find_row-All :
      (P : R → Type 0) (key : String) (rows : List R) (m : R)
      → All P rows
      → find_row key_of key rows ≡ some m
      → P m
  unfolding find_row
  find_row-All P key [] m a h = ground arith
  find_row-All P key (n ∷ rows) m (p, a) h = elim (Bool-cases (key_of n == key)) [
    | inl e ↦ subst P (some-injective n m (rw e at h)) p
    | inr e ↦ find_row-All P key rows m a (rw e at h)
  ]

  abbrev pub IsFresh : String → List R → Type 0
  IsFresh key rows = All (λ m. key_of m ≢ key) rows

  abbrev pub AreDistinct : List R → Type 0
  AreDistinct [] = Unit
  AreDistinct (m ∷ rows) = IsFresh (key_of m) rows × AreDistinct rows

  pub find_row-IsFresh :
      (key : String) (rows : List R) → find_row key_of key rows ≡ none → IsFresh key rows
  unfolding find_row
  find_row-IsFresh key [] h = tt
  find_row-IsFresh key (m ∷ rows) h =
      ground (arith, find_row-IsFresh key rows, eq_iff (key_of m) key)

  pub AreDistinct-append :
      (rows : List R) (m : R)
      → AreDistinct rows
      → IsFresh (key_of m) rows
      → AreDistinct (rows ++ m ∷ [])
  AreDistinct-append [] m d f = (tt, tt)
  AreDistinct-append (n ∷ rows) m (g, d) (p, f) = (
    All-append (λ x. key_of x ≢ key_of n) rows (m ∷ []) g (λ e. p (sym e), tt),
    AreDistinct-append rows m d f,
  )

  -- A predicate that a change keeps holds of all rows after it.
  pub update_rows-All :
      (P : R → Type 0) (key : String) (f : R → R)
      → ((m : R) → P m → P (f m))
      → (rows : List R) → All P rows
      → All P (update_rows key_of key f rows)
  unfolding update_rows
  update_rows-All P key f keep [] h = tt
  update_rows-All P key f keep (m ∷ rows) (p, h) =
      ground (arith, keep m p, update_rows-All P key f keep rows h)

  pub delete_rows-All :
      (P : R → Type 0) (key : String) (rows : List R)
      → All P rows
      → All P (delete_rows key_of key rows)
  unfolding delete_rows
  delete_rows-All P key [] h = tt
  delete_rows-All P key (m ∷ rows) (p, h) = ground (arith, delete_rows-All P key rows h)

  pub update_rows-AreDistinct :
      (key : String) (f : R → R) (keeps : Keeps f) (rows : List R)
      → AreDistinct rows
      → AreDistinct (update_rows key_of key f rows)
  unfolding update_rows
  update_rows-AreDistinct key f keeps [] d = tt
  update_rows-AreDistinct key f keeps (m ∷ rows) (g, d) =
      let later = update_rows-AreDistinct key f keeps rows d in
      let apart = update_rows-All (λ x. key_of x ≢ key_of m) key f (λ x n. rw (keeps x) n) rows g in
      elim (Bool-cases (key_of m == key)) [
        | inl e ↦ rw (e, keeps m) (apart, later)
        | inr e ↦ rw e (apart, later)
      ]

  pub delete_rows-AreDistinct :
      (key : String) (rows : List R) → AreDistinct rows → AreDistinct (delete_rows key_of key rows)
  unfolding delete_rows
  delete_rows-AreDistinct key [] d = tt
  delete_rows-AreDistinct key (m ∷ rows) (g, d) = ground (
    arith,
    delete_rows-AreDistinct key rows d,
    delete_rows-All (λ x. key_of x ≢ key_of m) key rows g,
  )

  -- What is found after a row with a new key was inserted.
  pub find_row-insert :
      (other : String) (rows : List R) (m : R)
      → find_row key_of (key_of m) rows ≡ none
      → find_row key_of other (rows ++ m ∷ [])
        ≡ (if key_of m == other then some m else find_row key_of other rows)
  unfolding find_row
  find_row-insert other [] m h = refl
  find_row-insert other (n ∷ rows) m h = ground (
    arith,
    find_row-insert other rows m,
    eq_iff (key_of n) (key_of m),
    eq_iff (key_of n) other,
    eq_iff (key_of m) other,
  )

  pub find_row_of_IsFresh :
      (key : String) (rows : List R) → IsFresh key rows → find_row key_of key rows ≡ none
  unfolding find_row
  find_row_of_IsFresh key [] f = refl
  find_row_of_IsFresh key (m ∷ rows) (p, f) =
      ground (arith, find_row_of_IsFresh key rows f, eq_iff (key_of m) key)

  pub select-AreDistinct :
      (keep : R → Bool) (rows : List R) → AreDistinct rows → AreDistinct (select keep rows)
  select-AreDistinct keep [] d = tt
  select-AreDistinct keep (m ∷ rows) (f, d) =
      ground
        (arith, select-AreDistinct keep rows d, All-select (λ x. key_of x ≢ key_of m) keep rows f)

  -- With distinct keys, what is found among the rows that pass a test.
  pub find_row-select :
      (keep : R → Bool) (key : String) (rows : List R)
      → AreDistinct rows
      → find_row key_of key (select keep rows) ≡ kept keep (find_row key_of key rows)
  unfolding find_row
  find_row-select keep key [] d = refl
  find_row-select keep key (n ∷ rows) (f, d) = elim (Bool-cases (key_of n == key)) [
    | inr other ↦ ground (arith, find_row-select keep key rows d)
    | inl same ↦
        let gone =
          find_row_of_IsFresh key (select keep rows) (
            All-select (λ x. key_of x ≢ key) keep rows
              (rw ((eq_iff (key_of n) key).0 same) at f)) in
        ground (arith, gone)
  ]
