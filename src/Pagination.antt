-- ===== src/Pagination.antt =====
-- Lists in pages: apps/api/src/agenticqueue_api/pagination.py and list_entities of crud.py. The values of
-- the order columns of a row (times and ids) are numbers that compare as the columns do; a cursor is
-- its values, without the text that carries them.
pub mod Order
pub mod PageEnd
pub mod Pages
use agenticqueue.Base.{
  ℕ, zero, suc, ◌+◌, String, Bool, true, false, not, ◌&&◌, ◌||◌, Option, none, some, List, [], ◌∷◌,
  ◌++◌, map, length, ◌==◌, nat_eq, string_eq, if◌then◌else◌, leb, ltb, filterb, any, mem,
}

-- `_order_columns`: the names of the columns in the order of comparison, `first` being the table's first.
unfoldable pub order_columns : String → List String → List String
order_columns first columns =
    let order = filterb (λ c. mem c columns) ("created_at" ∷ "updated_at" ∷ "id" ∷ []) in
    elim order [ [] ↦ first ∷ [] | c ∷ cs ↦ c ∷ cs ]

-- The condition for one index: the columns before it equal the cursor's, and its own is greater.
abbrev pub condition_at : ℕ → List ℕ → List ℕ → Bool
condition_at i [] cursor = false
condition_at i (v ∷ vs) [] = false
condition_at zero (v ∷ vs) (c ∷ cs) = ltb c v
condition_at (suc i) (v ∷ vs) (c ∷ cs) = (v == c) && condition_at i vs cs

-- `range(n)`, from an index on
abbrev pub range_from : ℕ → ℕ → List ℕ
range_from i zero = []
range_from i (suc n) = i ∷ range_from (suc i) n

-- `apply_cursor_clause`, as the test of a row
unfoldable pub cursor_clause : Option (List ℕ) → List ℕ → Bool
cursor_clause none values = true
cursor_clause (some cursor) values =
    any (λ i. condition_at i values cursor) (range_from 0 (length values))

-- The order of `ORDER BY` with the columns ascending.
abbrev pub precedes : List ℕ → List ℕ → Bool
precedes [] vs = false
precedes (c ∷ cs) [] = false
precedes (c ∷ cs) (v ∷ vs) = ltb c v || ((v == c) && precedes cs vs)

module _ {A : Type 0} where
  abbrev pub take : ℕ → List A → List A
  take zero xs = []
  take (suc n) [] = []
  take (suc n) (x ∷ xs) = x ∷ take n xs

  -- `xs[-1]`, of a list that may be empty
  abbrev pub last : List A → Option A
  last [] = none
  last (x ∷ xs) = elim (last xs) [ none ↦ some x | some y ↦ some y ]

  module _ (record_cursor_values : A → List ℕ) where
    abbrev pub insert : A → List A → List A
    insert x [] = x ∷ []
    insert x (y ∷ ys) =
        let rest = insert x ys in
        if precedes (record_cursor_values y) (record_cursor_values x) then y ∷ rest else x ∷ y ∷ ys

    -- `statement.order_by(...)`
    abbrev pub order_by : List A → List A
    order_by [] = []
    order_by (x ∷ xs) = insert x (order_by xs)

    -- The records of a query of `list_entities`.
    abbrev pub records : ℕ → Option (List ℕ) → List A → List A
    records limit cursor table =
        take (suc limit)
          (order_by (filterb (λ r. cursor_clause cursor (record_cursor_values r)) table))

    -- `list_entities`: the page, and the cursor in the header of a page that is not the last.
    unfoldable pub list_entities : ℕ → Option (List ℕ) → List A → List A × Option (List ℕ)
    list_entities limit cursor table =
        let found = records limit cursor table in
        let page = take limit found in
        (
          page,
          if ltb limit (length found)
              then elim (last page) [ none ↦ none | some r ↦ some (record_cursor_values r) ]
              else none,
        )
