-- ===== src/Pagination/Pages.antt =====
-- Walking the pages of list_entities from the first to the last.
use agenticqueue.Base.{
  ℕ, zero, suc, Option, none, some, List, [], ◌++◌, nat_eq, filterb, All, In, ◌≡◌,
}
use agenticqueue.Pagination.{cursor_clause, order_by, list_entities}
use agenticqueue.Pagination.Order.{Ascending, after, HasWidth}
use agenticqueue.Pagination.PageEnd.{PageEnd}

module _ {A : Type 0} (values : A → List ℕ) where
  -- The page, and those after it if there are any.
  abbrev pub follow : (List ℕ → List A) → List A × Option (List ℕ) → List A
  follow more (page, none) = page
  follow more (page, some c) = page ++ more c

  -- A client that follows the cursors, for at most so many requests.
  unfoldable pub walk : ℕ → ℕ → Option (List ℕ) → List A → List A
  walk zero limit cursor table = []
  walk (suc fuel) limit cursor table =
      follow (λ c. walk fuel limit (some c) table) (list_entities values limit cursor table)

  -- The rows that a cursor has left, of which the query takes the first.
  abbrev left : Option (List ℕ) → List A → List A
  left cursor table = order_by values (filterb (λ r. cursor_clause cursor (values r)) table)

  -- What the rows left after a cursor have in common with those of the whole table.
  record Leaves (n : ℕ) (table : List A) (cursor : Option (List ℕ)) : Type 0 where
    ascending : Ascending values (left cursor table)
    wide : All (HasWidth values n) (left cursor table)
    onwards :
        (l : A)
        → In l (left cursor table)
        → left (some (values l)) table ≡ filterb (after values (values l)) (left cursor table)
