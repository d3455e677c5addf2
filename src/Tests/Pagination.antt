-- ===== src/Tests/Pagination.antt =====
-- Runs of the pages of crud.py.
use agenticqueue.Base.{ℕ, List, [], ◌∷◌, ◌≡◌, refl, none, some, nat_eq, string_eq}
use agenticqueue.Pagination.{cursor_clause, list_entities, order_columns}

abbrev row_values : ℕ × ℕ → List ℕ
row_values (created, id) = created ∷ id ∷ []

-- Two rows were created together.
abbrev three_rows : List (ℕ × ℕ)
three_rows = (5, 2) ∷ (3, 9) ∷ (5, 1) ∷ []

pages :
    (list_entities row_values 2 none three_rows ≡ ((3, 9) ∷ (5, 1) ∷ [], some (5 ∷ 1 ∷ [])))
    × (list_entities row_values 2 (some (5 ∷ 1 ∷ [])) three_rows ≡ ((5, 2) ∷ [], none))
unfolding list_entities cursor_clause
pages = (refl, refl)

columns : order_columns "name" ("name" ∷ "id" ∷ "created_at" ∷ []) ≡ "created_at" ∷ "id" ∷ []
unfolding order_columns
columns = refl
