-- ===== src/Ulid.antt =====
-- The ULIDs among the idempotency keys: `_ULID_PATTERN` of
-- apps/api/src/agenticqueue_api/middleware/idempotency.py.
use agenticqueue.Base.{
  ℕ, zero, suc, String, Bool, true, false, not, ◌&&◌, ◌||◌, none, some, List, [], ◌∷◌, map, nat_eq,
  string_eq, leb, nat_beq, lookup, mem,
}
use Prim.Native.Char.{Char, code}

-- The letters of `_ULID_PATTERN` with what `str.upper` makes of them: U+017F and U+212A match `S` and
-- `K` when case is ignored.
abbrev pub ulid_letters : List (ℕ × Char)
ulid_letters =
    (97, "A")
    ∷ (98, "B")
    ∷ (99, "C")
    ∷ (100, "D")
    ∷ (101, "E")
    ∷ (102, "F")
    ∷ (103, "G")
    ∷ (104, "H")
    ∷ (106, "J")
    ∷ (107, "K")
    ∷ (109, "M")
    ∷ (110, "N")
    ∷ (112, "P")
    ∷ (113, "Q")
    ∷ (114, "R")
    ∷ (115, "S")
    ∷ (116, "T")
    ∷ (118, "V")
    ∷ (119, "W")
    ∷ (120, "X")
    ∷ (121, "Y")
    ∷ (122, "Z")
    ∷ (383, "S")
    ∷ []

abbrev is_upper_letter : Char → Bool
is_upper_letter c =
    leb 65 (code c) && leb (code c) 90 && not (mem (code c) (73 ∷ 76 ∷ 79 ∷ 85 ∷ []))

abbrev is_ulid_char : Char → Bool
is_ulid_char c =
    (leb 48 (code c) && leb (code c) 57)
    || is_upper_letter c
    || nat_beq (code c) 8490
    || mem (code c) (map (λ (p : ℕ × Char). p.0) ulid_letters)

-- The string has `n` characters, all of the pattern.
unfoldable pub ulid_of : ℕ → String → Bool
ulid_of zero String.[] = true
ulid_of zero (String.◌∷◌ c s) = false
ulid_of (suc n) String.[] = false
ulid_of (suc n) (String.◌∷◌ c s) = let rest = ulid_of n s in is_ulid_char c && rest

-- `key.upper()` of a key that matched
unfoldable pub upper_ulid : String → String
upper_ulid String.[] = ""
upper_ulid (String.◌∷◌ c s) =
    let rest = upper_ulid s in
    String.◌∷◌ (elim (lookup (code c) ulid_letters) [ none ↦ c | some u ↦ u ]) rest
