-- ===== src/Promotion/Flags.antt =====
-- What promotion does to the rows of learnings (promotion.py).
use agenticqueue.Base.{
  ℕ, String, Bool, true, false, not, ◌&&◌, List, [], ◌∷◌, map, filterb, In, mem, ◌==◌, nat_eq,
  string_eq, if◌then◌else◌, ok, ◌≡◌, refl, ap, arith,
}
use agenticqueue.Promotion.{
  LearningScope, global, learning_scope_eq, Learning, Tables, is_collected, occurrence_of,
  collect_occurrences, eligible_target_scope, flag_of, flagged, eligible_in,
  auto_promote_candidates,
}

-- The columns of a row that its flag does not concern, and those after a promotion.
abbrev pub standing : Learning → ℕ × LearningScope × String
standing l = (l.id, l.scope, l.status)

abbrev pub moved : ℕ → LearningScope → Learning → ℕ × LearningScope × String
moved i target l = (l.id, if l.id == i then target else l.scope, l.status)

module _ (lower : String → String) (text : ℕ → String) (tables : Tables) where
  collect-flagged :
      (e : List ℕ) (rows : List Learning)
      → collect_occurrences lower tables (map (flagged e) rows)
        ≡ collect_occurrences lower tables rows
  unfolding collect_occurrences
  collect-flagged e [] = refl
  collect-flagged e (l ∷ rows) = head (is_collected l) (collect-flagged e rows)
    where
      os : List Learning → List Learning
      os = filterb is_collected

      head :
          (b : Bool)
          → map (occurrence_of lower tables) (os (map (flagged e) rows))
            ≡ map (occurrence_of lower tables) (os rows)
          → map
              (occurrence_of lower tables)
              (if b then flagged e l ∷ os (map (flagged e) rows) else os (map (flagged e) rows))
            ≡ map (occurrence_of lower tables) (if b then l ∷ os rows else os rows)
      head true rest = ap (λ r. occurrence_of lower tables l ∷ r) rest
      head false rest = rest

  flag_of-flagged : (e : List ℕ) (l : Learning) → flag_of e (flagged e l) ≡ flag_of e l
  flag_of-flagged e l = again (is_collected l) (mem l.id e) l.promotion_eligible (l.scope == global)
    where
      again :
          (b m f g : Bool)
          → (if b then m else (if b then m else f && not g) && not g)
            ≡ (if b then m else f && not g)
      again true m f g = refl
      again false m f true = ground arith
      again false m f false = ground arith

  flagged-flagged :
      (e : List ℕ) (rows : List Learning)
      → map (flagged e) (map (flagged e) rows) ≡ map (flagged e) rows
  flagged-flagged e [] = refl
  flagged-flagged e (l ∷ rows) =
      λ i. record l { promotion_eligible = flag_of-flagged e l i } ∷ flagged-flagged e rows i

  -- Doing it again changes nothing.
  pub auto_promote_candidates-again :
      (rows : List Learning)
      → auto_promote_candidates lower text tables (auto_promote_candidates lower text tables rows)
        ≡ auto_promote_candidates lower text tables rows
  unfolding auto_promote_candidates
  auto_promote_candidates-again rows =
      let e = eligible_in lower text tables rows in
      rw (collect-flagged e rows, eligible_in) (flagged-flagged e rows)

  -- What a promotion leaves behind.
  pub record Promoted (i : ℕ) (target : LearningScope) (rows rows' : List Learning) : Type 0 where
    pub before : Learning
    pub before_In : In before rows
    pub same_id : before.id ≡ i
    pub was_active : before.status ≡ "active"
    pub next_scope : eligible_target_scope before.scope ≡ ok target
    pub scopes : map standing rows' ≡ map (moved i target) rows
    pub settled : auto_promote_candidates lower text tables rows' ≡ rows'
    pub none_global : (l : Learning) → In l rows' → l.scope ≡ global → l.promotion_eligible ≡ false
