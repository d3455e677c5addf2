-- ===== src/Pagination/PageEnd.antt =====
-- The last row of a page of list_entities.
use agenticqueue.Base.{
  ℕ, zero, suc, ◌-◌, ◌≤◌, ◌<◌, true, false, some, List, [], ◌∷◌, ◌++◌, length, nat_eq, ltb, filterb,
  In, Bool-cases, ◌≡◌, refl, sym, ap, subst, inl, inr, arith,
}
use agenticqueue.Pagination.{precedes, take, last}
use agenticqueue.Pagination.Order.{
  precedes_trans, precedes_irrefl, Above, Ascending, after, filterb-all,
}

module _ {A : Type 0} where
  abbrev pub drop : ℕ → List A → List A
  drop zero xs = xs
  drop (suc n) [] = []
  drop (suc n) (x ∷ xs) = drop n xs

  pub take-drop : (n : ℕ) (xs : List A) → take n xs ++ drop n xs ≡ xs
  take-drop zero xs = refl
  take-drop (suc n) [] = refl
  take-drop (suc n) (x ∷ xs) = ap (λ r. x ∷ r) (take-drop n xs)

  pub take-take : (n : ℕ) (xs : List A) → take n (take (suc n) xs) ≡ take n xs
  take-take zero xs = refl
  take-take (suc n) [] = refl
  take-take (suc n) (x ∷ xs) = ap (λ r. x ∷ r) (take-take n xs)

  pub take-all : (n : ℕ) (xs : List A) → length xs ≤ n → take n xs ≡ xs
  take-all zero [] h = refl
  take-all zero (x ∷ xs) h = absurd (omega arith)
  take-all (suc n) [] h = refl
  take-all (suc n) (x ∷ xs) h = ap (λ r. x ∷ r) (take-all n xs (omega arith))

  -- One more record than the page is read, which tells whether there are more.
  pub length-take_more :
      (n : ℕ) (xs : List A) → n < length xs → ltb n (length (take (suc n) xs)) ≡ true
  length-take_more n [] h = absurd (omega arith)
  length-take_more zero (x ∷ xs) h = ground arith
  length-take_more (suc n) (x ∷ xs) h =
      let rest = length-take_more n xs (omega arith) in ground arith

  pub length-drop : (n : ℕ) (xs : List A) → length (drop (suc n) xs) ≤ length xs - 1
  length-drop n [] = omega arith
  length-drop zero (x ∷ xs) = omega arith
  length-drop (suc n) (x ∷ xs) = let rest = length-drop n xs in omega arith

module _ {A : Type 0} (values : A → List ℕ) where
  Above-In :
      (c : List ℕ) (xs : List A) (l : A)
      → Above values c xs
      → In l xs
      → precedes c (values l) ≡ true
  Above-In c [] l a i = absurd i
  Above-In c (x ∷ xs) l a i = elim i [
    | inl e ↦ subst (λ y. precedes c (values y) ≡ true) (sym e) a.0
    | inr i' ↦ Above-In c xs l a.1 i'
  ]

  -- The last row of a page, and what lies after it.
  pub record PageEnd (n : ℕ) (xs : List A) : Type 0 where
    pub end : A
    pub is_last : last (take n xs) ≡ some end
    pub end_In : In end xs
    pub rest : filterb (after values (values end)) xs ≡ drop n xs

  pub page_end : (k : ℕ) (x : A) (r : List A) → Ascending values (x ∷ r) → PageEnd (suc k) (x ∷ r)
  page_end zero x r a = record {
    end = x;
    is_last = refl;
    end_In = inl refl;
    rest = rw (precedes_irrefl (values x)) (filterb-all values (values x) r a.0);
  }
  page_end (suc k) x [] a = record {
    end = x;
    is_last = refl;
    end_In = inl refl;
    rest = rw (precedes_irrefl (values x)) refl;
  }
  page_end (suc k) x (y ∷ r) a =
      let later = page_end k y r a.1 in
      let up = Above-In (values x) (y ∷ r) later.end a.0 later.end_In in
      let down : after values (values later.end) x ≡ false =
        elim (Bool-cases (precedes (values later.end) (values x))) [
          | inl e ↦
              let loop = precedes_trans (values x) (values later.end) (values x) up e in
              let none_such = precedes_irrefl (values x) in absurd (ground arith)
          | inr e ↦ e
        ] in
      record {
        end = later.end;
        is_last = rw later.is_last refl;
        end_In = inr later.end_In;
        rest = rw down later.rest;
      }
