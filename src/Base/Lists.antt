-- ===== src/Base/Lists.antt =====
-- Lists measured by native numbers, membership and search by a Boolean test.
use Prim.Native.Nat.{ℕ, suc, ◌+◌, ◌≤◌}
use mathlib.Core.Path.{◌≡◌, refl, sym}
use mathlib.Core.Logic.{◌⊎◌, ◌↔◌, inl, inr}
use mathlib.Core.Bool.{Bool, true, false, ◌&&◌, ◌||◌}
use mathlib.Core.Option.{Option, none, some}
use mathlib.Core.List.{List, [], ◌∷◌, ◌++◌}
use native.Mathlib.Omega.{arith}
use agenticqueue.Base.Tests.{Eq, Bool-cases, ◌==◌, ==_iff, if◌then◌else◌}

module _ {ℓ} {A : Type ℓ} where
  abbrev pub length : List A → ℕ
  length [] = 0
  length (x ∷ xs) = suc (length xs)

  abbrev pub any : (A → Bool) → List A → Bool
  any p [] = false
  any p (x ∷ xs) = p x || any p xs

  abbrev pub all : (A → Bool) → List A → Bool
  all p [] = true
  all p (x ∷ xs) = p x && all p xs

  abbrev pub filterb : (A → Bool) → List A → List A
  filterb p [] = []
  filterb p (x ∷ xs) = let rest = filterb p xs in if p x then x ∷ rest else rest

  -- `next((x for x in xs if p(x)), None)`
  abbrev pub first : (A → Bool) → List A → Option A
  first p [] = none
  first p (x ∷ xs) = let rest = first p xs in if p x then some x else rest

  abbrev pub All {κ} : (A → Type κ) → List A → Type κ
  All P [] = Unit
  All P (x ∷ xs) = P x × All P xs

  pub length-append : (xs ys : List A) → length (xs ++ ys) ≡ length xs + length ys
  length-append [] ys = omega arith
  length-append (x ∷ xs) ys = omega (arith, length-append xs ys)

  pub length-filterb-le : (p : A → Bool) (xs : List A) → length (filterb p xs) ≤ length xs
  length-filterb-le p [] = omega arith
  length-filterb-le p (x ∷ xs) = ground (arith, length-filterb-le p xs)

module _ {A : Type 0} where
  -- Membership, as a type that computes.
  abbrev pub In : A → List A → Type 0
  In a [] = ⊥
  In a (x ∷ xs) = (a ≡ x) ⊎ In a xs

  pub In-filterb :
      (p : A → Bool) (a : A) (xs : List A) → In a (filterb p xs) → In a xs × (p a ≡ true)
  In-filterb p a [] h = absurd h
  In-filterb p a (x ∷ xs) h = ground (arith, In-filterb p a xs)

  pub filterb-In : (p : A → Bool) (a : A) (xs : List A) → In a xs → p a ≡ true → In a (filterb p xs)
  filterb-In p a [] h e = absurd h
  filterb-In p a (x ∷ xs) h e = ground (arith, filterb-In p a xs)

  pub In-append : (a : A) (xs ys : List A) → In a (xs ++ ys) → In a xs ⊎ In a ys
  In-append a [] ys h = inr h
  In-append a (x ∷ xs) ys h = ground (arith, In-append a xs ys)

  pub append-In : (a : A) (xs ys : List A) → In a xs ⊎ In a ys → In a (xs ++ ys)
  append-In a [] ys h = ground arith
  append-In a (x ∷ xs) ys h = ground (arith, append-In a xs ys)

  pub all_iff : (f : A → Bool) (xs : List A) → (all f xs ≡ true) ↔ ((x : A) → In x xs → f x ≡ true)
  all_iff f [] = (λ _ x m. absurd m, λ _. refl)
  all_iff f (x ∷ xs) =
      let rest = all_iff f xs in
      (
        λ h y m. elim m [ inl e ↦ rw e (ground arith) | inr m' ↦ rest.0 (ground arith) y m' ],
        λ h. rw (h x (inl refl)) (rest.1 (λ y m. h y (inr m))),
      )

  pub any_iff :
      (f : A → Bool) (xs : List A) → (any f xs ≡ true) ↔ ((x : A) × In x xs × (f x ≡ true))
  any_iff f [] = (λ h. cc, λ h. absurd h.1)
  any_iff f (x ∷ xs) =
      let rest = any_iff f xs in
      (
        λ h. elim (Bool-cases (f x)) [
          | inl e ↦ (x, inl refl, e)
          | inr e ↦ let (y, m, e') = rest.0 (ground arith) in (y, inr m, e')
        ],
        λ h.
            let (y, m, e) = h in
            elim m [
              | inl same ↦ rw (sym same, e) refl
              | inr m' ↦ let later = rest.1 (y, m', e) in ground arith
            ],
      )

  pub first-some :
      (p : A → Bool) (a : A) (xs : List A) → first p xs ≡ some a → In a xs × (p a ≡ true)
  first-some p a [] h = ground arith
  first-some p a (x ∷ xs) h = ground (arith, first-some p a xs)

  pub first-none : (p : A → Bool) (a : A) (xs : List A) → first p xs ≡ none → In a xs → p a ≡ false
  first-none p a [] h m = absurd m
  first-none p a (x ∷ xs) h m = ground (arith, first-none p a xs)

module _ {A : Type 0} ⦃e : Eq A⦄ where
  -- `a in xs`
  abbrev pub mem : A → List A → Bool
  mem a [] = false
  mem a (x ∷ xs) = a == x || mem a xs

  pub mem→In : (a : A) (xs : List A) → mem a xs ≡ true → In a xs
  mem→In a [] h = cc
  mem→In a (x ∷ xs) h = ground (arith, ==_iff a x, mem→In a xs)

  pub In→mem : (a : A) (xs : List A) → In a xs → mem a xs ≡ true
  In→mem a [] h = absurd h
  In→mem a (x ∷ xs) h = ground (arith, ==_iff a x, In→mem a xs)

module _ {A : Type 0} ⦃e : Eq A⦄ where
  -- `list(dict.fromkeys(values))`, after the keys in `seen`.
  unfoldable pub from_keys : List A → List A → List A
  from_keys seen [] = []
  from_keys seen (v ∷ vs) =
      let fresh = from_keys (v ∷ seen) vs in
      let again = from_keys seen vs in if mem v seen then again else v ∷ fresh

-- `d.get(k)` of a dictionary kept as an association list.
module _ {ℓ} {K : Type 0} {V : Type ℓ} ⦃e : Eq K⦄ where
  abbrev pub lookup : K → List (K × V) → Option V
  lookup k [] = none
  lookup k ((j, v) ∷ m) = let rest = lookup k m in if j == k then some v else rest
