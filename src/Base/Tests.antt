-- ===== src/Base/Tests.antt =====
-- Boolean tests, Python's `==` as an interface, and the conditional.
use Prim.Native.Nat.{ℕ, ◌≤◌, ◌<◌, compare, Ordering}
use Prim.Native.String.{String}
use mathlib.Core.Path.{◌≡◌, refl}
use mathlib.Core.Logic.{◌↔◌, ◌⊎◌, inl, inr}
use mathlib.Core.Bool.{Bool, true, false, ◌&&◌}
use mathlib.Core.Option.{Option, none, some}
use native.Mathlib.Omega.{arith}
use text.Mathlib.TextEquality.{eq_iff as string_beq_iff}
use text.Mathlib.Text.{◌==◌ as string_beq}

abbrev pub ltb : ℕ → ℕ → Bool
ltb a b = elim (compare a b) [ Ordering.lt ↦ true | _ ↦ false ]

abbrev pub leb : ℕ → ℕ → Bool
leb a b = elim (compare a b) [ Ordering.gt ↦ false | _ ↦ true ]

abbrev pub nat_beq : ℕ → ℕ → Bool
nat_beq a b = elim (compare a b) [ Ordering.eq ↦ true | _ ↦ false ]

infix 1 if◌then◌else◌
abbrev pub if◌then◌else◌ {ℓ} : {A : Type ℓ} → Bool → A → A → A
if true then x else y = x
if false then x else y = y

pub ltb→lt : (a b : ℕ) → ltb a b ≡ true → a < b
ltb→lt a b h = ground arith

pub leb→le : (a b : ℕ) → leb a b ≡ true → a ≤ b
leb→le a b h = ground arith

pub nat_beq_iff : (a b : ℕ) → (nat_beq a b ≡ true) ↔ (a ≡ b)
nat_beq_iff a b = ground arith

-- A type whose values `==` tells apart.
pub record Eq {ℓ} (X : Type ℓ) : Type ℓ where
  pub beq : (left right : X) → Bool
  pub beq_iff : (left right : X) → (beq left right ≡ true) ↔ (left ≡ right)

infix 50 ◌==◌
-- `left == right`
abbrev pub ◌==◌ {ℓ} : {A : Type ℓ} ⦃tests : Eq A⦄ (left right : A) → Bool
◌==◌ ⦃tests⦄ left right = tests.beq left right

pub ==_iff {ℓ} : {A : Type ℓ} ⦃e : Eq A⦄ (a b : A) → (a == b ≡ true) ↔ (a ≡ b)
==_iff ⦃e⦄ a b = e.beq_iff a b

pub ==_refl {ℓ} : {A : Type ℓ} ⦃e : Eq A⦄ (a : A) → (a == a) ≡ true
==_refl ⦃e⦄ a = (e.beq_iff a a).1 refl

instance abbrev pub nat_eq : Eq ℕ
nat_eq = record { beq = nat_beq; beq_iff = nat_beq_iff }

instance abbrev pub string_eq : Eq String
string_eq = record { beq = string_beq; beq_iff = string_beq_iff }

-- An enumeration compares by its decision procedure.
abbrev pub dec_beq {ℓ} : {A : Type ℓ} → Discrete A → A → A → Bool
dec_beq d a b = elim (d a b) [ yes _ ↦ true | no _ ↦ false ]

pub dec_beq_iff {ℓ} : {A : Type ℓ} (d : Discrete A) (a b : A) → (dec_beq d a b ≡ true) ↔ (a ≡ b)
dec_beq_iff d a b = ground arith

pub Bool-cases : (b : Bool) → (b ≡ true) ⊎ (b ≡ false)
Bool-cases true = inl refl
Bool-cases false = inr refl

pub Option-cases {ℓ} :
    {X : Type ℓ} (found : Option X) → (found ≡ none) ⊎ ((x : X) × (found ≡ some x))
Option-cases (some x) = inr (x, refl)
Option-cases none = inl refl

pub &&-true : (a b : Bool) → (a && b) ≡ true → (a ≡ true) × (b ≡ true)
&&-true a b h = ground arith

pub &&-intro : {a b : Bool} → a ≡ true → b ≡ true → (a && b) ≡ true
&&-intro h k = rw (h, k) refl
