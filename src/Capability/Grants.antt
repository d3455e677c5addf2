-- ===== src/Capability/Grants.antt =====
-- Which grants authorise an actor, and what granting and revoking do to that (capabilities.py).
use agenticqueue.Base.{
  ℕ, ◌<◌, ◌≡◌, ◌≢◌, ◌↔◌, refl, String, Bool, true, false, ◌&&◌, ◌||◌, ◌⊎◌, inl, inr, none, some,
  List, [], ◌∷◌, ◌==◌, nat_eq, string_eq, ==_iff, all_iff, any_iff, filterb, In-filterb, filterb-In,
  first, lookup, In, arith, Bool-cases, Option-cases, sym,
}
use agenticqueue.Task.{CapabilityKey, admin, capability_key_eq}
use agenticqueue.Capability.{
  Scope, Grant, covers_key, grant_covers_scope, capability_grant_is_active, active_in_sql,
  get_capability_grant, revoke_row, revoke_capability_grant, authorised,
}

-- A grant in force: not revoked, and not expired yet.
pub record IsActive (now : ℕ) (g : Grant) : Type 0 where
  pub unrevoked : g.revoked_at ≡ none
  pub unexpired : (t : ℕ) → g.expires_at ≡ some t → now < t

-- No key of the required scope has another value in the grant.
abbrev pub Covers : Scope → Scope → Type 0
Covers grant required =
    (k v : String) → In (k, v) required → (w : String) → lookup k grant ≡ some w → w ≡ v

active_in_sql_iff : (g : Grant) (now : ℕ) → (active_in_sql g now ≡ true) ↔ IsActive now g
unfolding active_in_sql
active_in_sql_iff g now = elim (Option-cases g.expires_at) [
  | inl e ↦ (
    λ h. record { unrevoked = ground arith; unexpired = λ t e'. cc },
    λ a. rw (a.unrevoked, e) refl,
  )
  | inr (t, e) ↦ (
    λ h. record { unrevoked = ground arith; unexpired = λ u e'. ground arith },
    λ a. let late = a.unexpired t e in rw (a.unrevoked, e) (ground arith),
  )
]

covers_key_iff :
    (grant : Scope) (k v : String)
    → (covers_key grant (k, v) ≡ true) ↔ ((w : String) → lookup k grant ≡ some w → w ≡ v)
covers_key_iff grant k v = elim (Option-cases (lookup k grant)) [
  | inl e ↦ (λ h w e'. cc, λ h. rw (e, covers_key) refl)
  | inr (u, e) ↦
      (λ h w e'. ground (arith, ==_iff u v), λ h. rw (e, covers_key) ((==_iff u v).1 (h u e)))
]

grant_covers_scope_iff :
    (grant required : Scope) → (grant_covers_scope grant required ≡ true) ↔ Covers grant required
unfolding grant_covers_scope
grant_covers_scope_iff grant required =
    let each = all_iff (covers_key grant) required in
    (
      λ h k v m. (covers_key_iff grant k v).0 (each.0 h (k, v) m),
      λ h. each.1 (λ (k, v) m. (covers_key_iff grant k v).1 (h k v m)),
    )

-- A grant that authorises the actor.
pub record Authorises (actor : ℕ) (capability : CapabilityKey) (required : Scope) (now : ℕ)
    (g : Grant) : Type 0 where
  pub of_actor : g.actor_id ≡ actor
  pub active : IsActive now g
  pub for_capability : (g.capability ≡ capability) ⊎ (g.capability ≡ admin)
  pub covering : Covers g.scope required

module _ (actor : ℕ) (capability : CapabilityKey) (required : Scope) (now : ℕ) where
  abbrev listed : Grant → Bool
  listed g = (g.actor_id == actor) && (false || active_in_sql g now)

  abbrev fits : Grant → Bool
  fits g =
      ((g.capability == capability) || (g.capability == admin))
      && grant_covers_scope g.scope required

  fits-Authorises :
      (g : Grant) → listed g ≡ true → fits g ≡ true → Authorises actor capability required now g
  fits-Authorises g l f = record {
    of_actor = ground (arith, ==_iff g.actor_id actor);
    active = (active_in_sql_iff g now).0 (ground arith);
    for_capability = ground (arith, ==_iff g.capability capability, ==_iff g.capability admin);
    covering = (grant_covers_scope_iff g.scope required).0 (ground arith);
  }

  Authorises-fits :
      (g : Grant) → Authorises actor capability required now g → (listed g ≡ true) × (fits g ≡ true)
  Authorises-fits g a = (
    rw ((==_iff g.actor_id actor).1 a.of_actor, (active_in_sql_iff g now).1 a.active) refl,
    rw ((grant_covers_scope_iff g.scope required).1 a.covering) (capable a.for_capability),
  )
    where
      capable :
          ((g.capability ≡ capability) ⊎ (g.capability ≡ admin))
          → (((g.capability == capability) || (g.capability == admin)) && true) ≡ true
      capable c = ground (arith, ==_iff g.capability capability, ==_iff g.capability admin)

  -- An actor is authorised exactly when it holds a grant in force, for the capability or for
  -- `admin`, whose scope contradicts no key of the required one.
  pub authorised_iff :
      (gs : List Grant)
      → (authorised gs actor capability required now ≡ true)
        ↔ ((g : Grant) × In g gs × Authorises actor capability required now g)
  unfolding authorised
  authorised_iff gs =
      let found = any_iff fits (filterb listed gs) in
      (
        λ h.
            let (g, m, f) = found.0 h in
            let (row, l) = In-filterb listed g gs m in (g, row, fits-Authorises g l f),
        λ h.
            let (g, m, a) = h in
            let (l, f) = Authorises-fits g a in found.1 (g, filterb-In listed g gs m l, f),
      )

-- The query that lists an actor's grants and the model's own test agree on which grants are active.
pub active_in_sql-is_active :
    (g : Grant) (now : ℕ)
    → active_in_sql g now ≡ capability_grant_is_active g.revoked_at g.expires_at now
unfolding active_in_sql capability_grant_is_active
active_in_sql-is_active g now = ground arith

In-revoke_row :
    (i at : ℕ) (g : Grant) (gs : List Grant)
    → In g (revoke_row i at gs)
    → (In g gs × (g.id ≢ i)) ⊎ ((h : Grant) × In h gs × (g ≡ record h { revoked_at = some at }))
In-revoke_row i at g [] m = absurd m
In-revoke_row i at g (x ∷ gs) m = elim m [
  | inl e ↦ elim (Bool-cases (x.id == i)) [
    | inl hit ↦ inr (x, inl refl, rw hit at e)
    | inr miss ↦
        let e' = rw miss at e in inl (inl e', λ same. ground (arith, ==_iff x.id i, same, e'))
  ]
  | inr m' ↦ elim (In-revoke_row i at g gs m') [
    | inl (row, ne) ↦ inl (inr row, ne)
    | inr (h, row, e) ↦ inr (h, inr row, e)
  ]
]

revoke_row-In :
    (i at : ℕ) (g : Grant) (gs : List Grant) → In g gs → g.id ≢ i → In g (revoke_row i at gs)
revoke_row-In i at g [] m ne = absurd m
revoke_row-In i at g (x ∷ gs) m ne = elim m [
  | inl e ↦ inl (ground (arith, ==_iff x.id i))
  | inr m' ↦ inr (revoke_row-In i at g gs m' ne)
]

revoke_row_absent :
    (i at : ℕ) (gs : List Grant) → first (λ g. g.id == i) gs ≡ none → revoke_row i at gs ≡ gs
revoke_row_absent i at [] h = refl
revoke_row_absent i at (g ∷ gs) h = ground (arith, revoke_row_absent i at gs)

revoke_capability_grant-table :
    (i at : ℕ) (gs : List Grant) → (revoke_capability_grant i at gs).1 ≡ revoke_row i at gs
unfolding revoke_capability_grant get_capability_grant
revoke_capability_grant-table i at gs = elim (Option-cases (get_capability_grant i gs)) [
  | inl e ↦ rw (e, revoke_capability_grant) (sym (revoke_row_absent i at gs e))
  | inr (g, e) ↦ rw (e, revoke_capability_grant) refl
]

-- Revoking a grant takes away exactly what that grant gave: afterwards an actor is authorised by
-- the grants of other ids that authorised it before, and by no other.
pub authorised-revoke :
    (i at : ℕ) (gs : List Grant) (actor : ℕ) (capability : CapabilityKey) (required : Scope)
    (now : ℕ)
    → (authorised (revoke_capability_grant i at gs).1 actor capability required now ≡ true)
      ↔ ((g : Grant) × In g gs × (g.id ≢ i) × Authorises actor capability required now g)
authorised-revoke i at gs actor capability required now =
    rw (revoke_capability_grant-table i at gs) (
      let iff = authorised_iff actor capability required now (revoke_row i at gs) in
      (
        λ h.
            let (g, m, a) = iff.0 h in
            elim (In-revoke_row i at g gs m) [
              | inl (row, ne) ↦ (g, row, ne, a)
              | inr (_, _, e) ↦ let still = a.active.unrevoked in cc
            ],
        λ h. let (g, m, ne, a) = h in iff.1 (g, revoke_row-In i at g gs m ne, a),
      ))
