-- ===== src/Capability.antt =====
-- Capability grants: apps/api/src/agenticqueue_api/capabilities.py and models/capability.py. A scope
-- maps keys to texts, as every scope of the code does; ids are written as texts by the caller.
pub mod Grants
use agenticqueue.Base.{
  ℕ, String, Bool, true, false, not, ◌&&◌, ◌||◌, Option, none, some, List, [], ◌∷◌, ◌++◌, ◌==◌,
  nat_eq, string_eq, if◌then◌else◌, all, any, filterb, first, lookup, leb, ltb,
}
use agenticqueue.Task.{CapabilityKey, admin, capability_key_eq}

abbrev pub Scope : Type 0
Scope = List (String × String)

-- A row of the grant table, joined with its capability.
pub record Grant : Type 0 where
  pub id : ℕ
  pub actor_id : ℕ
  pub capability : CapabilityKey
  pub scope : Scope
  pub granted_by_actor_id : Option ℕ
  pub role_assignment_id : Option ℕ
  pub expires_at : Option ℕ
  pub revoked_at : Option ℕ

-- `_grant_covers_scope`
abbrev pub covers_key : Scope → String × String → Bool
covers_key grant (k, v) = elim (lookup k grant) [ none ↦ true | some w ↦ w == v ]

unfoldable pub grant_covers_scope : Scope → Scope → Bool
grant_covers_scope grant required = all (covers_key grant) required

-- `capability_grant_is_active`
unfoldable pub capability_grant_is_active : Option ℕ → Option ℕ → ℕ → Bool
capability_grant_is_active (some r) expires_at now = false
capability_grant_is_active none none now = true
capability_grant_is_active none (some t) now = if leb t now then false else true

-- The WHERE clause of `list_capabilities_for_actor` without `include_inactive`.
unfoldable pub active_in_sql : Grant → ℕ → Bool
active_in_sql g now =
    elim g.revoked_at [ none ↦ true | some r ↦ false ]
    && elim g.expires_at [ none ↦ true | some t ↦ ltb now t ]

-- The grants are kept in the order of creation.
unfoldable pub list_capabilities_for_actor : List Grant → ℕ → Bool → ℕ → List Grant
list_capabilities_for_actor gs actor include_inactive now =
    filterb (λ g. (g.actor_id == actor) && (include_inactive || active_in_sql g now)) gs

-- `grant_capability`; the id is the table's next one.
pub grant_capability :
    ℕ
    → ℕ
    → CapabilityKey
    → Option Scope
    → Option ℕ
    → Option ℕ
    → Option ℕ
    → List Grant
    → Grant × List Grant
grant_capability new_id actor capability scope granted_by role_assignment expires_at gs =
    let g : Grant = record {
      id = new_id;
      actor_id = actor;
      capability = capability;
      scope = elim scope [ none ↦ [] | some s ↦ s ];
      granted_by_actor_id = granted_by;
      role_assignment_id = role_assignment;
      expires_at = expires_at;
      revoked_at = none;
    } in
    (g, gs ++ g ∷ [])

pub get_capability_grant : ℕ → List Grant → Option Grant
get_capability_grant i gs = first (λ g. g.id == i) gs

abbrev pub revoke_row : ℕ → ℕ → List Grant → List Grant
revoke_row i at [] = []
revoke_row i at (g ∷ gs) =
    (if g.id == i then record g { revoked_at = some at } else g) ∷ revoke_row i at gs

-- `revoke_capability_grant`, with the time resolved.
pub revoke_capability_grant : ℕ → ℕ → List Grant → Option Grant × List Grant
revoke_capability_grant i at gs = elim (get_capability_grant i gs) [
  | none ↦ (none, gs)
  | some g ↦ (some (record g { revoked_at = some at }), revoke_row i at gs)
]

-- The loop of `ensure_actor_has_capability`: whether one of the actor's active grants is for the
-- capability, or for `admin`, and covers the scope.
unfoldable pub authorised : List Grant → ℕ → CapabilityKey → Scope → ℕ → Bool
unfolding list_capabilities_for_actor grant_covers_scope active_in_sql
authorised gs actor capability required now =
    any
      (λ g.
        ((g.capability == capability) || (g.capability == admin))
        && grant_covers_scope g.scope required)
      (list_capabilities_for_actor gs actor false now)
