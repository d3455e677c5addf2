-- ===== src/Tests/Rules.antt =====
-- Runs of capabilities.py, policy/resolver.py and models/edge.py.
use agenticqueue.Base.{
  ℕ, ◌≡◌, ◌≢◌, refl, subst, true, not, none, some, [], ◌∷◌, string_eq, nat_eq, arith, inr, inl, In,
}
use agenticqueue.Base.Int.{pos}
use agenticqueue.Json.{Json, Fields, get_field}
use agenticqueue.Task.{Task, update_task, CapabilityKey-discrete}
use agenticqueue.Capability.{Grant, Scope, authorised, revoke_capability_grant}
use agenticqueue.Capability.Grants.{Authorises, authorised_iff, authorised-revoke}
use agenticqueue.Policy.{PolicyLike}
use agenticqueue.Edge.{edge_metadata_marks_superseded, astext_is_null, active_edge_condition}
use agenticqueue.Edge.Active.{active_edge_condition-marks_superseded}

abbrev grant : ℕ → Grant
grant i = record {
  id = i;
  actor_id = 3;
  capability = update_task;
  scope = ("project_id", "p") ∷ [];
  granted_by_actor_id = none;
  role_assignment_id = none;
  expires_at = some 100;
  revoked_at = none;
}

abbrev needed : Scope
needed = ("project_id", "p") ∷ ("workspace_id", "w") ∷ []

holds_one : authorised (grant 1 ∷ []) 3 update_task needed 99 ≡ true
unfolding authorised CapabilityKey-discrete
holds_one = refl

authorised_iff_example : (g : Grant) × In g (grant 1 ∷ []) × Authorises 3 update_task needed 99 g
authorised_iff_example = (authorised_iff 3 update_task needed 99 (grant 1 ∷ [])).0 holds_one

the_grant :
    (g : Grant)
    → In g (grant 2 ∷ [])
    → Authorises 3 update_task needed 99 g
    → Authorises 3 update_task needed 99 (grant 2)
the_grant g (inl e) a = subst (Authorises 3 update_task needed 99) e a
the_grant g (inr n) a = absurd n

holds_second : authorised (grant 2 ∷ []) 3 update_task needed 99 ≡ true
unfolding authorised CapabilityKey-discrete
holds_second = refl

second_grant : Authorises 3 update_task needed 99 (grant 2)
second_grant =
    let (g, m, a) = (authorised_iff 3 update_task needed 99 (grant 2 ∷ [])).0 holds_second in
    the_grant g m a

two-ne-one : (grant 2).id ≢ 1
two-ne-one e = omega (arith, e)

-- The second grant still authorises the actor.
authorised-revoke_example :
    authorised (revoke_capability_grant 1 50 (grant 1 ∷ grant 2 ∷ [])).1 3 update_task needed 99
    ≡ true
authorised-revoke_example =
    (authorised-revoke 1 50 (grant 1 ∷ grant 2 ∷ []) 3 update_task needed 99).1
      (grant 2, inr (inl refl), two-ne-one, second_grant)

abbrev policy : ℕ → PolicyLike
policy i = record {
  id = i;
  name = "policy";
  version = "1";
  hitl_required = true;
  autonomy_tier = 1;
  capabilities = [];
  body = Fields.end;
}

abbrev plain_task : Task
plain_task = record {
  id = 1;
  project_id = 7;
  policy_id = none;
  task_type = "coding-task";
  state = "queued";
  priority = pos 0;
  labels = [];
  sequence = 1;
  claimed_by_actor_id = none;
  claimed_at = none;
  contract = [];
  attempt_count = 0;
  last_failure = none;
}

abbrev superseded : Fields
superseded = Fields.field "status" (Json.text "superseded") Fields.end

active_edge_condition-marks_superseded_example :
    active_edge_condition superseded ≡ not (edge_metadata_marks_superseded superseded)
unfolding get_field astext_is_null
active_edge_condition-marks_superseded_example =
    active_edge_condition-marks_superseded superseded
      (record { at = inl refl; by = inl refl; active = λ e. cc })

abbrev blank : Fields
blank = Fields.field "superseded_at" (Json.text "") Fields.end
