-- ===== src/Governance/PolicyEngine.antt =====
-- packages/governance/src/authz/policy-engine.ts: the decision point.
pub mod Decisions
use workspace_os.Base.{
  ℕ, String, Bool, true, false, not, ◌&&◌, List, ◌∷◌, [], Option, none, some, if◌then◌else◌,
  or_else, ◌==◌,
}
use workspace_os.Base.Sets.{has}
use workspace_os.Core.Member.{Member, has_any_role}
use workspace_os.Governance.Action.{
  Consequence, routine, consequential, irreversible, ActionDefinition, ActionRegistry, get,
}
use workspace_os.Governance.PolicyDefinition.{PolicyDefinition, to_action_registry}

pub data AuthorizationOutcome : Type 0 where
  allow deny requires_approval : AuthorizationOutcome

pub record AuthorizationDecision : Type 0 where
  pub outcome : AuthorizationOutcome
  pub reason : String
  pub approvers_required : Option ℕ

-- `relationships` is absent or an array.
pub record AuthorizationContext : Type 0 where
  pub relationships : Option (List String)

pub record PolicyEngine : Type 0 where
  pub registry : ActionRegistry

unfoldable pub from_definition : PolicyDefinition → PolicyEngine
from_definition definition = record { registry = to_action_registry definition }

abbrev pub denied : String → AuthorizationDecision
denied reason = record { outcome = deny; reason = reason; approvers_required = none }

unfoldable pub decide_by_consequence : Consequence → AuthorizationDecision
decide_by_consequence routine = record {
  outcome = allow;
  reason = "routine-allowed";
  approvers_required = none;
}
decide_by_consequence consequential = record {
  outcome = requires_approval;
  reason = "consequential-requires-approval";
  approvers_required = some 1;
}
decide_by_consequence irreversible = record {
  outcome = requires_approval;
  reason = "irreversible-requires-dual-control";
  approvers_required = some 2;
}

-- `action.requiredRoles && !member.hasAnyRole(action.requiredRoles)`: an empty array is a gate
-- that nobody passes
unfoldable pub fails_role_gate : Option (List String) → Member → Bool
fails_role_gate none member = false
fails_role_gate (some roles) member = not (has_any_role member roles)

-- `action.requiredRelationship && !(...).includes(action.requiredRelationship)`: an empty text is
-- no gate
unfoldable pub fails_relationship_gate : Option String → AuthorizationContext → Bool
fails_relationship_gate none context = false
fails_relationship_gate (some relationship) context =
    not (relationship == "") && not (has (or_else context.relationships []) relationship)

unfoldable pub authorize_found :
    Option ActionDefinition → Member → AuthorizationContext → AuthorizationDecision
authorize_found none member context = denied "unknown-action"
authorize_found (some action) member context =
    if fails_role_gate action.required_roles member
    then denied "insufficient-role"
    else if fails_relationship_gate action.required_relationship context
    then denied "missing-relationship"
    else decide_by_consequence action.consequence

unfoldable pub authorize :
    PolicyEngine → Member → String → AuthorizationContext → AuthorizationDecision
unfolding authorize_found
authorize engine member action_name context =
    authorize_found (get engine.registry action_name) member context

abbrev pub is_allow : AuthorizationOutcome → Bool
is_allow allow = true
is_allow _ = false

unfoldable pub can_execute_directly : PolicyEngine → Member → String → AuthorizationContext → Bool
can_execute_directly engine member action_name context =
    is_allow (authorize engine member action_name context).outcome
