-- ===== src/Tests/Governance.antt =====
-- packages/governance at concrete inputs.
use mathlib.Core.List.{Memᴰ}
use workspace_os.Base.{
  ◌+◌, String, true, false, [], ◌∷◌, none, some, ok, err, or_else, ◌≡◌, ◌↔◌, refl, arith,
}
use workspace_os.Base.Text.{is_blank}
use workspace_os.Base.Sets.{has, has_any, add, IsDistinct}
use workspace_os.Base.Int.{pos}
use workspace_os.Base.Number.{of_ℕ, as_integer}
use workspace_os.Base.Maps.{lookup, map_of}
use workspace_os.Core.Member.{has_role, has_any_role, human}
use workspace_os.Governance.Action.{irreversible, ActionDefinition, of, get, routine, consequential}
use workspace_os.Governance.PolicyDefinition.{
  PolicyDefinition, create, to_action_registry, revise, to_json, check_names, duplicate_action,
}
use workspace_os.Governance.PolicyDefinition.Laws.{
  IsValid, names, policy_builds, policy_round_trip, revise_iff, registry_exact,
}
use workspace_os.Governance.PolicyEngine.{
  allow, requires_approval, AuthorizationContext, PolicyEngine, denied, authorize, authorize_found,
  can_execute_directly, decide_by_consequence, fails_role_gate, fails_relationship_gate,
}
use workspace_os.Governance.PolicyEngine.Decisions.{
  IsEligible, Decides, authorize_iff, authorize_peers, can_execute_directly_iff,
}
use workspace_os.Tests.Samples.{bot, merge_action, policy}

abbrev engine : PolicyEngine
engine = record { registry = of policy.actions }

abbrev nobody : AuthorizationContext
nobody = record { relationships = none }

abbrev owns : AuthorizationContext
owns = record { relationships = some ("owner" ∷ []) }

-- Decisions on the sample policy.
authorize_test :
    (authorize engine bot "tool.search" nobody ≡ decide_by_consequence routine)
    × (authorize engine bot "tool.merge" nobody ≡ denied "missing-relationship")
    × (authorize engine bot "tool.merge" owns ≡ decide_by_consequence consequential)
    × (authorize engine bot "tool.rm" owns ≡ denied "unknown-action")
unfolding authorize authorize_found of get lookup fails_role_gate fails_relationship_gate
    has_any_role has has_any map_of decide_by_consequence
authorize_test = (refl, refl, refl, refl)

authorize_iff_example :
    ((authorize engine bot "tool.merge" owns
        ≡ record { outcome = allow; reason = "routine-allowed"; approvers_required = none })
      ↔ Decides engine bot "tool.merge" owns routine)
    × ((authorize engine bot "tool.merge" owns ≡ record {
      outcome = requires_approval;
      reason = "consequential-requires-approval";
      approvers_required = some 1;
    })
        ↔ Decides engine bot "tool.merge" owns consequential)
    × ((authorize engine bot "tool.merge" owns ≡ record {
      outcome = requires_approval;
      reason = "irreversible-requires-dual-control";
      approvers_required = some 2;
    })
        ↔ Decides engine bot "tool.merge" owns irreversible)
authorize_iff_example = authorize_iff engine bot "tool.merge" owns

can_execute_directly_iff_test : (can_execute_directly engine bot "tool.search" nobody ≡ true) ↔ (
    (action : ActionDefinition) × IsEligible engine bot "tool.search" nobody action
    × (action.consequence ≡ routine))
can_execute_directly_iff_test = can_execute_directly_iff engine bot "tool.search" nobody

authorize_peers_example :
    authorize engine bot "tool.search" nobody
    ≡ authorize engine (record bot { type = human }) "tool.search" nobody
authorize_peers_example =
    authorize_peers engine bot (record bot { type = human }) "tool.search" nobody
      (unfold has_role in λ r. refl)

policy-IsValid : IsValid policy
unfolding is_blank has
policy-IsValid = record { policy_id = refl; distinct = (refl, (refl, tt)); version = omega arith }

policy_round_trip_test : create (to_json policy) ≡ ok policy
policy_round_trip_test = policy_round_trip policy policy-IsValid

policy_builds_test :
    IsValid policy
    × (policy.policy_id ≡ (to_json policy).policy_id)
    × (policy.actions ≡ (to_json policy).actions)
    × (as_integer (or_else (to_json policy).version (of_ℕ 1)) ≡ some (pos policy.version))
policy_builds_test = policy_builds (to_json policy) policy policy_round_trip_test

-- A revision that names an action twice is refused.
revise_test : revise policy (merge_action ∷ merge_action ∷ []) ≡ err (duplicate_action "tool.merge")
unfolding revise create check_names is_blank has add
revise_test = refl

abbrev merge_only : PolicyDefinition
merge_only = record { policy_id = "default"; actions = merge_action ∷ []; version = 2 }

revise_iff_test : (revise policy (merge_action ∷ []) ≡ ok merge_only) ↔ (
    IsDistinct (names (merge_action ∷ []))
    × (merge_only ≡ record {
      policy_id = policy.policy_id;
      actions = merge_action ∷ [];
      version = policy.version + 1;
    }))
revise_iff_test = revise_iff policy merge_only (merge_action ∷ []) policy-IsValid

registry_exact_example :
    ((a : ActionDefinition)
      → Memᴰ a policy.actions
      → get (to_action_registry policy) a.name ≡ some a)
    × ((name : String)
        → has (names policy.actions) name ≡ false
        → get (to_action_registry policy) name ≡ none)
registry_exact_example = registry_exact policy policy-IsValid
