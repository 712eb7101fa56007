-- ===== src/Governance/PolicyDefinition.antt =====
-- packages/governance/src/policy/policy-definition.ts: a versioned, immutable policy.
pub mod Laws
use workspace_os.Base.{
  ℕ, zero, suc, ◌+◌, String, Bool, true, false, List, ◌∷◌, [], Option, none, some, Result, ok, err,
  ◌>>=◌, ◌>>◌, if◌then◌else◌, or_else,
}
use workspace_os.Base.Text.{is_blank}
use workspace_os.Base.Sets.{has, add}
use workspace_os.Base.Int.{ℤ, pos}
use workspace_os.Base.Number.{Number, of_ℕ, as_integer}
use workspace_os.Governance.Action
use workspace_os.Governance.Action.{ActionDefinition, ActionRegistry}

pub record PolicyDefinitionProps : Type 0 where
  pub policy_id : String
  pub actions : List ActionDefinition
  pub version : Option Number

pub data InvalidPolicyError : Type 0 where
  blank_policy_id : InvalidPolicyError
  duplicate_action : String → InvalidPolicyError
  version_range : Number → InvalidPolicyError

-- `version` is a whole number of at least 1 in every policy; it is exact below 2 ^ 53.
pub record PolicyDefinition : Type 0 where
  pub policy_id : String
  pub actions : List ActionDefinition
  pub version : ℕ

-- the loop over the actions, with the `Set` of the names that it has seen
unfoldable pub check_names :
    List String → List ActionDefinition → Result InvalidPolicyError (Unit {0})
check_names names [] = ok tt
check_names names (action ∷ actions) =
    let rest = check_names (add names action.name) actions in
    if has names action.name then err (duplicate_action action.name) else rest

-- `!Number.isInteger(n) || n < 1` refuses; otherwise the whole number that `n` is
pub at_least_one : Option ℤ → Option ℕ
at_least_one (some (pos (suc n))) = some (suc n)
at_least_one _ = none

check_version : Number → Option ℕ → Result InvalidPolicyError ℕ
check_version version none = err (version_range version)
check_version version (some n) = ok n

unfoldable pub create : PolicyDefinitionProps → Result InvalidPolicyError PolicyDefinition
unfolding check_version
create props = do
  if is_blank props.policy_id then err blank_policy_id else ok tt
  check_names [] props.actions
  let version = or_else props.version (of_ℕ 1)
  v ← check_version version (at_least_one (as_integer version))
  ok (record { policy_id = props.policy_id; actions = props.actions; version = v })

unfoldable pub to_action_registry : PolicyDefinition → ActionRegistry
to_action_registry p = Action.of p.actions

unfoldable pub revise :
    PolicyDefinition → List ActionDefinition → Result InvalidPolicyError PolicyDefinition
revise p actions =
    create
      (record { policy_id = p.policy_id; actions = actions; version = some (of_ℕ (p.version + 1)) })

unfoldable pub to_json : PolicyDefinition → PolicyDefinitionProps
to_json p = record { policy_id = p.policy_id; actions = p.actions; version = some (of_ℕ p.version) }
