-- ===== src/Agent/Tools/Gateway/Engine.antt =====
-- tool-gateway.ts with the policy engine of packages/governance as its authorizer.
use mathlib.Core.Path.{subst}
use workspace_os.Base.{
  String, true, false, [], none, some, ok, or_else, ◌≡◌, ◌≢◌, ◌↔◌, refl, sym, ◌∙◌, ap, arith,
  eq_iff, Bool-cases, inl, inr,
}
use workspace_os.Base.Sets.{has}
use workspace_os.Base.Maps.{lookup}
use workspace_os.Core.Member.{Member}
use workspace_os.Core.Persona.{allows_tool}
use workspace_os.Governance.Action.{ActionDefinition, get}
use workspace_os.Governance.PolicyEngine.{
  AuthorizationOutcome, allow, deny, requires_approval, AuthorizationContext, PolicyEngine,
  authorize, can_execute_directly, is_allow,
}
use workspace_os.Governance.PolicyEngine.Decisions.{can_execute_directly_iff, IsRelated}
use workspace_os.Agent.Tools.Gateway.{
  Dict, Decision, Tool, ToolGatewayDeps, ToolInvokeRequest, registry, broker, invoke,
}
use workspace_os.Agent.Tools.Gateway.Calls.{has_call, action_of, call_iff}

abbrev pub outcome_name : AuthorizationOutcome → String
outcome_name allow = "allow"
outcome_name deny = "deny"
outcome_name requires_approval = "requires_approval"

abbrev pub no_context : AuthorizationContext
no_context = record { relationships = none }

-- `PolicyEngine.authorize` as a `ToolAuthorizer`: the gateway passes no context.
unfoldable pub engine_authorizer : PolicyEngine → Member → String → Decision
engine_authorizer engine m action =
    let d = authorize engine m action no_context in
    record { outcome = outcome_name d.outcome; reason = d.reason }

allow_of_names :
    (o : AuthorizationOutcome)
    → outcome_name o ≢ "deny"
    → outcome_name o ≢ "requires_approval"
    → o ≡ allow
allow_of_names allow h k = refl
allow_of_names deny h k = absurd (h refl)
allow_of_names requires_approval h k = absurd (k refl)

names_of_allow :
    (o : AuthorizationOutcome)
    → is_allow o ≡ true
    → (outcome_name o ≢ "deny") × (outcome_name o ≢ "requires_approval")
names_of_allow allow h =
    (ground (arith, eq_iff "allow" "deny"), ground (arith, eq_iff "allow" "requires_approval"))
names_of_allow deny h = cc h
names_of_allow requires_approval h = cc h

some_inj : {A : Type 0} {a b : A} → some a ≡ some b → a ≡ b
some_inj h = cc

blocked : (relationship : String) → relationship ≢ "" → IsRelated (some relationship) no_context → ⊥
unfolding has
blocked relationship named (inl e) = named e
blocked relationship named (inr h) = cc h

module _ {Input Output Failure : Type 0} (deps : ToolGatewayDeps Input Output Failure)
    (r : ToolInvokeRequest Input Output Failure) (engine : PolicyEngine)
    (wired : deps.authorize ≡ engine_authorizer engine) where
  direct_of_outcome :
      (action : String)
      → (deps.authorize r.member action).outcome ≢ "deny"
      → (deps.authorize r.member action).outcome ≢ "requires_approval"
      → can_execute_directly engine r.member action no_context ≡ true
  unfolding can_execute_directly engine_authorizer
  direct_of_outcome action h k = ap is_allow (allow_of_names _ (rw wired at h) (rw wired at k))

  names_of_direct :
      (action : String)
      → can_execute_directly engine r.member action no_context ≡ true
      → ((deps.authorize r.member action).outcome ≢ "deny")
        × ((deps.authorize r.member action).outcome ≢ "requires_approval")
  unfolding can_execute_directly engine_authorizer
  names_of_direct action h = rw wired (names_of_allow _ h)

  -- With the policy engine as its authorizer the gateway calls a tool exactly if the persona allows
  -- its name, the name is registered, the acting member may execute the tool's action directly with
  -- no relationship given, and the required secrets were brokered.
  pub engine_call_iff : (has_call (invoke deps r).1 ≡ true) ↔ (
      (tool : Tool Input Output Failure) × (credentials : Dict) × (allows_tool r.persona r.tool_name
        ≡ true)
      × (lookup r.tool_name (registry deps) ≡ some tool)
      × (can_execute_directly engine r.member (action_of tool r.tool_name) no_context ≡ true)
      × (broker deps.secret [] (or_else tool.required_secrets []) ≡ ok credentials))
  engine_call_iff = (
    λ h.
        let (tool, credentials, c) = (call_iff deps r).0 h in
        (
          tool,
          credentials,
          c.in_persona,
          c.registered,
          direct_of_outcome (action_of tool r.tool_name) c.not_denied c.not_proposed,
          c.brokered,
        ),
    λ (tool, credentials, allowed, found, direct, brokered). (call_iff deps r).1 (
      tool,
      credentials,
      record {
        in_persona = allowed;
        registered = found;
        not_denied = (names_of_direct (action_of tool r.tool_name) direct).0;
        not_proposed = (names_of_direct (action_of tool r.tool_name) direct).1;
        brokered = brokered;
      },
    ),
  )

  -- A tool whose action asks for a relationship is called for nobody: the gateway gives the engine
  -- no relationships.
  pub relationship_blocks_calls :
      (tool : Tool Input Output Failure) (action : ActionDefinition) (relationship : String)
      → lookup r.tool_name (registry deps) ≡ some tool
      → get engine.registry (action_of tool r.tool_name) ≡ some action
      → action.required_relationship ≡ some relationship
      → relationship ≢ ""
      → has_call (invoke deps r).1 ≡ false
  unfolding has
  relationship_blocks_calls tool action relationship found listed gate named =
      elim (Bool-cases (has_call (invoke deps r).1)) [
        | inr no_call ↦ no_call
        | inl call ↦
            let (tool', credentials, allowed, found', direct, brokered) = engine_call_iff.0 call in
            let same : tool' ≡ tool = some_inj (sym found' ∙ found) in
            let (action', e, plain) =
              (can_execute_directly_iff engine r.member (action_of tool' r.tool_name) no_context).0
                direct in
            let listed' : get engine.registry (action_of tool' r.tool_name) ≡ some action =
              rw same listed in
            let same_action : action' ≡ action = some_inj (sym e.registered ∙ listed') in
            let related : IsRelated (some relationship) no_context =
              subst (λ o. IsRelated o no_context) gate
                (subst (λ (a : ActionDefinition). IsRelated a.required_relationship no_context)
                  same_action e.related) in
            absurd (blocked relationship named related)
      ]
