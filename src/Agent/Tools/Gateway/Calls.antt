-- ===== src/Agent/Tools/Gateway/Calls.antt =====
-- tool-gateway.ts: when a tool is called, and what the activity log gets.
use workspace_os.Base.{
  String, Bool, true, false, List, ◌∷◌, [], some, ok, or_else, ◌==◌, ◌≡◌, ◌≢◌, ◌↔◌, inl, inr, arith,
  eq_iff, Option-cases, Bool-cases,
}
use workspace_os.Base.Maps.{lookup}
use workspace_os.Core.Persona.{allows_tool}
use Prim.Native.String.{◌++◌ as text_append}
use workspace_os.Agent.Tools.Gateway.{
  Dict, AuditInput, Tool, ToolGatewayDeps, ToolInvokeRequest, ToolInvokeOutcome, requires_approval,
  denied, Event, called, audited, registry, broker, audit_then, entry, call_tool, with_credentials,
  authorized, refuse, invoke,
}

module _ {Input Output Failure : Type 0} where
  abbrev pub has_call : List (Event Input Output Failure) → Bool
  has_call [] = false
  has_call (called n i c ∷ es) = true
  has_call (audited a ∷ es) = has_call es

  abbrev pub audits : List (Event Input Output Failure) → List AuditInput
  audits [] = []
  audits (called n i c ∷ es) = audits es
  audits (audited a ∷ es) = a ∷ audits es

  abbrev pub action_of : Tool Input Output Failure → String → String
  action_of tool name = or_else tool.action (text_append "tool." name)

ne_of_test : (s t : String) → (s == t) ≡ false → s ≢ t
ne_of_test s t h = ground (arith, eq_iff s t)

test_of_ne : (s t : String) → s ≢ t → (s == t) ≡ false
test_of_ne s t h = ground (arith, eq_iff s t)

module _ {Input Output Failure : Type 0} (deps : ToolGatewayDeps Input Output Failure)
    (r : ToolInvokeRequest Input Output Failure) where
  -- What must hold for a tool to be called.
  pub record IsCleared (tool : Tool Input Output Failure) (credentials : Dict) : Type 0 where
    pub in_persona : allows_tool r.persona r.tool_name ≡ true
    pub registered : lookup r.tool_name (registry deps) ≡ some tool
    pub not_denied : (deps.authorize r.member (action_of tool r.tool_name)).outcome ≢ "deny"
    pub not_proposed :
        (deps.authorize r.member (action_of tool r.tool_name)).outcome ≢ "requires_approval"
    pub brokered : broker deps.secret [] (or_else tool.required_secrets []) ≡ ok credentials

  no_call_audit :
      (a : AuditInput) (o : ToolInvokeOutcome Input Output Failure)
      → has_call (audit_then deps a [] o).1 ≡ false
  unfolding audit_then
  no_call_audit a o = ground arith

  call_made :
      (tool : Tool Input Output Failure) (action : String) (credentials : Dict)
      → has_call (call_tool deps r tool action credentials).1 ≡ true
  unfolding call_tool audit_then
  call_made tool action credentials = ground arith

  with_credentials_sound :
      (tool : Tool Input Output Failure) (action : String)
      → has_call (with_credentials deps r tool action).1 ≡ true
      → (credentials : Dict) × (broker deps.secret [] (or_else tool.required_secrets [])
          ≡ ok credentials)
  unfolding with_credentials
  with_credentials_sound tool action h = ground arith

  authorized_sound :
      (tool : Tool Input Output Failure)
      → has_call (authorized deps r tool).1 ≡ true
      → ((deps.authorize r.member (action_of tool r.tool_name)).outcome ≢ "deny")
        × ((deps.authorize r.member (action_of tool r.tool_name)).outcome ≢ "requires_approval")
        × ((credentials : Dict) × (broker deps.secret [] (or_else tool.required_secrets [])
              ≡ ok credentials))
  unfolding authorized
  authorized_sound tool h =
      let d = deps.authorize r.member (action_of tool r.tool_name) in
      let metadata : Dict = ("action", action_of tool r.tool_name) ∷ ("reason", d.reason) ∷ [] in
      elim (Bool-cases (d.outcome == "deny")) [
        | inl denies ↦ cc (
          no_call_audit (entry r "tool.denied" metadata) (denied d.reason),
          rw (denies, authorized) at h,
        )
        | inr lets ↦ elim (Bool-cases (d.outcome == "requires_approval")) [
          | inl proposes ↦ cc (
            no_call_audit (entry r "tool.proposed" metadata) (requires_approval d.reason),
            rw (lets, proposes, authorized) at h,
          )
          | inr goes ↦ (
            ne_of_test d.outcome "deny" lets,
            ne_of_test d.outcome "requires_approval" goes,
            with_credentials_sound tool (action_of tool r.tool_name)
                (rw (lets, goes, authorized) at h),
          )
        ]
      ]

  call_sound :
      has_call (invoke deps r).1 ≡ true
      → (tool : Tool Input Output Failure) × (credentials : Dict) × IsCleared tool credentials
  unfolding invoke refuse
  call_sound h = elim (Bool-cases (allows_tool r.persona r.tool_name)) [
    | inl allowed ↦ elim (Option-cases (lookup r.tool_name (registry deps))) [
      | inl missing ↦ cc (
        no_call_audit (entry r "tool.denied" (("reason", "unknown-tool") ∷ []))
            (denied "unknown-tool"),
        rw (allowed, missing, invoke) at h,
      )
      | inr (tool, found) ↦
          let (not_denied, not_proposed, (credentials, brokered)) =
            authorized_sound tool (rw (allowed, found, invoke) at h) in
          (
            tool,
            credentials,
            record {
              in_persona = allowed;
              registered = found;
              not_denied = not_denied;
              not_proposed = not_proposed;
              brokered = brokered;
            },
          )
    ]
    | inr other ↦ cc (
      no_call_audit (entry r "tool.denied" (("reason", "not-in-persona") ∷ []))
          (denied "not-in-persona"),
      rw (other, invoke) at h,
    )
  ]

  cleared_calls :
      (tool : Tool Input Output Failure) (credentials : Dict)
      → IsCleared tool credentials
      → invoke deps r ≡ call_tool deps r tool (action_of tool r.tool_name) credentials
  unfolding invoke authorized
  cleared_calls tool credentials c =
      rw
        (
          c.in_persona,
          c.registered,
          test_of_ne _ "deny" c.not_denied,
          test_of_ne _ "requires_approval" c.not_proposed,
        )
        (unfold with_credentials in rw (c.brokered, with_credentials))

  -- A tool is called exactly if the persona allows its name, the name is registered, the
  -- authorizer's outcome is neither "deny" nor "requires_approval", and every secret that the tool
  -- requires was brokered.
  pub call_iff :
      (has_call (invoke deps r).1 ≡ true)
      ↔ ((tool : Tool Input Output Failure) × (credentials : Dict) × IsCleared tool credentials)
  call_iff = (
    call_sound,
    λ (tool, credentials, c).
        rw (cleared_calls tool credentials c)
          (call_made tool (action_of tool r.tool_name) credentials),
  )
