-- ===== src/Agent/Tools/Gateway/Audit.antt =====
-- tool-gateway.ts: what the activity log gets.
use workspace_os.Base.{
  String, not, List, ◌∷◌, [], Option, none, some, Result, ok, err, if◌then◌else◌, or_else, ◌==◌,
  ◌≡◌, ap, sym, ◌∙◌, arith, Option-cases, Bool-cases, Result-cases, inl, inr,
}
use workspace_os.Base.Maps.{lookup}
use workspace_os.Core.Persona.{allows_tool}
use workspace_os.Agent.Tools.Gateway.{
  Dict, AuditInput, Tool, ToolGatewayDeps, ToolInvokeRequest, ToolInvokeOutcome, ToolError,
  registry, broker, audit_then, entry, call_tool, with_credentials, authorized, refuse, invoke,
}
use workspace_os.Agent.Tools.Gateway.Calls.{audits, action_of}

module _ {Input Output Failure : Type 0} (deps : ToolGatewayDeps Input Output Failure)
    (r : ToolInvokeRequest Input Output Failure) where
  -- The record of a request, told from the tools and the authorizer alone: neither the vault nor the
  -- input of the request nor the output of the tool has a part in it.
  abbrev pub expected_for : Tool Input Output Failure → AuditInput
  expected_for tool =
      let action = action_of tool r.tool_name in
      let d = deps.authorize r.member action in
      let metadata : Dict = ("action", action) ∷ ("reason", d.reason) ∷ [] in
      if d.outcome == "deny"
      then entry r "tool.denied" metadata
      else if d.outcome == "requires_approval"
      then entry r "tool.proposed" metadata
      else entry r "tool.invoke" (("action", action) ∷ ("status", "invoked") ∷ [])

  abbrev pub expected : AuditInput
  expected =
      if not (allows_tool r.persona r.tool_name)
      then entry r "tool.denied" (("reason", "not-in-persona") ∷ [])
      else elim (lookup r.tool_name (registry deps)) [
        | none ↦ entry r "tool.denied" (("reason", "unknown-tool") ∷ [])
        | some tool ↦ expected_for tool
      ]

  -- Recorded once if the request was answered, and not at all if something was thrown.
  abbrev pub recorded :
      AuditInput
      → Result (ToolError Input Output Failure) (ToolInvokeOutcome Input Output Failure)
      → List AuditInput
  recorded a (ok o) = a ∷ []
  recorded a (err e) = []

  audits-audit_then :
      (a : AuditInput) (o : ToolInvokeOutcome Input Output Failure)
      → audits (audit_then deps a [] o).1 ≡ recorded a (audit_then deps a [] o).0
  unfolding audit_then
  audits-audit_then a o = ground arith

  audits-call_tool :
      (tool : Tool Input Output Failure) (action : String) (credentials : Dict)
      → audits (call_tool deps r tool action credentials).1
        ≡ recorded
            (entry r "tool.invoke" (("action", action) ∷ ("status", "invoked") ∷ []))
            (call_tool deps r tool action credentials).0
  unfolding call_tool audit_then
  audits-call_tool tool action credentials = ground arith

  audits-with_credentials :
      (tool : Tool Input Output Failure) (action : String)
      → audits (with_credentials deps r tool action).1
        ≡ recorded
            (entry r "tool.invoke" (("action", action) ∷ ("status", "invoked") ∷ []))
            (with_credentials deps r tool action).0
  unfolding with_credentials
  audits-with_credentials tool action =
      elim (Result-cases (broker deps.secret [] (or_else tool.required_secrets []))) [
        | inl (credentials, e) ↦ rw (e, with_credentials) (audits-call_tool tool action credentials)
        | inr (name, e) ↦ rw (e, with_credentials)
      ]

  audits-authorized :
      (tool : Tool Input Output Failure)
      → audits (authorized deps r tool).1 ≡ recorded (expected_for tool) (authorized deps r tool).0
  unfolding authorized
  audits-authorized tool =
      let d = deps.authorize r.member (action_of tool r.tool_name) in
      elim (Bool-cases (d.outcome == "deny")) [
        | inl denies ↦ rw (denies, authorized) (audits-audit_then _ _)
        | inr lets ↦ elim (Bool-cases (d.outcome == "requires_approval")) [
          | inl proposes ↦ rw (lets, proposes, authorized) (audits-audit_then _ _)
          | inr goes ↦
              rw (lets, goes, authorized)
                (audits-with_credentials tool (action_of tool r.tool_name))
        ]
      ]

  pub audits_exact : audits (invoke deps r).1 ≡ recorded expected (invoke deps r).0
  unfolding invoke refuse
  audits_exact = elim (Bool-cases (allows_tool r.persona r.tool_name)) [
    | inl allowed ↦ elim (Option-cases (lookup r.tool_name (registry deps))) [
      | inl missing ↦ rw (allowed, missing) (audits-audit_then _ _)
      | inr (tool, found) ↦ rw (allowed, found) (audits-authorized tool)
    ]
    | inr other ↦ rw other (audits-audit_then _ _)
  ]

-- The records hold nothing of the secrets and nothing of the input: two requests that differ only in
-- the input, answered by gateways that differ only in the vault, leave the same records.
pub audits_hide_secrets :
    {Input Output Failure : Type 0} (deps : ToolGatewayDeps Input Output Failure)
    (r : ToolInvokeRequest Input Output Failure) (vault : String → Option String) (other : Input)
    (o o' : ToolInvokeOutcome Input Output Failure)
    → (invoke deps r).0 ≡ ok o
    → (invoke (record deps { secret = vault }) (record r { input = other })).0 ≡ ok o'
    → audits (invoke deps r).1
      ≡ audits (invoke (record deps { secret = vault }) (record r { input = other })).1
unfolding registry
audits_hide_secrets deps r vault other o o' h h' =
    let deps' = record deps { secret = vault } in
    let r' = record r { input = other } in
    audits_exact deps r
    ∙ ap (recorded deps r (expected deps r)) h
    ∙ sym (audits_exact deps' r' ∙ ap (recorded deps' r' (expected deps' r')) h')
