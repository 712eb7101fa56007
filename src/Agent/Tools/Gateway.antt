-- ===== src/Agent/Tools/Gateway.antt =====
-- packages/agent/src/tools/tool-gateway.ts. The tools, the authorizer, the vault and the activity
-- log are handed to the gateway by its caller: they are parameters. What the gateway does to them is
-- a list of events, in the order in which it happens.
pub mod Credentials
pub mod Calls
pub mod Audit
pub mod Engine
use workspace_os.Base.{
  String, Bool, true, false, not, List, ◌∷◌, [], ◌++◌, Option, none, some, Result, ok, err,
  if◌then◌else◌, or_else, ◌==◌,
}
use workspace_os.Base.Maps.{lookup, insert, map_of}
use workspace_os.Core.Member.{Member}
use workspace_os.Core.Persona.{Persona, allows_tool}
use Prim.Native.String.{◌++◌ as text_append}

-- A plain object whose values are texts.
abbrev pub Dict : Type 0
Dict = List (String × String)

-- `outcome` is any text: the interface does not bound it.
pub record Decision : Type 0 where
  pub outcome : String
  pub reason : String

-- What the gateway hands to `activity.record`.
pub record AuditInput : Type 0 where
  pub actor : Member
  pub action : String
  pub resource_id : String
  pub metadata : Dict

-- the loop that brokers the secrets; `err` is the first name that the vault does not have
unfoldable pub broker : (String → Option String) → Dict → List String → Result String Dict
broker secret credentials [] = ok credentials
broker secret credentials (name ∷ names) = elim (secret name) [
  | none ↦ err name
  | some value ↦ broker secret (insert name value credentials) names
]

module _ (Input Output Failure : Type 0) where
  pub record Tool : Type 0 where
    pub name : String
    pub action : Option String
    pub required_secrets : Option (List String)
    -- what `invoke` resolves or rejects with, for an input and the credentials
    pub invoke : Input → Dict → Result Failure Output

  pub record ToolGatewayDeps : Type 0 where
    pub tools : List Tool
    pub authorize : Member → String → Decision
    -- `secrets.get`; `none` if it rejects
    pub secret : String → Option String
    -- what `activity.record` rejects with, if it does
    pub audit_failure : AuditInput → Option Failure

  pub record ToolInvokeRequest : Type 0 where
    pub member : Member
    pub persona : Persona
    pub tool_name : String
    pub input : Input

  pub data ToolInvokeOutcome : Type 0 where
    invoked : Output → ToolInvokeOutcome
    requires_approval : String → ToolInvokeOutcome
    denied : String → ToolInvokeOutcome

  pub data ToolError : Type 0 where
    credential : String → String → ToolError
    tool_failed : Failure → ToolError
    audit_failed : Failure → ToolError

  pub data Event : Type 0 where
    called : String → Input → Dict → Event
    audited : AuditInput → Event

  abbrev pub Outcome : Type 0
  Outcome = Result ToolError ToolInvokeOutcome × List Event

module _ {Input Output Failure : Type 0} where
  abbrev pub tool_entries :
      List (Tool Input Output Failure) → List (String × Tool Input Output Failure)
  tool_entries [] = []
  tool_entries (t ∷ ts) = (t.name, t) ∷ tool_entries ts

  -- the constructor's `registry`
  unfoldable pub registry :
      ToolGatewayDeps Input Output Failure → List (String × Tool Input Output Failure)
  registry deps = map_of (tool_entries deps.tools)

  -- `audit`, and then the outcome; a rejected record is thrown on
  unfoldable pub audit_then :
      ToolGatewayDeps Input Output Failure
      → AuditInput
      → List (Event Input Output Failure)
      → ToolInvokeOutcome Input Output Failure
      → Outcome Input Output Failure
  audit_then deps entry events outcome = elim (deps.audit_failure entry) [
    | some e ↦ (err (audit_failed e), events)
    | none ↦ (ok outcome, events ++ audited entry ∷ [])
  ]

  abbrev pub entry : ToolInvokeRequest Input Output Failure → String → Dict → AuditInput
  entry r action metadata = record {
    actor = r.member;
    action = action;
    resource_id = r.tool_name;
    metadata = metadata;
  }

  -- the call itself, once its credentials are there
  unfoldable pub call_tool :
      ToolGatewayDeps Input Output Failure
      → ToolInvokeRequest Input Output Failure
      → Tool Input Output Failure
      → String
      → Dict
      → Outcome Input Output Failure
  call_tool deps r tool action credentials =
      let events : List (Event Input Output Failure) = called tool.name r.input credentials ∷ [] in
      elim (tool.invoke r.input credentials) [
        | err e ↦ (err (tool_failed e), events)
        | ok output ↦
            audit_then deps
              (entry r "tool.invoke" (("action", action) ∷ ("status", "invoked") ∷ [])) events
              (invoked output)
      ]

  unfoldable pub with_credentials :
      ToolGatewayDeps Input Output Failure
      → ToolInvokeRequest Input Output Failure
      → Tool Input Output Failure
      → String
      → Outcome Input Output Failure
  with_credentials deps r tool action =
      elim (broker deps.secret [] (or_else tool.required_secrets [])) [
        | err name ↦ (err (credential r.tool_name name), [])
        | ok credentials ↦ call_tool deps r tool action credentials
      ]

  -- the part of `invoke` after the tool was found
  unfoldable pub authorized :
      ToolGatewayDeps Input Output Failure
      → ToolInvokeRequest Input Output Failure
      → Tool Input Output Failure
      → Outcome Input Output Failure
  authorized deps r tool =
      let action = or_else tool.action (text_append "tool." r.tool_name) in
      let decision = deps.authorize r.member action in
      let metadata : Dict = ("action", action) ∷ ("reason", decision.reason) ∷ [] in
      if decision.outcome == "deny"
      then audit_then deps (entry r "tool.denied" metadata) [] (denied decision.reason)
      else if decision.outcome == "requires_approval"
      then audit_then deps (entry r "tool.proposed" metadata) [] (requires_approval decision.reason)
      else with_credentials deps r tool action

  unfoldable pub refuse :
      ToolGatewayDeps Input Output Failure
      → ToolInvokeRequest Input Output Failure
      → String
      → Outcome Input Output Failure
  refuse deps r reason =
      audit_then deps (entry r "tool.denied" (("reason", reason) ∷ [])) [] (denied reason)

  unfoldable pub invoke :
      ToolGatewayDeps Input Output Failure
      → ToolInvokeRequest Input Output Failure
      → Outcome Input Output Failure
  invoke deps r =
      if not (allows_tool r.persona r.tool_name)
      then refuse deps r "not-in-persona"
      else elim (lookup r.tool_name (registry deps)) [
        | none ↦ refuse deps r "unknown-tool"
        | some tool ↦ authorized deps r tool
      ]
