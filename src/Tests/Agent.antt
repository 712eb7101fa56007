-- ===== src/Tests/Agent.antt =====
-- packages/agent at concrete inputs.
use Prim.Native.String.{◌++◌ as text_append}
use workspace_os.Base.{
  String, true, false, List, [], ◌∷◌, Option, none, some, ok, err, or_else, ◌≡◌, ◌≢◌, ◌↔◌, refl,
  arith, eq_iff, ◌==◌, if◌then◌else◌,
}
use workspace_os.Base.Text.{is_blank}
use workspace_os.Base.Sets.{has, has_any, has_all, set_of}
use workspace_os.Base.Int.{pos}
use workspace_os.Base.Number.{nan, of_ℕ}
use workspace_os.Base.Maps.{lookup, insert, map_of}
use workspace_os.Base.Date.{Date, at, time_plus, new_date, time_minus}
use workspace_os.Core.Member.{agent, has_any_role}
use workspace_os.Core.Persona.{allows_tool}
use workspace_os.Core.AgentCredential
use workspace_os.Core.AgentCredential.{AgentCredential, is_expired, has_all_scopes}
use workspace_os.Governance.Action.{of, get}
use workspace_os.Governance.PolicyEngine.{
  PolicyEngine, authorize, fails_role_gate, fails_relationship_gate, decide_by_consequence,
  can_execute_directly,
}
use workspace_os.Agent.Identity.{IssueCredentialInput, IssuedCredential, issue, verify}
use workspace_os.Agent.Identity.Laws.{answer, verify_ok_iff, verify-issue, nan_ttl_never_expires}
use workspace_os.Agent.Tools.Gateway.{
  Dict, Tool, ToolGatewayDeps, ToolInvokeRequest, invoked, registry, broker, invoke, authorized,
  with_credentials, call_tool, audit_then,
}
use workspace_os.Agent.Tools.Gateway.Credentials.{
  AllThere, IsFirstMissing, broker_exact, broker_total,
}
use workspace_os.Agent.Tools.Gateway.Calls.{has_call, action_of, audits, IsCleared, call_iff}
use workspace_os.Agent.Tools.Gateway.Audit.{audits_hide_secrets}
use workspace_os.Agent.Tools.Gateway.Engine.{
  engine_authorizer, no_context, engine_call_iff, relationship_blocks_calls,
}
use workspace_os.Tests.Samples.{bot, coder, merge_action, policy}

-- A hash for the tests: it marks the text.
abbrev hash : String → String
hash t = text_append "h:" t

abbrev input : IssueCredentialInput
input = record { agent = bot; scopes = "read" ∷ []; ttl_ms = of_ℕ 60000 }

abbrev issued : IssuedCredential
issued = record {
  credential = record {
    id = "c_1";
    agent_member_id = "m_bot";
    token_hash = "h:t_1";
    scopes = "read" ∷ [];
    issued_at = at (pos 1000);
    expires_at = at (pos 61000);
  };
  token = "t_1";
}

issue_test : issue hash "t_1" "c_1" input (at (pos 1000)) ≡ ok issued
unfolding issue AgentCredential.create AgentCredential.construct is_blank time_plus new_date
    time_minus set_of
issue_test = refl

verify-issue_test :
    (input.agent.type ≡ agent)
    × (issued.credential.agent_member_id ≡ input.agent.id)
    × (issued.token ≡ "t_1")
    × ((presented : String) (required : List String) (later : Date)
        → verify hash presented issued.credential required later
          ≡ answer hash "t_1" input.scopes presented issued.credential required later)
verify-issue_test = verify-issue hash "t_1" "c_1" input (at (pos 1000)) issued issue_test

verify_ok_iff_test : (verify hash "t_1" issued.credential ("read" ∷ []) (at (pos 2000)) ≡ ok tt) ↔ (
    (issued.credential.token_hash ≡ hash "t_1")
    × (is_expired issued.credential (at (pos 2000)) ≡ false)
    × (has_all_scopes issued.credential ("read" ∷ []) ≡ true))
verify_ok_iff_test = verify_ok_iff hash "t_1" issued.credential ("read" ∷ []) (at (pos 2000))

abbrev endless : IssueCredentialInput
endless = record input { ttl_ms = nan }

not_blank : (is_blank "c_1" ≡ false) × (is_blank "m_bot" ≡ false) × (is_blank "h:t_1" ≡ false)
unfolding is_blank
not_blank = (refl, refl, refl)

nan_ttl_never_expires_example :
    (out : IssuedCredential) × (issue hash "t_1" "c_1" endless (at (pos 1000)) ≡ ok out)
    × ((later : Date) (required : List String)
        → has_all endless.scopes required ≡ true
        → verify hash "t_1" out.credential required later ≡ ok tt)
nan_ttl_never_expires_example =
    nan_ttl_never_expires hash "t_1" "c_1" endless (at (pos 1000)) refl refl not_blank.0 not_blank.1
      not_blank.2

-- A tool that searches and one that merges, with a vault of one secret.
abbrev TextTool : Type 0
TextTool = Tool String String String

abbrev search_tool : TextTool
search_tool = record {
  name = "search";
  action = none;
  required_secrets = some ("KEY" ∷ []);
  invoke = λ i credentials. ok "found";
}

abbrev merge_tool : TextTool
merge_tool = record {
  name = "merge";
  action = none;
  required_secrets = none;
  invoke = λ i credentials. ok "merged";
}

abbrev vault : String → Option String
vault k = if k == "KEY" then some "s3cret" else none

abbrev other_vault : String → Option String
other_vault k = if k == "KEY" then some "0ther" else none

abbrev engine : PolicyEngine
engine = record { registry = of policy.actions }

abbrev deps : ToolGatewayDeps String String String
deps = record {
  tools = search_tool ∷ merge_tool ∷ [];
  authorize = engine_authorizer engine;
  secret = vault;
  audit_failure = λ a. none;
}

abbrev searches : ToolInvokeRequest String String String
searches = record { member = bot; persona = coder; tool_name = "search"; input = "q" }

abbrev merges : ToolInvokeRequest String String String
merges = record { member = bot; persona = coder; tool_name = "merge"; input = "q" }

broker_test :
    (broker vault [] ("KEY" ∷ []) ≡ ok (("KEY", "s3cret") ∷ []))
    × (broker vault [] ("KEY" ∷ "DB" ∷ []) ≡ err "DB")
unfolding broker insert
broker_test = (refl, refl)

broker_exact_test :
    lookup "KEY" (("KEY", "s3cret") ∷ []) ≡ (if has ("KEY" ∷ []) "KEY" then vault "KEY" else none)
broker_exact_test = broker_exact vault ("KEY" ∷ []) (("KEY", "s3cret") ∷ []) broker_test.0 "KEY"

broker_total_test :
    (AllThere vault ("KEY" ∷ "DB" ∷ [])
      → (credentials : Dict) × (broker vault [] ("KEY" ∷ "DB" ∷ []) ≡ ok credentials))
    × ((missing : String)
        → IsFirstMissing vault missing ("KEY" ∷ "DB" ∷ [])
        → broker vault [] ("KEY" ∷ "DB" ∷ []) ≡ err missing)
broker_total_test = broker_total vault ("KEY" ∷ "DB" ∷ [])

call_iff_test :
    (has_call (invoke deps searches).1 ≡ true)
    ↔ ((tool : TextTool) × (credentials : Dict) × IsCleared deps searches tool credentials)
call_iff_test = call_iff deps searches

engine_call_iff_example : (has_call (invoke deps searches).1 ≡ true) ↔ (
    (tool : TextTool) × (credentials : Dict) × (allows_tool coder "search" ≡ true)
    × (lookup "search" (registry deps) ≡ some tool)
    × (can_execute_directly engine bot (action_of tool "search") no_context ≡ true)
    × (broker vault [] (or_else tool.required_secrets []) ≡ ok credentials))
engine_call_iff_example = engine_call_iff deps searches engine refl

merge_found :
    (lookup "merge" (registry deps) ≡ some merge_tool)
    × (get engine.registry "tool.merge" ≡ some merge_action)
unfolding registry get of lookup insert map_of
merge_found = (refl, refl)

abbrev owner : String
owner = "owner"

owner_named : owner ≢ ""
owner_named = ground (arith, eq_iff owner "")

relationship_blocks_calls_example : has_call (invoke deps merges).1 ≡ false
relationship_blocks_calls_example =
    relationship_blocks_calls deps merges engine refl merge_tool merge_action owner merge_found.0
      merge_found.1 refl owner_named

-- The answer of a gateway whose vault has the secret.
search_answered :
    ((invoke deps searches).0 ≡ ok (invoked "found"))
    × ((invoke (record deps { secret = other_vault }) (record searches { input = "private" })).0
        ≡ ok (invoked "found"))
unfolding invoke authorized with_credentials call_tool audit_then broker registry lookup insert
    allows_tool has engine_authorizer map_of authorize get of fails_role_gate has_any_role has_any
    fails_relationship_gate decide_by_consequence
search_answered = (refl, refl)

audits_hide_secrets_example :
    audits (invoke deps searches).1
    ≡ audits
        (invoke (record deps { secret = other_vault }) (record searches { input = "private" })).1
audits_hide_secrets_example =
    audits_hide_secrets deps searches other_vault "private" (invoked "found") (invoked "found")
      search_answered.0 search_answered.1
