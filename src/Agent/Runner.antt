-- ===== src/Agent/Runner.antt =====
-- packages/agent/src/runtime/agent-runner.ts: one turn of the agent loop, over the work item
-- repository, the model gateway and the activity log. A turn that throws leaves what it did before.
pub mod Turn
pub mod Drain
use Prim.Native.Char.{Char, code}
use Prim.Native.String.{◌++◌ as text_append}
use workspace_os.Base.{
  ℕ, zero, suc, ◌+◌, ◌-◌, String, List, ◌∷◌, [], Option, none, some, Result, ok, err, ◌>>=◌,
  if◌then◌else◌, or_else, ◌==◌, ltb,
}
use workspace_os.Core.Member.{Member}
use workspace_os.Core.Persona.{Persona}
use workspace_os.Core.WorkItem.{WorkItem, WorkItemError, start, complete}
use workspace_os.Adapters.Board.{Row, BoardError, save, claim_next}
use workspace_os.Adapters.Activity.{ActivityRecord, UnknownActorError, record_activity}
use workspace_os.Agent.Model.Gateway
use workspace_os.Agent.Model.Gateway.{
  system, user, ModelCompletionResult, ModelGatewayConfig, GatewayCompletionRequest, GatewayError,
  GatewayState,
}

pub data AgentRunResult : Type 0 where
  idle : AgentRunResult
  completed : String → String → AgentRunResult

-- The agent, its persona, the routing task and what the gateway is configured with.
pub record AgentRunnerDeps (Failure : Type 0) : Type 0 where
  pub agent : Member
  pub persona : Persona
  pub task : Option String
  pub config : ModelGatewayConfig Failure

-- What the turns of an agent change, with the ids of the table `members`.
pub record Workspace : Type 0 where
  pub rows : List Row
  pub gateway : GatewayState
  pub log : List ActivityRecord
  pub members : List String

-- What the database gives to one turn.
pub record TurnDraw : Type 0 where
  pub claim_id : String
  pub complete_id : String
  pub now : ℕ

pub data RunError (Failure : Type 0) : Type 0 where
  item_error : WorkItemError → RunError Failure
  board_error : BoardError → RunError Failure
  gateway_error : GatewayError Failure → RunError Failure
  activity_error : UnknownActorError → RunError Failure

-- `item.description ? ... : item.title`: an empty description counts as none
unfoldable pub with_description : String → Option String → String
with_description title none = title
with_description title (some description) =
    if description == "" then title else text_append title (text_append "\n\n" description)

abbrev pub describe_task : WorkItem → String
describe_task item = with_description item.title item.description

-- the code units of a character in a JavaScript text
abbrev pub units : Char → ℕ
units c = if ltb (code c) 65536 then 1 else 2

unfoldable pub text_length : String → ℕ
text_length String.[] = 0
text_length (String.◌∷◌ c s) = units c + text_length s

-- `text.slice(0, n)`; of a character that the cut splits nothing is kept here
unfoldable pub slice_start : ℕ → String → String
slice_start n String.[] = ""
slice_start n (String.◌∷◌ c s) =
    let rest = slice_start (n - units c) s in if ltb n (units c) then "" else String.◌∷◌ c rest

unfoldable pub preview : String → String
preview text = if ltb 500 (text_length text) then text_append (slice_start 500 text) "…" else text

module _ {Failure : Type 0} (deps : AgentRunnerDeps Failure) where
  abbrev pub Turn : Type 0
  Turn = Result (RunError Failure) AgentRunResult × Workspace

  abbrev pub request_for : WorkItem → GatewayCompletionRequest
  request_for item = record {
    member_id = deps.agent.id;
    task = or_else deps.task "reasoning";
    messages =
        record { role = system; content = deps.persona.system_prompt }
        ∷ record { role = user; content = describe_task item }
        ∷ [];
    max_tokens = none;
    temperature = none;
  }

  -- `metadata` is absent when a claim is reported
  unfoldable pub report :
      String
      → ℕ
      → String
      → WorkItem
      → Option (List (String × String))
      → Workspace
      → Result UnknownActorError Workspace
  report id now action item metadata w = do
    log ←
        record_activity w.members id now
          (record {
            actor = deps.agent;
            action = action;
            resource_type = "work_item";
            resource_id = item.id;
            metadata = metadata;
          })
          w.log
    ok (record w { log = log })

  unfoldable pub report_done : TurnDraw → String → WorkItem → Workspace → Turn
  report_done draw output done saved =
      elim (report draw.complete_id draw.now "work.complete" done
        (some (("outputPreview", preview output) ∷ [])) saved) [
          | err e ↦ (err (activity_error e), saved)
          | ok reported ↦ (ok (completed done.id output), reported)
        ]

  -- the item was started and completed: it is saved and reported
  unfoldable pub act_and_report : TurnDraw → String → WorkItem → Workspace → Turn
  act_and_report draw output done w = elim (save w.members done draw.now w.rows) [
    | err e ↦ (err (board_error e), w)
    | ok rows ↦ report_done draw output done (record w { rows = rows })
  ]

  -- `claimed.start().complete()`
  unfoldable pub finish : WorkItem → Result WorkItemError WorkItem
  finish claimed = do started ← start claimed; complete started

  unfoldable pub after_answer :
      TurnDraw
      → WorkItem
      → Workspace
      → Result (GatewayError Failure) ModelCompletionResult × GatewayState
      → Turn
  after_answer draw claimed w (err e, gateway) =
      (err (gateway_error e), record w { gateway = gateway })
  after_answer draw claimed w (ok completion, gateway) =
      let thought = record w { gateway = gateway } in
      elim (finish claimed) [
        | err e ↦ (err (item_error e), thought)
        | ok done ↦ act_and_report draw completion.content done thought
      ]

  -- the part of a turn after an item was claimed
  unfoldable pub work_on : TurnDraw → WorkItem → Workspace → Turn
  work_on draw claimed w = elim (report draw.claim_id draw.now "work.claim" claimed none w) [
    | err e ↦ (err (activity_error e), w)
    | ok reported ↦
        after_answer draw claimed reported
          (Gateway.complete deps.config reported.gateway (request_for claimed))
  ]

  -- `locked` are the rows that other transactions hold while the turn claims
  unfoldable pub run_once : TurnDraw → List String → Workspace → Turn
  run_once draw locked w = elim (claim_next w.members deps.agent locked w.rows) [
    | err e ↦ (err (board_error e), w)
    | ok (none, rows) ↦ (ok idle, record w { rows = rows })
    | ok (some claimed, rows) ↦ work_on draw claimed (record w { rows = rows })
  ]

  -- turns one after the other, each with its draw, whatever the turns return
  unfoldable pub run_times : (ℕ → TurnDraw) → ℕ → Workspace → Workspace
  run_times draws zero w = w
  run_times draws (suc n) w = run_times draws n (run_once (draws n) [] w).1
