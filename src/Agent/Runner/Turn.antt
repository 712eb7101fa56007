-- ===== src/Agent/Runner/Turn.antt =====
-- agent-runner.ts: what one turn does.
use workspace_os.Base.{ℕ, String, List, ◌∷◌, [], ◌++◌, some, Result, ok, err, ◌≡◌, refl}
use workspace_os.Core.WorkItem.{WorkItem, claimed, done, start, complete}
use workspace_os.Adapters.Board.{Row, upsert, update_row}
use workspace_os.Adapters.Board.Claims.{claimed_item}
use workspace_os.Adapters.Activity.{ActivityRecord}
use workspace_os.Agent.Model.Gateway
use workspace_os.Agent.Model.Gateway.{ModelCompletionResult, GatewayError, GatewayState}
use workspace_os.Agent.Runner.{
  AgentRunResult, completed, AgentRunnerDeps, Workspace, TurnDraw, RunError, gateway_error, preview,
  request_for, finish,
}

module _ {Failure : Type 0} (deps : AgentRunnerDeps Failure) where
  -- The entry that a report adds to the log.
  abbrev pub entry : String → ℕ → String → String → List (String × String) → ActivityRecord
  entry id now action resource metadata = record {
    id = id;
    actor_member_id = deps.agent.id;
    actor_type = deps.agent.type;
    action = action;
    resource_type = "work_item";
    resource_id = resource;
    metadata = metadata;
    occurred_at = now;
  }

  -- The item that a completed turn saves for a row.
  abbrev pub done_item : Row → WorkItem
  done_item row = record (claimed_item row deps.agent) { state = done }

  pub finish_claimed : (row : Row) → finish deps (claimed_item row deps.agent) ≡ ok (done_item row)
  unfolding finish start complete
  finish_claimed row = refl

  -- The workspace of a turn that claimed a row, once the claim was reported.
  abbrev pub claimed_workspace : TurnDraw → Row → Workspace → Workspace
  claimed_workspace draw row w = record w {
    rows = update_row row.id claimed (some deps.agent.id) w.rows;
    log = w.log ++ entry draw.claim_id draw.now "work.claim" row.id [] ∷ [];
  }

  -- What the gateway answers to the turn.
  abbrev pub answer :
      Row → Workspace → Result (GatewayError Failure) ModelCompletionResult × GatewayState
  answer row w =
      Gateway.complete deps.config w.gateway (request_for deps (claimed_item row deps.agent))

  -- What a turn returns and leaves once it claimed a row, by the gateway's answer.
  abbrev pub outcome :
      TurnDraw
      → Row
      → Workspace
      → Result (GatewayError Failure) ModelCompletionResult × GatewayState
      → Result (RunError Failure) AgentRunResult × Workspace
  outcome draw row w (err e, gateway) = (err (gateway_error e), record w { gateway = gateway })
  outcome draw row w (ok completion, gateway) = (
    ok (completed row.id completion.content),
    record w {
      rows = upsert (done_item row) draw.now w.rows;
      gateway = gateway;
      log =
          w.log
          ++ entry draw.complete_id draw.now "work.complete" row.id
              (("outputPreview", preview completion.content) ∷ [])
            ∷ [];
    },
  )
