-- ===== src/Tests/Runner.antt =====
-- The agent runner of packages/agent at concrete inputs.
use workspace_os.Base.{String, [], ◌∷◌, some, refl, arith, All}
use workspace_os.Base.Text.{is_blank}
use workspace_os.Base.Sets.{has}
use workspace_os.Adapters.Board.{row_of, fits_integer}
use workspace_os.Adapters.Board.Claims.{IsReadable}
use workspace_os.Agent.Runner.{AgentRunnerDeps, Workspace, TurnDraw, run_times}
use workspace_os.Agent.Runner.Drain.{NothingLeft, run_times_drains}
use workspace_os.Tests.Samples.{bot, coder, fix_login}
use workspace_os.Tests.Models.{config, fresh}

abbrev deps : AgentRunnerDeps String
deps = record { agent = bot; persona = coder; task = some "code"; config = config }

abbrev desk : Workspace
desk = record { rows = row_of fix_login 10 ∷ []; gateway = fresh; log = []; members = "m_bot" ∷ [] }

abbrev draw : TurnDraw
draw = record { claim_id = "a_1"; complete_id = "a_2"; now = 30 }

desk-IsReadable : All IsReadable desk.rows
unfolding is_blank fits_integer
desk-IsReadable = ((refl, refl, refl), tt)

run_times_drains_example : NothingLeft deps (run_times deps (λ n. draw) 1 desk).rows
unfolding has
run_times_drains_example =
    run_times_drains deps (λ n. draw) 1 desk desk-IsReadable refl (omega arith)
