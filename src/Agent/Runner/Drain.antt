-- ===== src/Agent/Runner/Drain.antt =====
-- agent-runner.ts: an agent that keeps taking turns runs out of work.
use mathlib.Core.List.{Memᴰ}
use workspace_os.Base.{
  ℕ, zero, suc, ◌+◌, ◌≤◌, ◌<◌, String, true, false, List, ◌∷◌, [], Option, none, some, Result, ok,
  err, ◌≡◌, ◌⊎◌, refl, arith, inl, inr, All, if◌then◌else◌, eq_refl, ap, Result-cases, ◌∙◌,
}
use workspace_os.Core.WorkItem.{WorkItem, claimed, is_open}
use workspace_os.Adapters.Board.{Row, is_candidate, save, upsert, update_row, keep_key}
use workspace_os.Base.Sets.{has}
use workspace_os.Adapters.Board.Claims.{
  IsReadable, upsert-IsReadable, update_row-IsReadable, claimed_item, claim_next_known,
  candidate_parts, All-at,
}
use workspace_os.Agent.Model.Gateway
use workspace_os.Agent.Model.Gateway.{ModelCompletionResult, GatewayError, GatewayState}
use workspace_os.Adapters.Activity.{record_activity}
use workspace_os.Agent.Runner.{
  AgentRunnerDeps, Workspace, TurnDraw, request_for, report, report_done, act_and_report,
  after_answer, preview, work_on, run_once, run_times,
}
use workspace_os.Agent.Runner.Turn.{done_item, finish_claimed}

abbrev pub open_count : List Row → ℕ
open_count [] = 0
open_count (row ∷ rows) = (if is_open row.state then 1 else 0) + open_count rows

count-update :
    (id : String) (m : Option String) (rows : List Row)
    → open_count (update_row id claimed m rows) ≤ open_count rows
unfolding update_row
count-update id m [] = omega arith
count-update id m (row ∷ rows) = ground (arith, count-update id m rows)

count-update_lt :
    (row : Row) (m : Option String) (rows : List Row)
    → Memᴰ row rows
    → is_open row.state ≡ true
    → open_count (update_row row.id claimed m rows) < open_count rows
unfolding update_row
count-update_lt row m [] k h = elim k [ ]
count-update_lt row m (r ∷ rows) (Memᴰ.head e) h =
    rw (← e) (ground (arith, h, eq_refl row.id, count-update row.id m rows))
count-update_lt row m (r ∷ rows) (Memᴰ.tail k) h = ground (arith, count-update_lt row m rows k h)

count-upsert :
    (i : WorkItem) (now : ℕ) (rows : List Row)
    → is_open i.state ≡ false
    → open_count (upsert i now rows) ≤ open_count rows
unfolding upsert
count-upsert i now [] h = ground (arith, h)
count-upsert i now (row ∷ rows) h = ground (arith, h, count-upsert i now rows h)

-- No row of the table is a candidate.
abbrev pub NothingLeft : {Failure : Type 0} → AgentRunnerDeps Failure → List Row → Type 0
NothingLeft deps rows = All (λ r. is_candidate deps.agent [] r ≡ false) rows

module _ {Failure : Type 0} (deps : AgentRunnerDeps Failure) where
  kept-report :
      (id : String) (now : ℕ) (action : String) (i : WorkItem) (m : Option (List (String × String)))
      (w after : Workspace)
      → report deps id now action i m w ≡ ok after
      → (after.rows ≡ w.rows) × (after.members ≡ w.members)
  unfolding report record_activity
  kept-report id now action i m w after h = ground (arith, h)

  -- What a turn leaves once it claimed a row: the rows as they were, or with the item done; the
  -- members are not touched.
  abbrev Leaves : Row → ℕ → Workspace → Workspace → Type 0
  Leaves row now before after =
      (after.members ≡ before.members)
      × ((after.rows ≡ before.rows) ⊎ (after.rows ≡ upsert (done_item deps row) now before.rows))

  report_done-keeps :
      (draw : TurnDraw) (output : String) (i : WorkItem) (w : Workspace)
      → ((report_done deps draw output i w).1.rows ≡ w.rows)
        × ((report_done deps draw output i w).1.members ≡ w.members)
  unfolding report_done
  report_done-keeps draw output i w =
      let shown : Option (List (String × String)) = some (("outputPreview", preview output) ∷ []) in
      elim (Result-cases (report deps draw.complete_id draw.now "work.complete" i shown w)) [
        | inl (after, e) ↦ rw (e, report_done) (kept-report _ _ _ i shown w after e)
        | inr (x, e) ↦ rw (e, report_done) (refl, refl)
      ]

  act_and_report-Leaves :
      (draw : TurnDraw) (output : String) (row : Row) (w : Workspace)
      → Leaves row draw.now w (act_and_report deps draw output (done_item deps row) w).1
  unfolding act_and_report save keep_key
  act_and_report-Leaves draw output row w =
      let i = done_item deps row in
      elim (Result-cases (save w.members i draw.now w.rows)) [
        | inr (x, e) ↦ rw (e, act_and_report) (refl, inl refl)
        | inl (rows, e) ↦
            let written : rows ≡ upsert i draw.now w.rows = ground (arith, e) in
            let (same, kept) = report_done-keeps draw output i (record w { rows = rows }) in
            rw (e, act_and_report) (kept, inr (same ∙ written))
      ]

  after_answer-Leaves :
      (draw : TurnDraw) (row : Row) (w : Workspace)
      (a : Result (GatewayError Failure) ModelCompletionResult × GatewayState)
      → Leaves row draw.now w (after_answer deps draw (claimed_item row deps.agent) w a).1
  unfolding after_answer
  after_answer-Leaves draw row w (err e, gateway) = (refl, inl refl)
  after_answer-Leaves draw row w (ok completion, gateway) =
      rw (finish_claimed deps row, after_answer)
        (act_and_report-Leaves draw completion.content row (record w { gateway = gateway }))

  work_on-Leaves :
      (draw : TurnDraw) (row : Row) (w : Workspace)
      → Leaves row draw.now w (work_on deps draw (claimed_item row deps.agent) w).1
  unfolding work_on
  work_on-Leaves draw row w =
      let i = claimed_item row deps.agent in
      elim (Result-cases (report deps draw.claim_id draw.now "work.claim" i none w)) [
        | inr (x, e) ↦ rw (e, work_on) (refl, inl refl)
        | inl (after, e) ↦
            let (rows, members) = kept-report _ _ _ i none w after e in
            rw (e, work_on)
              (rw (← rows, ← members)
                (after_answer-Leaves draw row after
                  (Gateway.complete deps.config after.gateway (request_for deps i))))
      ]

  -- What a turn leaves of the claimed rows has as little open as they have, and is as readable.
  Leaves-less :
      (row : Row) (now : ℕ) (before after : Workspace)
      → IsReadable row
      → All IsReadable before.rows
      → Leaves row now before after
      → All IsReadable after.rows × (open_count after.rows ≤ open_count before.rows)
  Leaves-less row now before after h readable (same, inl e) = rw e (readable, omega arith)
  Leaves-less row now before after h readable (same, inr e) = rw e (
    upsert-IsReadable (done_item deps row) now before.rows h readable,
    count-upsert (done_item deps row) now before.rows refl,
  )

  -- A turn of a stored agent finds nothing and leaves the rows as they are, or leaves fewer open rows.
  turn_less :
      (draw : TurnDraw) (w : Workspace)
      → All IsReadable w.rows
      → has w.members deps.agent.id ≡ true
      → ((run_once deps draw [] w).1.members ≡ w.members)
        × ((NothingLeft deps w.rows × ((run_once deps draw [] w).1.rows ≡ w.rows))
            ⊎ (All IsReadable (run_once deps draw [] w).1.rows
                × (open_count (run_once deps draw [] w).1.rows < open_count w.rows)))
  unfolding run_once
  turn_less draw w readable known =
      elim (claim_next_known w.members deps.agent [] w.rows readable known) [
        | inl (nothing, e) ↦ rw (e, run_once) (refl, inl (nothing, refl))
        | inr (row, (listed, passes, first), e) ↦
            let claimed_rows = update_row row.id claimed (some deps.agent.id) w.rows in
            let opens : is_open row.state ≡ true =
              ap is_open (candidate_parts deps.agent [] row passes).0 in
            let leaves = work_on-Leaves draw row (record w { rows = claimed_rows }) in
            let (kept, fewer) =
              Leaves-less row draw.now (record w { rows = claimed_rows })
                (work_on deps draw (claimed_item row deps.agent)
                  (record w { rows = claimed_rows })).1
                (All-at IsReadable readable listed)
                (update_row-IsReadable row.id claimed (some deps.agent.id) w.rows readable)
                leaves in
            rw (e, run_once)
              (
                leaves.0,
                inr (
                  kept,
                  omega
                      (arith, fewer, count-update_lt row (some deps.agent.id) w.rows listed opens),
                ),
              )
      ]

  idle_keeps :
      (draw : TurnDraw) (w : Workspace)
      → All IsReadable w.rows
      → has w.members deps.agent.id ≡ true
      → NothingLeft deps w.rows
      → (run_once deps draw [] w).1 ≡ w
  unfolding run_once
  idle_keeps draw w readable known h =
      elim (claim_next_known w.members deps.agent [] w.rows readable known) [
        | inl (nothing, e) ↦ rw (e, run_once)
        | inr (row, (listed, passes, first), e) ↦
            cc (passes, All-at (λ r. is_candidate deps.agent [] r ≡ false) h listed)
      ]

  nothing_stays :
      (draws : ℕ → TurnDraw) (n : ℕ) (w : Workspace)
      → All IsReadable w.rows
      → has w.members deps.agent.id ≡ true
      → NothingLeft deps w.rows
      → NothingLeft deps (run_times deps draws n w).rows
  unfolding run_times
  nothing_stays draws zero w readable known h = h
  nothing_stays draws (suc n) w readable known h =
      rw (run_times, idle_keeps (draws n) w readable known h)
        (nothing_stays draws n w readable known h)

  closed_nothing : (rows : List Row) → open_count rows ≤ 0 → NothingLeft deps rows
  unfolding is_candidate
  closed_nothing [] h = tt
  closed_nothing (row ∷ rows) h = (ground (arith, h), closed_nothing rows (omega (arith, h)))

  -- On a table of readable rows an agent that is stored as a member and takes at least as many turns
  -- as there are open rows leaves no row that it could claim, whatever the gateway answers, and also
  -- where the gateway throws: no turn is stuck on an item, and nothing is left waiting for the agent.
  pub run_times_drains :
      (draws : ℕ → TurnDraw) (n : ℕ) (w : Workspace)
      → All IsReadable w.rows
      → has w.members deps.agent.id ≡ true
      → open_count w.rows ≤ n
      → NothingLeft deps (run_times deps draws n w).rows
  unfolding run_times
  run_times_drains draws zero w readable known h = closed_nothing w.rows h
  run_times_drains draws (suc n) w readable known h =
      let (same, ends) = turn_less (draws n) w readable known in
      elim ends [
        | inl (nothing, e) ↦ nothing_stays draws (suc n) w readable known nothing
        | inr (kept, fewer) ↦
            run_times_drains draws n (run_once deps (draws n) [] w).1 kept
              (ap (λ members. has members deps.agent.id) same ∙ known) (omega (arith, fewer, h))
      ]
