-- ===== src/Tests/Server.antt =====
-- apps/server at concrete inputs.
use workspace_os.Base.{
  Option, ◌≢◌, ◌↔◌, arith, eq_iff, String, true, false, [], ◌∷◌, ◌++◌, none, some, ok, err, ◌≡◌,
  ◌⊎◌, refl, if◌then◌else◌, ◌==◌,
}
use workspace_os.Base.Int.{ℤ, pos}
use workspace_os.Base.Number.{of_ℤ, as_integer}
use workspace_os.Core.WorkItem.{WorkItem, claimed}
use workspace_os.Adapters.Board.{row_of, upsert, find_by_id, fits_integer, priority_out_of_range}
use workspace_os.Server.WorkItems.{
  integer_or_zero, board_error, text, number, absent_or_other, PublishBody, Tables, Draw, to_start,
  sent, publish, transition_item,
}
use workspace_os.Server.WorkItems.Laws.{IsMove, logged, only_assignee_moves}
use workspace_os.Server.WorkItems.Publishing.{published}
use workspace_os.Base.Date.{Date, at}
use workspace_os.Server.Session.{
  SessionPayload, verify, check, read_payload, split_dot, time_reaches, issue,
}
use workspace_os.Server.Session.Laws.{IsGenuine, verify_iff, session_round_trip}
use workspace_os.Tests.Samples.{ada, bot, fix_login}

abbrev draw : Draw
draw = record { id = "77"; activity_id = "a_1"; now = 40 }

abbrev taken : WorkItem
taken = record fix_login { state = claimed; assignee_member_id = some "m_bot" }

abbrev tables : Tables
tables = record { rows = row_of taken 10 ∷ []; log = []; members = "m_ada" ∷ "m_bot" ∷ [] }

only_assignee_moves_example :
    ((transition_item draw (some ada) to_start "w_1" tables).1 ≡ tables)
    ⊎ ((before after : WorkItem) × IsMove tables ada to_start "w_1" before after
        × ((transition_item draw (some ada) to_start "w_1" tables).1.rows
            ≡ upsert after 40 tables.rows))
only_assignee_moves_example = only_assignee_moves draw ada to_start "w_1" tables

abbrev body : ℤ → PublishBody
body priority = record {
  title = text "Write the docs";
  description = absent_or_other;
  priority = number (of_ℤ priority);
  required_role = text "";
}

-- What `publish_result` states of the body with a priority.
abbrev Publishes : ℤ → Type 0
Publishes priority =
    (z : ℤ) × (let item = published draw (body priority) "Write the docs" z in
      let result = publish draw (some bot) (body priority) tables in
      (as_integer (integer_or_zero (body priority).priority) ≡ some z)
      × (fits_integer z ≡ true
          → (result.0 ≡ ok (sent 201 item))
            × (result.1.log ≡ [] ++ logged draw bot "publish" item ∷ [])
            × ((id : String)
                → find_by_id id result.1.rows
                  ≡ (if item.id == id then ok (some item) else find_by_id id tables.rows)))
      × (fits_integer z ≡ false → result ≡ (err (board_error (priority_out_of_range z)), tables)))

-- Codecs and a signature for the tests.
abbrev sign : String → String
sign payload = "s"

abbrev encode : String → Date → String
encode member_id expires_at = "p"

abbrev decode : String → Option SessionPayload
decode payload = some (record { sub = some "m_bot"; exp = some (of_ℤ (pos 900)) })

verify_test :
    (verify sign decode "p.s" (at (pos 899)) ≡ some (record { member_id = "m_bot" }))
    × (verify sign decode "p.s" (at (pos 900)) ≡ none)
    × (verify sign decode "p.t" (at (pos 899)) ≡ none)
    × (verify sign decode ".s" (at (pos 899)) ≡ none)
unfolding verify check read_payload split_dot time_reaches
verify_test = (refl, refl, refl, refl)

verify_iff_example :
    (verify sign decode "p.s" (at (pos 899)) ≡ some (record { member_id = "m_bot" }))
    ↔ IsGenuine sign decode "p.s" (at (pos 899)) "m_bot"
verify_iff_example = verify_iff sign decode "p.s" (at (pos 899)) "m_bot"

abbrev payload : String
payload = "p"

payload_there : payload ≢ ""
payload_there = ground (arith, eq_iff payload "")

session_round_trip_test :
    verify sign decode (issue sign encode "m_bot" (at (pos 900))) (at (pos 899)) ≡ (
      if time_reaches (at (pos 899)) (of_ℤ (pos 900))
      then none
      else some (record { member_id = "m_bot" }))
session_round_trip_test =
    session_round_trip sign decode encode "m_bot" (pos 900) (at (pos 899)) (refl, tt) payload_there
      refl
