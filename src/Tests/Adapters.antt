-- ===== src/Tests/Adapters.antt =====
-- The board of packages/adapters at concrete inputs.
use mathlib.Core.List.{Perm}
use workspace_os.Base.{
  true, false, List, [], ◌∷◌, none, some, ok, err, ◌≡◌, ◌≢◌, ◌⊎◌, refl, All, if◌then◌else◌, ◌==◌,
}
use workspace_os.Base.Text.{is_blank}
use workspace_os.Base.Sets.{has, IsDistinct, without}
use workspace_os.Base.Int.{pos}
use workspace_os.Base.Number.{as_integer}
use workspace_os.Core.Member.{has_role}
use workspace_os.Core.WorkItem.{claimed, can_be_claimed_by, claim_by, create, lacks_role}
use workspace_os.Core.WorkItem.Lifecycle.{IsValid}
use workspace_os.Adapters.Board.{
  Row, row_of, row_is_open, upsert, find_by_id, order_rows, where_rows, is_candidate, is_before,
  unknown_assignee, keep_key, is_assignable, fits_integer, update_row, claim_next, select_candidate,
  insert_row, limit_one, eligible_role, to_work_item,
}
use workspace_os.Adapters.Board.Order.{IsOrdered, listed_rows}
use workspace_os.Adapters.Board.Claims.{
  item_of, IsReadable, Takes, claimed_item, claim_next_result, candidate_may_claim,
  empty_role_is_stuck,
}
use workspace_os.Adapters.Board.Concurrency.{
  Shared, Reach, select, commit, here, next, exactly_once,
}
use workspace_os.Adapters.Board.Storage.{find_by_id-upsert}
use workspace_os.Tests.Samples.{bot, fix_login}

abbrev first_row : Row
first_row = row_of fix_login 10

abbrev urgent_row : Row
urgent_row = row_of (record fix_login { id = "w_2"; priority = pos 9 }) 20

abbrev stuck_row : Row
stuck_row = row_of (record fix_login { id = "w_3"; required_role = some "" }) 5

abbrev table : List Row
table = first_row ∷ urgent_row ∷ stuck_row ∷ []

-- The most urgent row that the member is eligible for.
claim_next_test :
    claim_next ("m_bot" ∷ []) bot [] table
    ≡ ok (
      some (claimed_item urgent_row bot),
      first_row
          ∷ record urgent_row { state = claimed; assignee_member_id = some "m_bot" }
          ∷ stuck_row
          ∷ [],
    )
unfolding claim_next select_candidate where_rows order_rows insert_row is_before limit_one
    is_candidate eligible_role has to_work_item create claim_by lacks_role has_role is_blank
    update_row as_integer keep_key is_assignable
claim_next_test = refl

table-IsReadable : All IsReadable table
unfolding is_blank fits_integer
table-IsReadable = ((refl, refl, refl), ((refl, refl, refl), ((refl, refl, refl), tt)))

claim_next_result_example :
    (All (λ r. is_candidate bot [] r ≡ false) table
      × (claim_next ("m_bot" ∷ []) bot [] table ≡ ok (none, table)))
    ⊎ ((row : Row) × Takes bot [] table row
        × (claim_next ("m_bot" ∷ []) bot [] table ≡ (
            if has ("m_bot" ∷ []) "m_bot"
            then ok (some (claimed_item row bot), update_row row.id claimed (some "m_bot") table)
            else err unknown_assignee)))
claim_next_result_example = claim_next_result ("m_bot" ∷ []) bot [] table table-IsReadable

-- A claimer who is not stored is refused by the foreign key.
unknown_claimer_test : claim_next ("m_ada" ∷ []) bot [] table ≡ err unknown_assignee
unfolding claim_next select_candidate where_rows order_rows insert_row is_before limit_one
    is_candidate eligible_role has to_work_item create claim_by lacks_role has_role is_blank
    update_row as_integer keep_key is_assignable
unknown_claimer_test = refl

candidate_may_claim_test :
    (is_candidate bot [] first_row ≡ true → can_be_claimed_by (item_of first_row) bot ≡ true)
    × (first_row.required_role ≢ some ""
        → can_be_claimed_by (item_of first_row) bot ≡ true
        → is_candidate bot [] first_row ≡ true)
candidate_may_claim_test = candidate_may_claim bot first_row

lacks_empty_role : has_role bot "" ≡ false
unfolding has_role has
lacks_empty_role = refl

empty_role_is_stuck_example :
    (can_be_claimed_by (item_of stuck_row) bot ≡ true) × (is_candidate bot [] stuck_row ≡ false)
empty_role_is_stuck_example = empty_role_is_stuck bot [] stuck_row refl refl lacks_empty_role

listed_rows_test :
    IsOrdered (order_rows (where_rows row_is_open table))
    × Perm (order_rows (where_rows row_is_open table)) (where_rows row_is_open table)
    × All (λ r. row_is_open r ≡ true) (where_rows row_is_open table)
listed_rows_test = listed_rows row_is_open table

fix_login-IsValid : IsValid fix_login
unfolding is_blank
fix_login-IsValid = record { id = refl; title = refl }

find_by_id-upsert_test :
    find_by_id "w_2" (upsert fix_login 30 table)
    ≡ (if fix_login.id == "w_2" then ok (some fix_login) else find_by_id "w_2" table)
find_by_id-upsert_test = find_by_id-upsert fix_login 30 table "w_2" fix_login-IsValid

-- Two claimers: the second selects while the first still holds its row.
abbrev start : Shared
start = record { rows = table; locked = []; handed_out = [] }

abbrev one_locked : Shared
one_locked = record { rows = table; locked = "w_2" ∷ []; handed_out = [] }

abbrev both_locked : Shared
both_locked = record { rows = table; locked = "w_1" ∷ "w_2" ∷ []; handed_out = [] }

abbrev one_handed : Shared
one_handed = record {
  rows = update_row "w_2" claimed (some "m_bot") table;
  locked = without ("w_1" ∷ "w_2" ∷ []) "w_2";
  handed_out = "w_2" ∷ [];
}

abbrev both_handed : Shared
both_handed = record {
  rows = update_row "w_1" claimed (some "m_bot") (update_row "w_2" claimed (some "m_bot") table);
  locked = without (without ("w_1" ∷ "w_2" ∷ []) "w_2") "w_1";
  handed_out = "w_1" ∷ "w_2" ∷ [];
}

run : Reach start both_handed
unfolding select_candidate where_rows order_rows insert_row is_before limit_one is_candidate
    eligible_role has without
run =
    let first : Reach start one_locked = next here (select bot urgent_row refl) in
    let second : Reach start both_locked = next first (select bot first_row refl) in
    let third : Reach start one_handed = next second (commit bot "w_2" refl) in
    next third (commit bot "w_1" refl)

exactly_once_example : IsDistinct both_handed.handed_out
exactly_once_example = exactly_once run refl refl
