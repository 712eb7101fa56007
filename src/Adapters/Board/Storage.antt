-- ===== src/Adapters/Board/Storage.antt =====
-- drizzle-work-item-repository.ts: saving an item and finding it again.
use workspace_os.Base.{
  ℕ, String, true, false, List, ◌∷◌, [], some, ok, if◌then◌else◌, ◌==◌, ◌≡◌, arith, eq_iff, eq_refl,
  Bool-cases, inl, inr,
}
use workspace_os.Core.WorkItem.{WorkItem, to_json}
use workspace_os.Core.WorkItem.Lifecycle.{IsValid, work_item_round_trip}
use workspace_os.Adapters.Board.{
  Row, row_of, to_work_item, upsert, find_row, find_by_id, fits_integer, is_assignable, save,
  keep_key,
}

find_row-upsert_self :
    (i : WorkItem) (now : ℕ) (rows : List Row)
    → (t : ℕ) × (find_row i.id (upsert i now rows) ≡ some (row_of i t))
unfolding upsert find_row
find_row-upsert_self i now [] = (now, rw (eq_refl i.id))
find_row-upsert_self i now (row ∷ rows) = elim (Bool-cases (row.id == i.id)) [
  | inl same ↦ (row.created_at, rw (same, upsert) (rw (eq_refl i.id, find_row)))
  | inr other ↦
      let (t, e) = find_row-upsert_self i now rows in
      (t, rw (other, upsert) (rw (other, find_row) e))
]

find_row-upsert_ne :
    (i : WorkItem) (now : ℕ) (rows : List Row) (id : String)
    → (i.id == id) ≡ false
    → find_row id (upsert i now rows) ≡ find_row id rows
unfolding upsert find_row
find_row-upsert_ne i now [] id h = rw h
find_row-upsert_ne i now (row ∷ rows) id h = ground (
  arith,
  eq_iff row.id i.id,
  eq_iff i.id id,
  eq_iff row.id id,
  find_row-upsert_ne i now rows id h,
)

read_back : (i : WorkItem) (t : ℕ) → IsValid i → to_work_item (row_of i t) ≡ ok i
unfolding to_work_item to_json
read_back i t v = work_item_round_trip i v

-- Once a valid item is written, its id finds exactly that item, whether or not the table had the id
-- before; every other id finds what it found before.
pub find_by_id-upsert :
    (i : WorkItem) (now : ℕ) (rows : List Row) (id : String)
    → IsValid i
    → find_by_id id (upsert i now rows) ≡ (if i.id == id then ok (some i) else find_by_id id rows)
unfolding find_by_id
find_by_id-upsert i now rows id v = elim (Bool-cases (i.id == id)) [
  | inl same ↦
      let (t, e) = find_row-upsert_self i now rows in
      rw (same, ← (eq_iff i.id id).0 same) (rw (e, find_by_id) (rw (read_back i t v)))
  | inr other ↦ rw other (rw (find_row-upsert_ne i now rows id other, find_by_id))
]

-- A priority that the column holds and an assignee who is stored are written.
pub save_lem :
    (members : List String) (i : WorkItem) (now : ℕ) (rows : List Row)
    → fits_integer i.priority ≡ true
    → is_assignable members i.assignee_member_id ≡ true
    → save members i now rows ≡ ok (upsert i now rows)
unfolding save keep_key
save_lem members i now rows fits known = rw (fits, known)
