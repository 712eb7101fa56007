-- ===== src/Adapters/Board/Claims.antt =====
-- drizzle-work-item-repository.ts: what `claimNext` hands out.
use mathlib.Core.Path.{subst}
use mathlib.Core.List.{Memᴰ}
use workspace_os.Base.{
  ℕ, String, true, false, List, ◌∷◌, [], Option, none, some, Result, ok, err, if◌then◌else◌, ◌≡◌,
  ◌≢◌, refl, arith, Option-cases, inl, inr, All, ◌⊎◌, ap, sym, ◌∙◌, eq_iff, ◌==◌, Bool-cases,
}
use workspace_os.Base.Text.{is_blank}
use workspace_os.Base.Sets.{has}
use workspace_os.Core.Member.{Member, has_role}
use workspace_os.Core.WorkItem.{
  WorkItem, WorkItemState, opened, claimed, lacks_role, can_be_claimed_by, claim_by, to_json,
}
use workspace_os.Core.WorkItem.Lifecycle.{work_item_round_trip}
use workspace_os.Adapters.Board.{
  Row, to_work_item, eligible_role, is_candidate, is_before, select_candidate, update_row,
  claim_next, row_of, upsert, fits_integer, BoardError, unknown_assignee, is_assignable, keep_key,
}
use workspace_os.Adapters.Board.Order.{first_row, no_row}

-- The item that a row stands for.
abbrev pub item_of : Row → WorkItem
item_of row = record {
  id = row.id;
  title = row.title;
  priority = row.priority;
  description = row.description;
  required_role = row.required_role;
  state = row.state;
  assignee_member_id = row.assignee_member_id;
}

-- A row that the table can hold and that `WorkItem.create` accepts: `save` writes no other.
abbrev pub IsReadable : Row → Type 0
IsReadable row =
    (is_blank row.id ≡ false) × (is_blank row.title ≡ false) × (fits_integer row.priority ≡ true)

pub read_row : (row : Row) → IsReadable row → to_work_item row ≡ ok (item_of row)
unfolding to_work_item to_json
read_row row (id, title, fits) =
    work_item_round_trip (item_of row) (record { id = id; title = title })

pub upsert-IsReadable :
    (i : WorkItem) (now : ℕ) (rows : List Row)
    → IsReadable (row_of i now)
    → All IsReadable rows
    → All IsReadable (upsert i now rows)
unfolding upsert
upsert-IsReadable i now [] h hs = (h, tt)
upsert-IsReadable i now (row ∷ rows) h (hr, hs) = elim (Bool-cases (row.id == i.id)) [
  | inl same ↦ rw same (h, hs)
  | inr apart ↦ rw apart (hr, upsert-IsReadable i now rows h hs)
]

pub update_row-IsReadable :
    (id : String) (state : WorkItemState) (assignee : Option String) (rows : List Row)
    → All IsReadable rows
    → All IsReadable (update_row id state assignee rows)
unfolding update_row
update_row-IsReadable id state assignee [] hs = tt
update_row-IsReadable id state assignee (row ∷ rows) (hr, hs) = elim (Bool-cases (row.id == id)) [
  | inl same ↦ rw same (hr, update_row-IsReadable id state assignee rows hs)
  | inr apart ↦ rw apart (hr, update_row-IsReadable id state assignee rows hs)
]

pub All-at : (P : Row → Type 0) {a : Row} {rows : List Row} → All P rows → Memᴰ a rows → P a
All-at P {rows = []} h m = elim m [ ]
All-at P {rows = r ∷ rows} (h, hs) (Memᴰ.head e) = subst P (sym e) h
All-at P {rows = r ∷ rows} (h, hs) (Memᴰ.tail m) = All-at P hs m

eligible_has :
    (roles : List String) (role : String) → eligible_role roles (some role) ≡ has roles role
unfolding eligible_role has
eligible_has [] role = refl
eligible_has (r ∷ roles) role = refl

-- A row that the statement finds eligible passes the item's own role gate.
eligible_passes :
    (m : Member) (o : Option String) → eligible_role m.roles o ≡ true → lacks_role o m ≡ false
unfolding lacks_role has_role
eligible_passes m none h = refl
eligible_passes m (some role) h = ground (arith, eligible_has m.roles role)

pub candidate_parts :
    (m : Member) (locked : List String) (row : Row)
    → is_candidate m locked row ≡ true
    → (row.state ≡ opened)
      × (eligible_role m.roles row.required_role ≡ true)
      × (has locked row.id ≡ false)
unfolding is_candidate
candidate_parts m locked row h = ground arith

-- What the member gets for a row.
abbrev pub claimed_item : Row → Member → WorkItem
claimed_item row m = record (item_of row) { state = claimed; assignee_member_id = some m.id }

claim_row :
    (m : Member) (locked : List String) (row : Row)
    → is_candidate m locked row ≡ true
    → claim_by (item_of row) m ≡ ok (claimed_item row m)
unfolding claim_by
claim_row m locked row h =
    let (open_now, eligible, free) = candidate_parts m locked row h in
    rw (open_now, eligible_passes m row.required_role eligible)

-- The answer is the best candidate, if there is one.
abbrev pub Takes : Member → List String → List Row → Row → Type 0
Takes m locked rows row =
    Memᴰ row rows
    × (is_candidate m locked row ≡ true)
    × All (λ r. is_candidate m locked r ≡ true → is_before r row ≡ false) rows

-- What the transaction ends in once it took a row.
abbrev pub taken_by :
    List String → Member → List Row → Row → Result BoardError (Option WorkItem × List Row)
taken_by members m rows row =
    if has members m.id
    then ok (some (claimed_item row m), update_row row.id claimed (some m.id) rows)
    else err unknown_assignee

claim_next_at :
    (members : List String) (m : Member) (locked : List String) (rows : List Row) (row : Row)
    → All IsReadable rows
    → select_candidate m locked rows ≡ some row
    → Takes m locked rows row × (claim_next members m locked rows ≡ taken_by members m rows row)
unfolding select_candidate keep_key is_assignable
claim_next_at members m locked rows row readable h =
    let (listed, passes, first) = first_row (is_candidate m locked) row rows h in
    (
      (listed, passes, first),
      (unfold claim_next in
          rw (h, claim_next)
            (rw (read_row row (All-at IsReadable readable listed)) (
              rw (claim_row m locked row passes) (elim (Bool-cases (has members m.id)) [
                | inl known ↦ rw known
                | inr unknown ↦ rw unknown
              ])))),
    )

-- On a table of readable rows: if no row is open, eligible for the member and unlocked, `claimNext`
-- returns null and changes nothing. Otherwise it finds such a row, before which no other such row
-- stands (by higher priority, then earlier creation). If the member is stored, the row is returned
-- claimed for the member, and the table changes in the state and the assignee of the row with that
-- id; if the member is not stored, the foreign key of the assignee makes the transaction throw.
pub claim_next_result :
    (members : List String) (m : Member) (locked : List String) (rows : List Row)
    → All IsReadable rows
    → (All (λ r. is_candidate m locked r ≡ false) rows
        × (claim_next members m locked rows ≡ ok (none, rows)))
      ⊎ ((row : Row) × Takes m locked rows row
          × (claim_next members m locked rows ≡ (
              if has members m.id
              then ok (some (claimed_item row m), update_row row.id claimed (some m.id) rows)
              else err unknown_assignee)))
claim_next_result members m locked rows readable =
    elim (Option-cases (select_candidate m locked rows)) [
      | inl e ↦ inl (
        no_row (is_candidate m locked) rows (unfold select_candidate in e),
        (unfold claim_next in rw (e, claim_next)),
      )
      | inr (row, e) ↦
          let (takes, result) = claim_next_at members m locked rows row readable e in
          inr (row, takes, result)
    ]

-- For a member who is stored the transaction commits.
pub claim_next_known :
    (members : List String) (m : Member) (locked : List String) (rows : List Row)
    → All IsReadable rows
    → has members m.id ≡ true
    → (All (λ r. is_candidate m locked r ≡ false) rows
        × (claim_next members m locked rows ≡ ok (none, rows)))
      ⊎ ((row : Row) × Takes m locked rows row
          × (claim_next members m locked rows
              ≡ ok (some (claimed_item row m), update_row row.id claimed (some m.id) rows)))
claim_next_known members m locked rows readable known =
    elim (claim_next_result members m locked rows readable) [
      | inl nothing ↦ inl nothing
      | inr (row, takes, e) ↦ inr (row, takes, e ∙ rw known)
    ]

not_named : (role : String) → some role ≢ some "" → role ≢ ""
not_named role n e = n (ap some e)

passes_eligible :
    (m : Member) (o : Option String)
    → o ≢ some ""
    → lacks_role o m ≡ false
    → eligible_role m.roles o ≡ true
unfolding lacks_role has_role eligible_role
passes_eligible m none n h = refl
passes_eligible m (some role) n h =
    eligible_has m.roles role ∙ ground (arith, eq_iff role "", not_named role n)

-- What the statement finds eligible the item may be claimed by. The converse needs that the required
-- role is not the empty text: such an item may be claimed by everybody, and the statement finds it
-- for those members only who hold the role "".
pub candidate_may_claim :
    (m : Member) (row : Row)
    → (is_candidate m [] row ≡ true → can_be_claimed_by (item_of row) m ≡ true)
      × (row.required_role ≢ some ""
          → can_be_claimed_by (item_of row) m ≡ true
          → is_candidate m [] row ≡ true)
unfolding can_be_claimed_by is_candidate has
candidate_may_claim m row = (
  λ h. ground (arith, eligible_passes m row.required_role),
  λ named h. ground (arith, passes_eligible m row.required_role named),
)

-- An open item that requires the role "" may be claimed by every member, and `claimNext` finds it for
-- no member who does not hold a role of that name.
pub empty_role_is_stuck :
    (m : Member) (locked : List String) (row : Row)
    → row.state ≡ opened
    → row.required_role ≡ some ""
    → has_role m "" ≡ false
    → (can_be_claimed_by (item_of row) m ≡ true) × (is_candidate m locked row ≡ false)
unfolding can_be_claimed_by is_candidate has_role
empty_role_is_stuck m locked row open_now gate lacks =
    (rw (open_now, gate), rw (open_now, gate, eligible_has m.roles "", lacks))
