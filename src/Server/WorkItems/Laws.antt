-- ===== src/Server/WorkItems/Laws.antt =====
-- routes/work-items.ts: what a save and a report leave, and who may move an item.
use workspace_os.Base.{
  ℕ, String, true, ◌∷◌, [], ◌++◌, Option, none, some, ok, ◌≡◌, ◌⊎◌, ◌↔◌, inl, inr, ap, arith,
  Bool-cases, Result-cases, eq_iff,
}
use workspace_os.Base.Sets.{has}
use workspace_os.Core.Member.{Member}
use workspace_os.Core.WorkItem.{WorkItem, WorkItemError}
use workspace_os.Adapters.Board.{upsert, find_by_id, fits_integer, is_assignable, keep_key, save}
use workspace_os.Adapters.Board.Storage.{save_lem}
use workspace_os.Adapters.Activity.{ActivityRecord, record_activity}
use workspace_os.Server.WorkItems.{
  Tables, Draw, sent, work_activity, report, Move, move_name, apply_move, is_assignee, refused_move,
  move_item, transition_item, save_and_report,
}

-- The entry that a report makes in the activity log.
abbrev pub logged : Draw → Member → String → WorkItem → ActivityRecord
logged draw m action item =
    let input = work_activity m action item in
    record {
      id = draw.activity_id;
      actor_member_id = m.id;
      actor_type = m.type;
      action = input.action;
      resource_type = "work_item";
      resource_id = item.id;
      metadata = [];
      occurred_at = draw.now;
    }

pub report_known :
    (draw : Draw) (m : Member) (action : String) (code : ℕ) (item : WorkItem) (s : Tables)
    → has s.members m.id ≡ true
    → report draw m action code item s
      ≡ (ok (sent code item), record s { log = s.log ++ logged draw m action item ∷ [] })
unfolding report record_activity
report_known draw m action code item s known = rw (known, report)

rows-report :
    (draw : Draw) (m : Member) (action : String) (code : ℕ) (item : WorkItem) (s : Tables)
    → (report draw m action code item s).1.rows ≡ s.rows
unfolding report record_activity
rows-report draw m action code item s = ground arith

-- The item with the id is assigned to the member, and the move leads from it to `after`, whose
-- priority, that of the item, the table can hold.
pub record IsMove (s : Tables) (m : Member) (move : Move) (id : String) (before after : WorkItem)
    : Type 0 where
  pub found : find_by_id id s.rows ≡ ok (some before)
  pub assigned : before.assignee_member_id ≡ some m.id
  pub moved : apply_move move before ≡ ok after
  pub fits : fits_integer after.priority ≡ true

pub assignee_iff : (o : Option String) (m : Member) → (is_assignee o m ≡ true) ↔ (o ≡ some m.id)
assignee_iff none m = (λ h. cc h, λ h. cc h)
assignee_iff (some id) m =
    (λ h. ap some ((eq_iff id m.id).0 h), λ h. ground (arith, eq_iff id m.id, h))

-- What is saved is written as it is, if the column holds the priority and the member is stored.
pub save_known :
    (draw : Draw) (m : Member) (action : String) (code : ℕ) (item : WorkItem) (s : Tables)
    → fits_integer item.priority ≡ true
    → is_assignable s.members item.assignee_member_id ≡ true
    → has s.members m.id ≡ true
    → save_and_report draw m action code item s ≡ (
      ok (sent code item),
      record s {
        rows = upsert item draw.now s.rows;
        log = s.log ++ logged draw m action item ∷ [];
      },
    )
unfolding save_and_report
save_known draw m action code item s fits assignable known =
    rw (save_lem s.members item draw.now s.rows fits assignable, save_and_report)
      (report_known draw m action code item _ known)

-- A save changes nothing, or writes the item, whose priority the column holds.
save_keeps :
    (draw : Draw) (m : Member) (action : String) (code : ℕ) (item : WorkItem) (s : Tables)
    → ((save_and_report draw m action code item s).1 ≡ s)
      ⊎ ((fits_integer item.priority ≡ true)
          × ((save_and_report draw m action code item s).1.rows ≡ upsert item draw.now s.rows))
unfolding save_and_report save keep_key
save_keeps draw m action code item s = elim (Bool-cases (fits_integer item.priority)) [
  | inr wide ↦ inl (rw (wide, save_and_report))
  | inl fits ↦ elim (Bool-cases (is_assignable s.members item.assignee_member_id)) [
    | inr unknown ↦ inl (rw (fits, unknown, save_and_report))
    | inl known ↦
        inr (fits, rw (fits, known, save_and_report) (rows-report draw m action code item _))
  ]
]

refused_keeps : (e : WorkItemError) (s : Tables) → (refused_move e s).1 ≡ s
refused_keeps e s = ground arith

move_item_keeps :
    (draw : Draw) (m : Member) (move : Move) (before : WorkItem) (s : Tables)
    → ((move_item draw m move before s).1 ≡ s)
      ⊎ ((after : WorkItem) × (before.assignee_member_id ≡ some m.id)
          × (apply_move move before ≡ ok after)
          × (fits_integer after.priority ≡ true)
          × ((move_item draw m move before s).1.rows ≡ upsert after draw.now s.rows))
unfolding move_item
move_item_keeps draw m move before s = elim (Bool-cases (is_assignee before.assignee_member_id m)) [
  | inr other ↦ inl (rw other)
  | inl mine ↦ elim (Result-cases (apply_move move before)) [
    | inr (e, refused) ↦ inl (rw (mine, refused, move_item) (refused_keeps e s))
    | inl (after, moved) ↦ elim (save_keeps draw m (move_name move) 200 after s) [
      | inl same ↦ inl (rw (mine, moved, move_item) same)
      | inr (fits, saved) ↦ inr (
        after,
        (assignee_iff before.assignee_member_id m).0 mine,
        moved,
        fits,
        rw (mine, moved, move_item) saved,
      )
    ]
  ]
]

-- A request to start or to complete an item changes no table, unless it comes from the member to whom
-- the item of that id is assigned and the item's state allows the move; then the item that the move
-- leads to is saved.
pub only_assignee_moves :
    (draw : Draw) (m : Member) (move : Move) (id : String) (s : Tables)
    → ((transition_item draw (some m) move id s).1 ≡ s)
      ⊎ ((before after : WorkItem) × IsMove s m move id before after
          × ((transition_item draw (some m) move id s).1.rows ≡ upsert after draw.now s.rows))
unfolding transition_item
only_assignee_moves draw m move id s = elim (Result-cases (find_by_id id s.rows)) [
  | inr (e, broken) ↦ inl (rw (broken, transition_item))
  | inl (none, missing) ↦ inl (rw (missing, transition_item))
  | inl (some before, found) ↦ elim (move_item_keeps draw m move before s) [
    | inl same ↦ inl (rw (found, transition_item) same)
    | inr (after, assigned, moved, fits, saved) ↦ inr (
      before,
      after,
      record { found = found; assigned = assigned; moved = moved; fits = fits },
      rw (found, transition_item) saved,
    )
  ]
]
