-- ===== src/Server/System/Moves.antt =====
-- routes/work-items.ts on tables that are sound: the two transitions answer, and keep them sound.
use workspace_os.Base.{
  String, true, ap, ◌∙◌, List, none, some, ok, err, ◌≡◌, ◌⊎◌, refl, inl, inr, All, ◌&&◌,
  if◌then◌else◌, Bool-cases,
}
use workspace_os.Base.Sets.{has}
use workspace_os.Core.Member.{Member}
use workspace_os.Core.WorkItem.{WorkItem, transition, Action, begin, complete_it, act}
use workspace_os.Core.WorkItem.Lifecycle.{
  leaves_from, passes_gate, result_of, action_name, act_table,
}
use workspace_os.Adapters.Board.{Row, find_by_id, row_of, fits_integer, is_assignable}
use workspace_os.Adapters.Board.Claims.{IsReadable, upsert-IsReadable, item_of, read_row}
use workspace_os.Server.WorkItems.{
  Tables, Draw, Move, to_start, to_complete, move_name, apply_move, move_item, is_assignee,
  transition_item,
}
use workspace_os.Server.WorkItems.Laws.{save_known, assignee_iff}
use workspace_os.Server.System.Stored.{row_at}
use workspace_os.Server.System.Work.{IsSoundTables, Succeeds, stays, reports}

action_of : Move → Action
action_of to_start = begin
action_of to_complete = complete_it

move_table :
    (move : Move) (i : WorkItem)
    → apply_move move i ≡ (
        if leaves_from (action_of move) i.state && passes_gate (action_of move) i
        then ok (result_of (action_of move) i)
        else err (transition i.state (action_name (action_of move))))
unfolding apply_move act action_of
move_table to_start i = act_table begin i
move_table to_complete i = act_table complete_it i

after_move :
    (move : Move) (i : WorkItem)
    → (result_of (action_of move) i).assignee_member_id ≡ i.assignee_member_id
unfolding action_of
after_move to_start i = refl
after_move to_complete i = refl

-- A move keeps the id, the title, the priority and the assignee, or is refused with a transition error.
move_ends :
    (move : Move) (i : WorkItem)
    → ((j : WorkItem) × (apply_move move i ≡ ok j)
        × (j.id ≡ i.id)
        × (j.title ≡ i.title)
        × (j.priority ≡ i.priority)
        × (j.assignee_member_id ≡ i.assignee_member_id))
      ⊎ (apply_move move i ≡ err (transition i.state (action_name (action_of move))))
move_ends move i =
    elim (Bool-cases (leaves_from (action_of move) i.state && passes_gate (action_of move) i)) [
      | inl allowed ↦ inl (
        result_of (action_of move) i,
        rw (move_table move i, allowed),
        refl,
        refl,
        refl,
        after_move move i,
      )
      | inr refused ↦ inr (rw (move_table move i, refused))
    ]

move-Succeeds :
    (draw : Draw) (m : Member) (move : Move) (i : WorkItem) (t : Tables)
    → IsReadable (row_of i draw.now)
    → has t.members m.id ≡ true
    → IsSoundTables t
    → Succeeds t (move_item draw m move i t)
unfolding move_item is_assignable
move-Succeeds draw m move i t (id, title, fits) known h =
    elim (Bool-cases (is_assignee i.assignee_member_id m)) [
      | inr other ↦ rw other (stays t _ h)
      | inl mine ↦ elim (move_ends move i) [
        | inr refused ↦ rw (mine, refused, move_item) (stays t _ h)
        | inl (j, moved, same_id, same_title, same_priority, same_assignee) ↦
            let wide : fits_integer j.priority ≡ true = ap fits_integer same_priority ∙ fits in
            let assigned = same_assignee ∙ (assignee_iff i.assignee_member_id m).0 mine in
            let stored : is_assignable t.members j.assignee_member_id ≡ true =
              ap (is_assignable t.members) assigned ∙ known in
            rw (mine, moved, move_item)
              (rw (save_known draw m (move_name move) 200 j t wide stored known) (
                reports draw m (move_name move) 200 j t _ known
                  (upsert-IsReadable j draw.now t.rows (rw same_id id, rw same_title title, wide)
                    h.readable)
                  h))
      ]
    ]

item_at :
    (id : String) (rows : List Row)
    → All IsReadable rows
    → (find_by_id id rows ≡ ok none)
      ⊎ ((row : Row) × (find_by_id id rows ≡ ok (some (item_of row))) × IsReadable row)
unfolding find_by_id
item_at id rows h = elim (row_at id rows h) [
  | inl missing ↦ inl (rw (missing, find_by_id))
  | inr (row, found, readable) ↦
      inr (row, rw (found, find_by_id) (rw (read_row row readable)), readable)
]

pub transition-Succeeds :
    (draw : Draw) (m : Member) (move : Move) (id : String) (t : Tables)
    → has t.members m.id ≡ true
    → IsSoundTables t
    → Succeeds t (transition_item draw (some m) move id t)
unfolding transition_item
transition-Succeeds draw m move id t known h = elim (item_at id t.rows h.readable) [
  | inl missing ↦ rw (missing, transition_item) (stays t _ h)
  | inr (row, found, readable) ↦
      rw (found, transition_item) (move-Succeeds draw m move (item_of row) t readable known h)
]
