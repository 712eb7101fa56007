-- ===== src/Server/WorkItems.antt =====
-- apps/server/src/routes/work-items.ts: the handlers of the work board. What a handler gets of the
-- session check is the acting member, if there is one. A handler that throws after a statement was
-- committed leaves what was committed: the state is returned beside the result.
pub mod Laws
pub mod Publishing
use Prim.Native.String.{◌++◌ as text_append}
use workspace_os.Base.{
  ℕ, String, Bool, true, false, not, List, ◌∷◌, [], Option, none, some, Result, ok, err, map,
  if◌then◌else◌, or_else, ◌==◌,
}
use workspace_os.Base.Text.{is_blank}
use workspace_os.Base.Int.{pos}
use workspace_os.Base.Number.{Number, of_ℤ, as_integer}
use workspace_os.Core.Member.{Member}
use workspace_os.Core.WorkItem.{
  WorkItem, WorkItemProps, WorkItemError, transition, create, to_json, start, complete,
}
use workspace_os.Adapters.Board.{Row, BoardError, save, find_by_id, list_open, claim_next}
use workspace_os.Adapters.Activity.{
  RecordActivityInput, ActivityRecord, UnknownActorError, record_activity,
}

-- A value of a request's body.
pub data Json : Type 0 where
  text : String → Json
  number : Number → Json
  absent_or_other : Json

pub record PublishBody : Type 0 where
  pub title : Json
  pub description : Json
  pub priority : Json
  pub required_role : Json

-- The message beside an error's name is left out.
pub data Body : Type 0 where
  error_body : String → Body
  item_body : WorkItemProps → Body
  items_body : List WorkItemProps → Body

pub record Reply : Type 0 where
  pub code : ℕ
  pub body : Body

-- What a handler lets through to the framework.
pub data Thrown : Type 0 where
  work_item_error : WorkItemError → Thrown
  board_error : BoardError → Thrown
  activity_error : UnknownActorError → Thrown

-- The tables, with the ids of the table `members`.
pub record Tables : Type 0 where
  pub rows : List Row
  pub log : List ActivityRecord
  pub members : List String

-- What the database and the random source give to one request.
pub record Draw : Type 0 where
  pub id : String
  pub activity_id : String
  pub now : ℕ

abbrev pub Handled : Type 0
Handled = Result Thrown Reply × Tables

abbrev pub failure : ℕ → String → Reply
failure code error = record { code = code; body = error_body error }

abbrev pub sent : ℕ → WorkItem → Reply
sent code item = record { code = code; body = item_body (to_json item) }

abbrev pub work_activity : Member → String → WorkItem → RecordActivityInput
work_activity member action item = record {
  actor = member;
  action = text_append "work." action;
  resource_type = "work_item";
  resource_id = item.id;
  metadata = none;
}

-- the last steps of a handler: the activity is recorded, then the item is sent
unfoldable pub report : Draw → Member → String → ℕ → WorkItem → Tables → Handled
report draw member action code item s =
    elim (record_activity s.members draw.activity_id draw.now (work_activity member action item)
      s.log) [
        | err e ↦ (err (activity_error e), s)
        | ok log ↦ (ok (sent code item), record s { log = log })
      ]

-- the item is saved, then reported; nothing is written where the save throws
unfoldable pub save_and_report : Draw → Member → String → ℕ → WorkItem → Tables → Handled
save_and_report draw member action code item s = elim (save s.members item draw.now s.rows) [
  | err e ↦ (err (board_error e), s)
  | ok rows ↦ report draw member action code item (record s { rows = rows })
]

-- `typeof value === "string" ? value : null`
abbrev pub text_or_null : Json → Option String
text_or_null (text t) = some t
text_or_null _ = none

-- `Number.isInteger(value) ? value : 0`
abbrev pub integer_or_zero : Json → Number
integer_or_zero (number n) = elim (as_integer n) [ some z ↦ n | none ↦ of_ℤ (pos 0) ]
integer_or_zero _ = of_ℤ (pos 0)

abbrev pub publish_props : String → String → PublishBody → WorkItemProps
publish_props id title body = record {
  id = text_append "w_" id;
  title = title;
  priority = integer_or_zero body.priority;
  description = text_or_null body.description;
  required_role = text_or_null body.required_role;
  state = none;
  assignee_member_id = none;
}

unfoldable pub publish_title : Draw → Member → PublishBody → Option String → Tables → Handled
publish_title draw member body none s = (ok (failure 400 "invalid-work-item"), s)
publish_title draw member body (some title) s =
    if is_blank title
    then (ok (failure 400 "invalid-work-item"), s)
    else elim (create (publish_props draw.id title body)) [
      | err e ↦ (err (work_item_error e), s)
      | ok item ↦ save_and_report draw member "publish" 201 item s
    ]

unfoldable pub publish : Draw → Option Member → PublishBody → Tables → Handled
publish draw none body s = (ok (failure 401 "unauthenticated"), s)
publish draw (some member) body s = publish_title draw member body (text_or_null body.title) s

unfoldable pub list_items : Option Member → Tables → Handled
list_items none s = (ok (failure 401 "unauthenticated"), s)
list_items (some member) s = elim (list_open s.rows) [
  | err e ↦ (err (work_item_error e), s)
  | ok items ↦ (ok (record { code = 200; body = items_body (map to_json items) }), s)
]

unfoldable pub claim_next_item : Draw → List String → Option Member → Tables → Handled
claim_next_item draw locked none s = (ok (failure 401 "unauthenticated"), s)
claim_next_item draw locked (some member) s = elim (claim_next s.members member locked s.rows) [
  | err e ↦ (err (board_error e), s)
  | ok (none, rows) ↦ (ok (failure 404 "no-work-available"), record s { rows = rows })
  | ok (some item, rows) ↦ report draw member "claim" 200 item (record s { rows = rows })
]

-- The two transitions that have a route.
pub data Move : Type 0 where
  to_start to_complete : Move

abbrev pub move_name : Move → String
move_name to_start = "start"
move_name to_complete = "complete"

unfoldable pub apply_move : Move → WorkItem → Result WorkItemError WorkItem
apply_move to_start item = start item
apply_move to_complete item = complete item

-- `item.assigneeMemberId !== member.id` does not hold
abbrev pub is_assignee : Option String → Member → Bool
is_assignee none member = false
is_assignee (some id) member = id == member.id

-- only a `WorkItemTransitionError` is answered with 409
abbrev pub refused_move : WorkItemError → Tables → Handled
refused_move (transition from action) s = (ok (failure 409 "invalid-transition"), s)
refused_move e s = (err (work_item_error e), s)

unfoldable pub move_item : Draw → Member → Move → WorkItem → Tables → Handled
move_item draw member move item s =
    if not (is_assignee item.assignee_member_id member)
    then (ok (failure 403 "not-assignee"), s)
    else elim (apply_move move item) [
      | err e ↦ refused_move e s
      | ok next ↦ save_and_report draw member (move_name move) 200 next s
    ]

unfoldable pub transition_item : Draw → Option Member → Move → String → Tables → Handled
transition_item draw none move id s = (ok (failure 401 "unauthenticated"), s)
transition_item draw (some member) move id s = elim (find_by_id id s.rows) [
  | err e ↦ (err (work_item_error e), s)
  | ok none ↦ (ok (failure 404 "not-found"), s)
  | ok (some item) ↦ move_item draw member move item s
]
