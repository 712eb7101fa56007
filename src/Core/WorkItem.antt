-- ===== src/Core/WorkItem.antt =====
-- packages/core/src/domain/work-item.ts: an item of the shared board and its guarded transitions.
pub mod Lifecycle
pub mod Assignment
use workspace_os.Base.{
  String, Bool, true, false, not, ◌&&◌, ◌||◌, List, ◌∷◌, [], Option, none, some, Result, ok, err,
  ◌>>=◌, ◌>>◌, if◌then◌else◌, ◌==◌, or_else,
}
use workspace_os.Base.Text.{is_blank}
use workspace_os.Base.Int.{ℤ}
use workspace_os.Base.Number.{Number, of_ℤ, as_integer}
use workspace_os.Core.Member.{Member, has_role}

pub data WorkItemState : Type 0 where
  opened claimed in_progress blocked done cancelled : WorkItemState

-- An optional field that is absent or null is `none`.
pub record WorkItemProps : Type 0 where
  pub id : String
  pub title : String
  pub priority : Number
  pub description : Option String
  pub required_role : Option String
  pub state : Option WorkItemState
  pub assignee_member_id : Option String

-- The errors of the module, with the values that their messages show.
pub data WorkItemError : Type 0 where
  blank_field : String → WorkItemError
  priority_not_integer : Number → WorkItemError
  claim_not_open : String → WorkItemState → WorkItemError
  claim_lacks_role : String → String → String → WorkItemError
  transition : WorkItemState → String → WorkItemError

pub record WorkItem : Type 0 where
  pub id : String
  pub title : String
  pub priority : ℤ
  pub description : Option String
  pub required_role : Option String
  pub state : WorkItemState
  pub assignee_member_id : Option String

pub require_non_blank : String → String → Result WorkItemError (Unit {0})
require_non_blank field value = if is_blank value then err (blank_field field) else ok tt

require_integer : Number → Option ℤ → Result WorkItemError ℤ
require_integer priority none = err (priority_not_integer priority)
require_integer priority (some z) = ok z

unfoldable pub create : WorkItemProps → Result WorkItemError WorkItem
unfolding require_non_blank require_integer
create props = do
  require_non_blank "id" props.id
  require_non_blank "title" props.title
  priority ← require_integer props.priority (as_integer props.priority)
  ok (record {
    id = props.id;
    title = props.title;
    priority = priority;
    description = props.description;
    required_role = props.required_role;
    state = or_else props.state opened;
    assignee_member_id = props.assignee_member_id;
  })

unfoldable pub to_json : WorkItem → WorkItemProps
to_json i = record {
  id = i.id;
  title = i.title;
  priority = of_ℤ i.priority;
  description = i.description;
  required_role = i.required_role;
  state = some i.state;
  assignee_member_id = i.assignee_member_id;
}

abbrev pub is_open : WorkItemState → Bool
is_open opened = true
is_open _ = false

-- `this._requiredRole && !member.hasRole(this._requiredRole)` is the role that is lacking: the empty
-- text counts as no role.
unfoldable pub lacks_role : Option String → Member → Bool
lacks_role none member = false
lacks_role (some role) member = not (role == "") && not (has_role member role)

unfoldable pub can_be_claimed_by : WorkItem → Member → Bool
unfolding lacks_role
can_be_claimed_by i member =
    if not (is_open i.state)
    then false
    else if lacks_role i.required_role member
    then false
    else true

unfoldable pub claim_by : WorkItem → Member → Result WorkItemError WorkItem
unfolding lacks_role
claim_by i member =
    if not (is_open i.state)
    then err (claim_not_open i.id i.state)
    else if lacks_role i.required_role member
    then err (claim_lacks_role member.id (or_else i.required_role "") i.id)
    else ok (record i { state = claimed; assignee_member_id = some member.id })

start_from : WorkItem → WorkItemState → Result WorkItemError WorkItem
start_from i claimed = ok (record i { state = in_progress })
start_from i from = err (transition from "start")

unfoldable pub start : WorkItem → Result WorkItemError WorkItem
unfolding start_from
start i = start_from i i.state

complete_from : WorkItem → WorkItemState → Result WorkItemError WorkItem
complete_from i in_progress = ok (record i { state = done })
complete_from i from = err (transition from "complete")

unfoldable pub complete : WorkItem → Result WorkItemError WorkItem
unfolding complete_from
complete i = complete_from i i.state

block_from : WorkItem → WorkItemState → Result WorkItemError WorkItem
block_from i in_progress = ok (record i { state = blocked })
block_from i from = err (transition from "block")

-- the reason is not kept
unfoldable pub block : WorkItem → Option String → Result WorkItemError WorkItem
unfolding block_from
block i _reason = block_from i i.state

unblock_from : WorkItem → WorkItemState → Result WorkItemError WorkItem
unblock_from i blocked = ok (record i { state = in_progress })
unblock_from i from = err (transition from "unblock")

unfoldable pub unblock : WorkItem → Result WorkItemError WorkItem
unfolding unblock_from
unblock i = unblock_from i i.state

cancel_from : WorkItem → WorkItemState → Result WorkItemError WorkItem
cancel_from i done = err (transition done "cancel")
cancel_from i cancelled = err (transition cancelled "cancel")
cancel_from i from = ok (record i { state = cancelled })

unfoldable pub cancel : WorkItem → Result WorkItemError WorkItem
unfolding cancel_from
cancel i = cancel_from i i.state

-- A call of one of the methods that change an item.
pub data Action : Type 0 where
  claim : Member → Action
  begin complete_it unblock_it cancel_it : Action
  block_it : Option String → Action

unfoldable pub act : Action → WorkItem → Result WorkItemError WorkItem
unfolding claim_by start complete block unblock cancel
act (claim member) i = claim_by i member
act begin i = start i
act complete_it i = complete i
act unblock_it i = unblock i
act cancel_it i = cancel i
act (block_it reason) i = block i reason
