-- ===== src/Core/WorkItem/Lifecycle.antt =====
-- work-item.ts: the state machine of an item.
use workspace_os.Base.{
  String, Bool, true, false, not, ◌&&◌, Option, none, some, ok, err, ◌≡◌, ◌≢◌, ◌↔◌, arith, ◌⊎◌,
  if◌then◌else◌, or_else,
}
use workspace_os.Base.Text.{is_blank}
use workspace_os.Base.Number.{as_integer, as_integer-of_ℤ}
use workspace_os.Core.Member.{Member}
use workspace_os.Core.WorkItem.{
  WorkItemState, opened, claimed, in_progress, blocked, done, cancelled, WorkItem, WorkItemProps,
  WorkItemError, claim_not_open, claim_lacks_role, transition, is_open, create, to_json, lacks_role,
  can_be_claimed_by, claim_by, Action, claim, begin, complete_it, unblock_it, cancel_it, block_it,
  act,
}

-- The lifecycle as a table: the states from which an action may be taken.
abbrev pub leaves_from : Action → WorkItemState → Bool
leaves_from (claim m) opened = true
leaves_from begin claimed = true
leaves_from complete_it in_progress = true
leaves_from (block_it reason) in_progress = true
leaves_from unblock_it blocked = true
leaves_from cancel_it opened = true
leaves_from cancel_it claimed = true
leaves_from cancel_it in_progress = true
leaves_from cancel_it blocked = true
leaves_from _ _ = false

-- Only a claim asks for more: the role of a role-gated item.
abbrev pub passes_gate : Action → WorkItem → Bool
passes_gate (claim m) i = not (lacks_role i.required_role m)
passes_gate _ i = true

-- The state in which an action leaves the item.
abbrev pub target : Action → WorkItemState
target (claim m) = claimed
target begin = in_progress
target complete_it = done
target (block_it reason) = blocked
target unblock_it = in_progress
target cancel_it = cancelled

-- What an action does to the assignee: a claim sets it, every other action keeps it.
abbrev pub assignee_after : Action → WorkItem → Option String
assignee_after (claim m) i = some m.id
assignee_after _ i = i.assignee_member_id

abbrev pub result_of : Action → WorkItem → WorkItem
result_of a i = record i { state = target a; assignee_member_id = assignee_after a i }

-- The name under which an action reports a refused transition.
abbrev pub action_name : Action → String
action_name (claim m) = "claim"
action_name begin = "start"
action_name complete_it = "complete"
action_name (block_it reason) = "block"
action_name unblock_it = "unblock"
action_name cancel_it = "cancel"

-- The error of a refused action: a claim tells a state that is not open from a missing role, and
-- looks at the state first; every other action reports the state and its own name.
abbrev pub refusal : Action → WorkItem → WorkItemError
refusal (claim m) i =
    if is_open i.state
    then claim_lacks_role m.id (or_else i.required_role "") i.id
    else claim_not_open i.id i.state
refusal a i = transition i.state (action_name a)

-- Every method on every state: it succeeds exactly from the states of the table, a claim only if
-- the gate is passed too; a success sets the state and the assignee as stated and changes nothing
-- else, and a refusal throws the error of that action and state.
pub act_table :
    (a : Action) (i : WorkItem)
    → act a i
      ≡ (if leaves_from a i.state && passes_gate a i then ok (result_of a i) else err (refusal a i))
unfolding act
act_table (claim m) i = ground arith
act_table _ i = ground arith

pub act_sound :
    (a : Action) (i j : WorkItem)
    → act a i ≡ ok j
    → (leaves_from a i.state ≡ true) × (passes_gate a i ≡ true) × (j ≡ result_of a i)
act_sound (claim m) i j h = ground (arith, act_table (claim m) i)
act_sound a i j h = ground (arith, act_table a i)

-- A done or cancelled item refuses every action.
pub terminal_absorbs :
    (a : Action) (i j : WorkItem) → (i.state ≡ done) ⊎ (i.state ≡ cancelled) → act a i ≢ ok j
unfolding act
terminal_absorbs (claim m) i j h = ground arith
terminal_absorbs _ i j h = ground arith

-- `canBeClaimedBy` answers true exactly when `claimBy` succeeds, and then the item is claimed for
-- that member.
pub can_be_claimed_by_iff :
    (i : WorkItem) (m : Member)
    → (can_be_claimed_by i m ≡ true)
      ↔ (claim_by i m ≡ ok (record i { state = claimed; assignee_member_id = some m.id }))
unfolding can_be_claimed_by claim_by
can_be_claimed_by_iff i m = (λ h. ground arith, λ h. ground arith)

pub record IsValid (i : WorkItem) : Type 0 where
  pub id : is_blank i.id ≡ false
  pub title : is_blank i.title ≡ false

-- An item that is written out and read back through `create` is the same item: no state, assignee
-- or other field is lost.
pub work_item_round_trip : (i : WorkItem) → IsValid i → create (to_json i) ≡ ok i
unfolding create to_json
work_item_round_trip i v = rw (v.id, v.title) (rw (as_integer-of_ℤ i.priority))

-- What `create` builds is valid; without an explicit state it is open.
pub create-IsValid :
    (p : WorkItemProps) (i : WorkItem)
    → create p ≡ ok i
    → IsValid i
      × (p.state ≡ none → i.state ≡ opened)
      × (i.assignee_member_id ≡ p.assignee_member_id)
      × (as_integer p.priority ≡ some i.priority)
unfolding create
create-IsValid p i h = (ground arith, λ e. ground arith, ground arith, ground arith)

pub act-IsValid : (a : Action) (i j : WorkItem) → IsValid i → act a i ≡ ok j → IsValid j
act-IsValid a i j v h = rw (act_sound a i j h).2 (record { id = v.id; title = v.title })
