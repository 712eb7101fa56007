-- ===== src/Core/WorkItem/Assignment.antt =====
-- work-item.ts: who an item belongs to, along every history of actions.
use workspace_os.Base.{Bool, true, false, none, some, ok, ◌≡◌, ◌≢◌, refl, ◌∙◌, arith}
use workspace_os.Core.Member.{Member}
use workspace_os.Core.WorkItem.{
  WorkItemState, opened, claimed, in_progress, blocked, done, WorkItem, lacks_role, Action, claim,
  act,
}
use workspace_os.Core.WorkItem.Lifecycle.{act_sound}

-- The items that successful actions lead to.
pub data Reach (i : WorkItem) : WorkItem → Type 0 where
  here : Reach i i
  next : {j k : WorkItem} → Reach i j → (a : Action) → act a j ≡ ok k → Reach i k

abbrev pub is_owned : WorkItemState → Bool
is_owned claimed = true
is_owned in_progress = true
is_owned blocked = true
is_owned done = true
is_owned _ = false

-- The item belongs to a member who passed its role gate.
abbrev pub IsOwned : WorkItem → Type 0
IsOwned i =
    (m : Member) × (i.assignee_member_id ≡ some m.id) × (lacks_role i.required_role m ≡ false)

pub record IsAccounted (i : WorkItem) : Type 0 where
  pub free : i.state ≡ opened → i.assignee_member_id ≡ none
  pub owned : is_owned i.state ≡ true → IsOwned i

owned-ne-opened : (i : WorkItem) → i.state ≡ opened → is_owned i.state ≡ true → ⊥
owned-ne-opened i e h = ground arith

act-IsAccounted : (a : Action) (i j : WorkItem) → act a i ≡ ok j → IsAccounted i → IsAccounted j
act-IsAccounted (claim m) i j h v =
    let (from, gate, same) = act_sound (claim m) i j h in
    rw same (record { free = λ e. cc e; owned = λ e. (m, refl, ground arith) })
act-IsAccounted a i j h v =
    let (from, gate, same) = act_sound a i j h in
    rw same (record { free = λ e. ground arith; owned = λ e. v.owned (ground arith) })

-- What no action changes.
pub record SameTask (i j : WorkItem) : Type 0 where
  pub id : j.id ≡ i.id
  pub title : j.title ≡ i.title
  pub priority : j.priority ≡ i.priority
  pub description : j.description ≡ i.description
  pub required_role : j.required_role ≡ i.required_role

act-SameTask : (a : Action) (i j k : WorkItem) → act a j ≡ ok k → SameTask i j → SameTask i k
act-SameTask a i j k h v = rw (act_sound a j k h).2 (record {
  id = v.id;
  title = v.title;
  priority = v.priority;
  description = v.description;
  required_role = v.required_role;
})

SameTask-refl : (i : WorkItem) → SameTask i i
SameTask-refl i = record {
  id = refl;
  title = refl;
  priority = refl;
  description = refl;
  required_role = refl;
}

-- Whatever actions are taken on an open, unassigned item: it stays the same task; while it is open
-- it has no assignee; and while it is claimed, in progress, blocked or done its assignee is a member
-- who passed the role gate.
pub Reach-IsAccounted :
    {i j : WorkItem}
    → Reach i j
    → i.state ≡ opened
    → i.assignee_member_id ≡ none
    → IsAccounted j × SameTask i j
Reach-IsAccounted {i = i} here open_now free = (
  record { free = λ e. free; owned = λ e. absurd (owned-ne-opened i open_now e) },
  SameTask-refl i,
)
Reach-IsAccounted {i = i} {j = k} (next {j = j} r a h) open_now free =
    let (accounted, same) = Reach-IsAccounted r open_now free in
    (act-IsAccounted a j k h accounted, act-SameTask a i j k h same)

act_keeps_owner :
    (a : Action) (i j : WorkItem)
    → act a i ≡ ok j
    → i.state ≢ opened
    → (j.state ≢ opened) × (j.assignee_member_id ≡ i.assignee_member_id)
act_keeps_owner (claim m) i j h n = absurd (n (ground (arith, act_sound (claim m) i j h)))
act_keeps_owner a i j h n =
    let (from, gate, same) = act_sound a i j h in (λ e. ground arith, ground arith)

-- Once an item is not open it never is again, and its assignee never changes: nobody claims it a
-- second time.
pub Reach-keeps_owner :
    {i j : WorkItem}
    → Reach i j
    → i.state ≢ opened
    → (j.state ≢ opened) × (j.assignee_member_id ≡ i.assignee_member_id)
Reach-keeps_owner here n = (n, refl)
Reach-keeps_owner {j = k} (next {j = j} r a h) n =
    let (m, same) = Reach-keeps_owner r n in
    let (m', same') = act_keeps_owner a j k h m in (m', same' ∙ same)
