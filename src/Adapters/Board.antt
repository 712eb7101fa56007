-- ===== src/Adapters/Board.antt =====
-- packages/adapters/src/repository/drizzle-work-item-repository.ts, on the table `work_items` of
-- db/schema.ts. The table is the list of its rows, in any order; a statement is the function that
-- the query builder's call describes. `updated_at` is written and never read, and is left out.
pub mod Order
pub mod Claims
pub mod Storage
pub mod Concurrency
use workspace_os.Base.{
  ℕ, String, Bool, true, false, not, ◌&&◌, ◌||◌, List, ◌∷◌, [], Option, none, some, Result, ok, err,
  ◌>>=◌, ◌>>◌, if◌then◌else◌, ◌==◌, ltb, map_err,
}
use workspace_os.Base.Int.{ℤ, pos, negsuc, ltb_ℤ}
use workspace_os.Base.Number.{of_ℤ}
use workspace_os.Base.Sets.{has}
use workspace_os.Core.Member.{Member}
use workspace_os.Core.WorkItem.{
  WorkItem, WorkItemState, WorkItemError, WorkItemProps, is_open, create, claim_by,
}

-- A row of `work_items`; `created_at` is a time of the database's clock. A column of type `integer`
-- holds 4 bytes: `save` refuses any other priority.
pub record Row : Type 0 where
  pub id : String
  pub title : String
  pub description : Option String
  pub priority : ℤ
  pub required_role : Option String
  pub state : WorkItemState
  pub assignee_member_id : Option String
  pub created_at : ℕ

-- What a statement or a constructor throws.
pub data BoardError : Type 0 where
  invalid_row : WorkItemError → BoardError
  priority_out_of_range : ℤ → BoardError
  unknown_assignee : BoardError

-- the 4 bytes of the column `priority`
unfoldable pub fits_integer : ℤ → Bool
fits_integer (pos n) = ltb n 2147483648
fits_integer (negsuc n) = ltb n 2147483648

-- the foreign key of `assignee_member_id`, by the ids of the table `members`
unfoldable pub is_assignable : List String → Option String → Bool
is_assignable members none = true
is_assignable members (some id) = has members id

abbrev pub row_props : Row → WorkItemProps
row_props row = record {
  id = row.id;
  title = row.title;
  priority = of_ℤ row.priority;
  description = row.description;
  required_role = row.required_role;
  state = some row.state;
  assignee_member_id = row.assignee_member_id;
}

unfoldable pub to_work_item : Row → Result WorkItemError WorkItem
to_work_item row = create (row_props row)

abbrev pub row_of : WorkItem → ℕ → Row
row_of i created_at = record {
  id = i.id;
  title = i.title;
  description = i.description;
  priority = i.priority;
  required_role = i.required_role;
  state = i.state;
  assignee_member_id = i.assignee_member_id;
  created_at = created_at;
}

-- `insert ... on conflict (id) do update`: an old row keeps its `created_at`, a new one gets `now`
unfoldable pub upsert : WorkItem → ℕ → List Row → List Row
upsert i now [] = row_of i now ∷ []
upsert i now (row ∷ rows) =
    if row.id == i.id then row_of i row.created_at ∷ rows else row ∷ upsert i now rows

-- the statement that writes an assignee fails where the foreign key does, and is rolled back
unfoldable pub keep_key : List String → Option String → List Row → Result BoardError (List Row)
keep_key members assignee rows =
    if is_assignable members assignee then ok rows else err unknown_assignee

unfoldable pub save : List String → WorkItem → ℕ → List Row → Result BoardError (List Row)
save members i now rows =
    if fits_integer i.priority
    then keep_key members i.assignee_member_id (upsert i now rows)
    else err (priority_out_of_range i.priority)

-- `where id = $1 limit 1`
unfoldable pub find_row : String → List Row → Option Row
find_row id [] = none
find_row id (row ∷ rows) = if row.id == id then some row else find_row id rows

unfoldable pub find_by_id : String → List Row → Result WorkItemError (Option WorkItem)
find_by_id id rows = elim (find_row id rows) [
  | none ↦ ok none
  | some row ↦ do item ← to_work_item row; ok (some item)
]

-- `order by priority desc, created_at asc`: `a` stands strictly before `b`
unfoldable pub is_before : Row → Row → Bool
is_before a b =
    ltb_ℤ b.priority a.priority
    || (not (ltb_ℤ a.priority b.priority) && ltb a.created_at b.created_at)

-- rows that the order does not tell apart keep their places
unfoldable pub insert_row : Row → List Row → List Row
insert_row x [] = x ∷ []
insert_row x (y ∷ ys) = if is_before y x then y ∷ insert_row x ys else x ∷ y ∷ ys

unfoldable pub order_rows : List Row → List Row
order_rows [] = []
order_rows (x ∷ xs) = insert_row x (order_rows xs)

unfoldable pub where_rows : (Row → Bool) → List Row → List Row
where_rows test [] = []
where_rows test (x ∷ xs) = let rest = where_rows test xs in if test x then x ∷ rest else rest

abbrev pub row_is_open : Row → Bool
row_is_open row = is_open row.state

unfoldable pub to_work_items : List Row → Result WorkItemError (List WorkItem)
to_work_items [] = ok []
to_work_items (row ∷ rows) = do
  item ← to_work_item row
  items ← to_work_items rows
  ok (item ∷ items)

unfoldable pub list_open : List Row → Result WorkItemError (List WorkItem)
list_open rows = to_work_items (order_rows (where_rows row_is_open rows))

-- `roles.length > 0 ? or(isNull(requiredRole), inArray(requiredRole, roles)) : isNull(requiredRole)`
unfoldable pub eligible_role : List String → Option String → Bool
eligible_role roles none = true
eligible_role [] (some role) = false
eligible_role (r ∷ roles) (some role) = has (r ∷ roles) role

-- the `where` of `claimNext`, and `skip locked`: `locked` are the ids that other transactions hold
unfoldable pub is_candidate : Member → List String → Row → Bool
is_candidate member locked row =
    is_open row.state && eligible_role member.roles row.required_role && not (has locked row.id)

unfoldable pub limit_one : List Row → Option Row
limit_one [] = none
limit_one (x ∷ xs) = some x

unfoldable pub select_candidate : Member → List String → List Row → Option Row
select_candidate member locked rows =
    limit_one (order_rows (where_rows (is_candidate member locked) rows))

-- `update work_items set state, assignee_member_id where id = $1`
unfoldable pub update_row : String → WorkItemState → Option String → List Row → List Row
update_row id state assignee [] = []
update_row id state assignee (row ∷ rows) =
    let rest = update_row id state assignee rows in
    if row.id == id
    then record row { state = state; assignee_member_id = assignee } ∷ rest
    else row ∷ rest

-- The transaction: what it returns, and the table that it commits. Where it throws it is rolled back.
unfoldable pub claim_next :
    List String → Member → List String → List Row → Result BoardError (Option WorkItem × List Row)
claim_next members member locked rows = elim (select_candidate member locked rows) [
  | none ↦ ok (none, rows)
  | some row ↦ do
    item ← map_err invalid_row (to_work_item row)
    claimed ← map_err invalid_row (claim_by item member)
    let updated = update_row row.id claimed.state claimed.assignee_member_id rows
    rows' ← keep_key members claimed.assignee_member_id updated
    ok (some claimed, rows')
]
