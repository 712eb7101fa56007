-- ===== src/Adapters/Queue.antt =====
-- packages/adapters/src/queue/postgres-queue.ts, on the table `queue_messages` of db/schema.ts. Each
-- operation is one statement, which Postgres runs as a whole. The id of a new row and the times are
-- the database's. A row keeps its payload; the times of claim and completion are written and never
-- read, and are left out.
pub mod Claiming
pub mod Delivery
use workspace_os.Base.{
  ℕ, ◌+◌, String, Bool, true, false, ◌&&◌, List, ◌∷◌, [], ◌++◌, Option, none, some, if◌then◌else◌,
  ◌==◌, ltb,
}

pub data MessageStatus : Type 0 where
  pending claimed completed : MessageStatus

module _ (T : Type 0) where
  pub record QueueMessage : Type 0 where
    pub id : String
    pub payload : T
    pub attempts : ℕ

  pub record QueueRow : Type 0 where
    pub id : String
    pub queue_name : String
    pub payload : T
    pub status : MessageStatus
    pub attempts : ℕ
    pub last_error : Option String
    pub created_at : ℕ

  -- One of the four operations, with what the database gives to it.
  pub data QueueOp : Type 0 where
    enqueue_op : String → ℕ → String → T → QueueOp
    claim_op : String → QueueOp
    complete_op : String → QueueOp
    fail_op : String → String → QueueOp

abbrev pub is_pending : MessageStatus → Bool
is_pending pending = true
is_pending _ = false

module _ {T : Type 0} where
  unfoldable pub enqueue : String → ℕ → String → T → List (QueueRow T) → List (QueueRow T)
  enqueue id created_at queue_name payload rows =
      rows
      ++ record {
        id = id;
        queue_name = queue_name;
        payload = payload;
        status = pending;
        attempts = 0;
        last_error = none;
        created_at = created_at;
      }
        ∷ []

  -- `queue_name = $1 and status = 'pending'`
  abbrev pub is_visible : String → QueueRow T → Bool
  is_visible queue_name row = row.queue_name == queue_name && is_pending row.status

  abbrev pub earlier : QueueRow T → Option (QueueRow T) → QueueRow T
  earlier row none = row
  earlier row (some other) = if ltb other.created_at row.created_at then other else row

  -- `order by created_at limit 1`
  unfoldable pub oldest : String → List (QueueRow T) → Option (QueueRow T)
  oldest queue_name [] = none
  oldest queue_name (row ∷ rows) =
      let rest = oldest queue_name rows in
      if is_visible queue_name row then some (earlier row rest) else rest

  -- `update queue_messages set ... where id = $1`, with what is set
  unfoldable pub update_message :
      String → (QueueRow T → QueueRow T) → List (QueueRow T) → List (QueueRow T)
  update_message id change [] = []
  update_message id change (row ∷ rows) =
      let rest = update_message id change rows in
      if row.id == id then change row ∷ rest else row ∷ rest

  abbrev pub claim_row : QueueRow T → QueueRow T
  claim_row row = record row { status = claimed; attempts = row.attempts + 1 }

  abbrev pub complete_row : QueueRow T → QueueRow T
  complete_row row = record row { status = completed }

  abbrev pub fail_row : String → QueueRow T → QueueRow T
  fail_row error row = record row { status = pending; last_error = some error }

  abbrev pub message_of : QueueRow T → QueueMessage T
  message_of row = record { id = row.id; payload = row.payload; attempts = row.attempts + 1 }

  unfoldable pub claim : String → List (QueueRow T) → Option (QueueMessage T) × List (QueueRow T)
  claim queue_name rows = elim (oldest queue_name rows) [
    | none ↦ (none, rows)
    | some row ↦ (some (message_of row), update_message row.id claim_row rows)
  ]

  unfoldable pub complete : String → List (QueueRow T) → List (QueueRow T)
  complete id rows = update_message id complete_row rows

  unfoldable pub fail : String → String → List (QueueRow T) → List (QueueRow T)
  fail id error rows = update_message id (fail_row error) rows

  -- What an operation hands out, and the table after it.
  unfoldable pub run_op :
      QueueOp T → List (QueueRow T) → Option (QueueMessage T) × List (QueueRow T)
  run_op (enqueue_op id now queue_name payload) rows =
      (none, enqueue id now queue_name payload rows)
  run_op (claim_op queue_name) rows = claim queue_name rows
  run_op (complete_op id) rows = (none, complete id rows)
  run_op (fail_op id error) rows = (none, fail id error rows)
