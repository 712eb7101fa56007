-- ===== src/Adapters/Queue/Delivery.antt =====
-- postgres-queue.ts: a claimed message is hidden until it fails.
use mathlib.Core.List.{Memᴰ}
use workspace_os.Base.{
  ℕ, String, Bool, true, false, not, ◌&&◌, ◌||◌, List, ◌∷◌, [], ◌++◌, Option, none, some, ◌≡◌, inl,
  inr, refl, ◌==◌, arith, All, Bool-cases, eq_iff, eq_refl,
}
use workspace_os.Base.Sets.{has}
use workspace_os.Adapters.Queue.{
  QueueMessage, QueueRow, QueueOp, enqueue_op, claim_op, complete_op, fail_op, is_pending, enqueue,
  is_visible, update_message, claim_row, complete_row, fail_row, message_of, claim, complete, fail,
  run_op,
}
use workspace_os.Adapters.Queue.Claiming.{claim_result}

has-append : (xs ys : List String) (id : String) → has (xs ++ ys) id ≡ (has xs id || has ys id)
unfolding has
has-append [] ys id = refl
has-append (x ∷ xs) ys id = ground (arith, has-append xs ys id)

module _ {T : Type 0} where
  -- No row with the id waits.
  abbrev pub is_hidden : String → List (QueueRow T) → Bool
  is_hidden id [] = true
  is_hidden id (row ∷ rows) =
      (not (row.id == id) || not (is_pending row.status)) && is_hidden id rows

  hidden-enqueue :
      (id other q : String) (now : ℕ) (payload : T) (rows : List (QueueRow T))
      → (other == id) ≡ false
      → is_hidden id rows ≡ true
      → is_hidden id (enqueue other now q payload rows) ≡ true
  unfolding enqueue
  hidden-enqueue id other q now payload [] h k = ground (arith, h)
  hidden-enqueue id other q now payload (row ∷ rows) h k =
      ground (arith, k, hidden-enqueue id other q now payload rows h)

  -- A change that leaves no row waiting keeps every id hidden.
  hidden-update :
      (id other : String) (change : QueueRow T → QueueRow T) (rows : List (QueueRow T))
      → ((row : QueueRow T) → is_pending (change row).status ≡ false)
      → is_hidden id rows ≡ true
      → is_hidden id (update_message other change rows) ≡ true
  unfolding update_message
  hidden-update id other change [] h k = refl
  hidden-update id other change (row ∷ rows) h k =
      ground (arith, k, h row, hidden-update id other change rows h)

  hidden-update_self :
      (id : String) (change : QueueRow T → QueueRow T) (rows : List (QueueRow T))
      → ((row : QueueRow T) → is_pending (change row).status ≡ false)
      → is_hidden id (update_message id change rows) ≡ true
  unfolding update_message
  hidden-update_self id change [] h = refl
  hidden-update_self id change (row ∷ rows) h =
      ground (arith, h row, hidden-update_self id change rows h)

  hidden-fail :
      (id other error : String) (rows : List (QueueRow T))
      → (other == id) ≡ false
      → is_hidden id rows ≡ true
      → is_hidden id (update_message other (fail_row error) rows) ≡ true
  unfolding update_message
  hidden-fail id other error [] h k = refl
  hidden-fail id other error (row ∷ rows) h k = elim (Bool-cases (row.id == other)) [
    | inl same ↦ rw same (
        ground
          (arith, k, h, eq_iff row.id other, eq_iff other id, hidden-fail id other error rows h))
    | inr apart ↦ rw apart (ground (arith, k, hidden-fail id other error rows h))
  ]

  hidden_not_visible :
      (q : String) (row : QueueRow T) (rows : List (QueueRow T))
      → Memᴰ row rows
      → is_visible q row ≡ true
      → is_hidden row.id rows ≡ false
  hidden_not_visible q row [] m h = elim m [ ]
  hidden_not_visible q row (r ∷ rows) (Memᴰ.head e) h = rw (← e) (ground (arith, h, eq_refl row.id))
  hidden_not_visible q row (r ∷ rows) (Memᴰ.tail m) h =
      ground (arith, hidden_not_visible q row rows m h)

  -- An operation other than a failure of the message and an enqueue under its id.
  abbrev pub spares : String → QueueOp T → Bool
  spares id (enqueue_op other now q payload) = not (other == id)
  spares id (claim_op q) = true
  spares id (complete_op other) = true
  spares id (fail_op other error) = not (other == id)

  -- The ids that a sequence of operations hands out.
  abbrev delivered : Option (QueueMessage T) → List String
  delivered none = []
  delivered (some message) = message.id ∷ []

  unfoldable pub deliveries : List (QueueOp T) → List (QueueRow T) → List String
  deliveries [] rows = []
  deliveries (op ∷ ops) rows = delivered (run_op op rows).0 ++ deliveries ops (run_op op rows).1

  claim_hidden :
      (id q : String) (rows : List (QueueRow T))
      → is_hidden id rows ≡ true
      → (has (delivered (claim q rows).0) id ≡ false) × (is_hidden id (claim q rows).1 ≡ true)
  unfolding has
  claim_hidden id q rows h = elim (claim_result q rows) [
    | inl (_, e) ↦ rw e (refl, h)
    | inr (row, (listed, waits, olds), e) ↦ rw e (
      ground (arith, eq_iff row.id id, hidden_not_visible q row rows listed waits, h),
      hidden-update id row.id claim_row rows (λ r. refl) h,
    )
  ]

  run_op_hidden :
      (id : String) (op : QueueOp T) (rows : List (QueueRow T))
      → spares id op ≡ true
      → is_hidden id rows ≡ true
      → (has (delivered (run_op op rows).0) id ≡ false) × (is_hidden id (run_op op rows).1 ≡ true)
  unfolding run_op has complete fail
  run_op_hidden id (enqueue_op other now q payload) rows s h =
      (refl, hidden-enqueue id other q now payload rows (ground (arith, s)) h)
  run_op_hidden id (claim_op q) rows s h = claim_hidden id q rows h
  run_op_hidden id (complete_op other) rows s h =
      (refl, hidden-update id other complete_row rows (λ r. refl) h)
  run_op_hidden id (fail_op other error) rows s h =
      (refl, hidden-fail id other error rows (ground (arith, s)) h)

  hidden_stays :
      (id : String) (ops : List (QueueOp T)) (rows : List (QueueRow T))
      → All (λ op. spares id op ≡ true) ops
      → is_hidden id rows ≡ true
      → has (deliveries ops rows) id ≡ false
  unfolding deliveries has
  hidden_stays id [] rows s h = refl
  hidden_stays id (op ∷ ops) rows (s, ss) h =
      let (none_now, still) = run_op_hidden id op rows s h in
      rw (has-append, none_now) (hidden_stays id ops (run_op op rows).1 ss still)

  same_id :
      (row : QueueRow T) (message : QueueMessage T)
      → some (message_of row) ≡ some message
      → row.id ≡ message.id
  same_id row message h = ground (arith, h)

  -- After a message was handed out, no later claim, on whatever queue, hands it out again, as long as
  -- it is not reported as failed and no new row gets its id.
  pub claimed_once :
      (q : String) (rows : List (QueueRow T)) (message : QueueMessage T) (ops : List (QueueOp T))
      → (claim q rows).0 ≡ some message
      → All (λ op. spares message.id op ≡ true) ops
      → has (deliveries ops (claim q rows).1) message.id ≡ false
  claimed_once q rows message ops h s = elim (claim_result q rows) [
    | inl (_, e) ↦ cc (rw e at h)
    | inr (row, _, e) ↦ hidden_stays message.id ops (claim q rows).1 s (
        rw e (
          rw (← same_id row message (rw e at h))
            (hidden-update_self row.id claim_row rows (λ r. refl))))
  ]
