-- ===== src/Adapters/Queue/Claiming.antt =====
-- postgres-queue.ts: what `claim` hands out.
use mathlib.Core.Path.{subst}
use mathlib.Core.List.{Memᴰ}
use workspace_os.Base.{
  ◌≤◌, String, true, false, List, ◌∷◌, [], Option, none, some, ◌≡◌, ◌⊎◌, inl, inr, refl, sym, ltb,
  arith, All, Bool-cases, Option-cases,
}
use workspace_os.Adapters.Queue.{
  QueueRow, is_visible, earlier, oldest, update_message, claim_row, message_of, claim,
}

module _ {T : Type 0} where
  -- The row is in the table, waits in the queue, and no row that waits there is older.
  abbrev pub IsOldest : String → List (QueueRow T) → QueueRow T → Type 0
  IsOldest q rows row =
      Memᴰ row rows
      × (is_visible q row ≡ true)
      × All (λ r. is_visible q r ≡ true → row.created_at ≤ r.created_at) rows

  All-older :
      (q : String) (a b : QueueRow T) (rows : List (QueueRow T))
      → b.created_at ≤ a.created_at
      → All (λ r. is_visible q r ≡ true → a.created_at ≤ r.created_at) rows
      → All (λ r. is_visible q r ≡ true → b.created_at ≤ r.created_at) rows
  All-older q a b [] h k = tt
  All-older q a b (r ∷ rows) h (k, ks) = (λ v. omega (arith, h, k v), All-older q a b rows h ks)

  hidden_older :
      (q : String) (a : QueueRow T) (rows : List (QueueRow T))
      → All (λ r. is_visible q r ≡ false) rows
      → All (λ r. is_visible q r ≡ true → a.created_at ≤ r.created_at) rows
  hidden_older q a [] h = tt
  hidden_older q a (r ∷ rows) (h, hs) = (λ v. cc (h, v), hidden_older q a rows hs)

  -- The choice of `oldest`, over all rows.
  abbrev Chosen : String → List (QueueRow T) → Option (QueueRow T) → Type 0
  Chosen q rows none = All (λ r. is_visible q r ≡ false) rows
  Chosen q rows (some row) = IsOldest q rows row

  earlier_other :
      (row other : QueueRow T)
      → ltb other.created_at row.created_at ≡ true
      → earlier row (some other) ≡ other
  earlier_other row other h = rw h

  earlier_row :
      (row other : QueueRow T)
      → ltb other.created_at row.created_at ≡ false
      → earlier row (some other) ≡ row
  earlier_row row other h = rw h

  extend_visible :
      (q : String) (row : QueueRow T) (rows : List (QueueRow T)) (o : Option (QueueRow T))
      → is_visible q row ≡ true
      → Chosen q rows o
      → IsOldest q (row ∷ rows) (earlier row o)
  extend_visible q row rows none v h =
      (Memᴰ.head refl, v, (λ w. omega arith, hidden_older q row rows h))
  extend_visible q row rows (some other) v (listed, w, olds) =
      elim (Bool-cases (ltb other.created_at row.created_at)) [
        | inl before ↦
            subst (IsOldest q (row ∷ rows)) (sym (earlier_other row other before))
              (Memᴰ.tail listed, w, (λ x. ground (arith, before), olds))
        | inr after ↦ subst (IsOldest q (row ∷ rows)) (sym (earlier_row row other after)) (
          Memᴰ.head refl,
          v,
          (λ x. omega arith, All-older q other row rows (ground (arith, after)) olds),
        )
      ]

  extend_hidden :
      (q : String) (row : QueueRow T) (rows : List (QueueRow T)) (o : Option (QueueRow T))
      → is_visible q row ≡ false
      → Chosen q rows o
      → Chosen q (row ∷ rows) o
  extend_hidden q row rows none v h = (v, h)
  extend_hidden q row rows (some other) v (listed, w, olds) =
      (Memᴰ.tail listed, w, (λ x. cc (v, x), olds))

  oldest_lem : (q : String) (rows : List (QueueRow T)) → Chosen q rows (oldest q rows)
  unfolding oldest
  oldest_lem q [] = tt
  oldest_lem q (row ∷ rows) = elim (Bool-cases (is_visible q row)) [
    | inl v ↦ rw (v, oldest) (extend_visible q row rows (oldest q rows) v (oldest_lem q rows))
    | inr v ↦ rw (v, oldest) (extend_hidden q row rows (oldest q rows) v (oldest_lem q rows))
  ]

  -- `claim` on a queue in which nothing waits answers null and changes nothing. Otherwise it hands
  -- out the id and the payload of a waiting row than which no waiting row is older, with one attempt
  -- more than the row has, and the row with that id is marked as claimed.
  pub claim_result :
      (q : String) (rows : List (QueueRow T))
      → (All (λ r. is_visible q r ≡ false) rows × (claim q rows ≡ (none, rows)))
        ⊎ ((row : QueueRow T) × IsOldest q rows row
            × (claim q rows ≡ (some (message_of row), update_message row.id claim_row rows)))
  unfolding claim
  claim_result q rows = elim (Option-cases (oldest q rows)) [
    | inl e ↦ inl (rw e at (oldest_lem q rows), rw (e, claim))
    | inr (row, e) ↦ inr (row, rw e at (oldest_lem q rows), rw (e, claim))
  ]
