-- ===== src/Adapters/Activity/Listing.antt =====
-- drizzle-activity-log.ts: what was recorded is listed, in the order of time.
use mathlib.Core.List.{Perm}
use mathlib.Core.List.Perm
use workspace_os.Base.{
  ℕ, String, Bool, true, List, [], ◌∷◌, ◌++◌, ok, ◌≡◌, refl, sym, subst, arith, inl, inr,
  Bool-cases, eq_refl, or_else,
}
use workspace_os.Base.Sets.{has}
use workspace_os.Base.Sort.{IsStrictOrder, IsSorted, sort_by, sort_by-IsSorted, sort_by-perm}
use workspace_os.Adapters.Activity.{
  RecordActivityInput, ActivityRecord, record_activity, where_records, is_of_actor, is_of_resource,
  record_before, list_by_actor, list_by_resource,
}

-- The row that an input becomes.
abbrev pub recorded : String → ℕ → RecordActivityInput → ActivityRecord
recorded id occurred_at input = record {
  id = id;
  actor_member_id = input.actor.id;
  actor_type = input.actor.type;
  action = input.action;
  resource_type = input.resource_type;
  resource_id = input.resource_id;
  metadata = or_else input.metadata [];
  occurred_at = occurred_at;
}

where-append_one :
    (test : ActivityRecord → Bool) (log : List ActivityRecord) (r : ActivityRecord)
    → test r ≡ true
    → where_records test (log ++ r ∷ []) ≡ where_records test log ++ r ∷ []
unfolding where_records
where-append_one test [] r h = rw h refl
where-append_one test (x ∷ log) r h = elim (Bool-cases (test x)) [
  | inl passes ↦ rw (passes, where-append_one test log r h)
  | inr fails ↦ rw (fails, where-append_one test log r h)
]

module _ (id_before : String → String → Bool) where
  before-IsStrictOrder : IsStrictOrder id_before → IsStrictOrder (record_before id_before)
  unfolding record_before
  before-IsStrictOrder o = record {
    asym = λ a b h. ground (arith, o.asym a.id b.id);
    level_trans = λ a b c h k. ground (arith, o.level_trans a.id b.id c.id);
  }

  one_more :
      (test : ActivityRecord → Bool) (log : List ActivityRecord) (r : ActivityRecord)
      → test r ≡ true
      → Perm
          (sort_by (record_before id_before) (where_records test (log ++ r ∷ [])))
          (sort_by (record_before id_before) (where_records test log) ++ r ∷ [])
  one_more test log r h =
      let sorted = sort_by-perm (record_before id_before) in
      Perm.trans (sorted (where_records test (log ++ r ∷ []))) (
        subst (λ xs. Perm xs (sort_by (record_before id_before) (where_records test log) ++ r ∷ []))
          (sym (where-append_one test log r h))
          (Perm.append_right (r ∷ []) (Perm.symm (sorted (where_records test log)))))

  -- For ids that the database orders strictly: an activity of a known member is recorded, and then
  -- stands in the listing of the member and in that of the resource, beside exactly what was
  -- listed there before, each listing by time and then by id.
  pub recorded_is_listed :
      (members : List String) (id : String) (occurred_at : ℕ) (input : RecordActivityInput)
      (log : List ActivityRecord)
      → IsStrictOrder id_before
      → has members input.actor.id ≡ true
      → (log' : List ActivityRecord) × (record_activity members id occurred_at input log ≡ ok log')
        × Perm
            (list_by_actor id_before input.actor.id log')
            (list_by_actor id_before input.actor.id log ++ recorded id occurred_at input ∷ [])
        × IsSorted (record_before id_before) (list_by_actor id_before input.actor.id log')
        × Perm (list_by_resource id_before input.resource_type input.resource_id log') (
            list_by_resource id_before input.resource_type input.resource_id log
            ++ recorded id occurred_at input ∷ [])
        × IsSorted
            (record_before id_before)
            (list_by_resource id_before input.resource_type input.resource_id log')
  unfolding record_activity list_by_actor list_by_resource
  recorded_is_listed members id occurred_at input log o known =
      let r = recorded id occurred_at input in
      (
        log ++ r ∷ [],
        rw (known, record_activity),
        one_more (is_of_actor input.actor.id) log r (eq_refl input.actor.id),
        sort_by-IsSorted (record_before id_before) (before-IsStrictOrder o) _,
        one_more (is_of_resource input.resource_type input.resource_id) log r
            (ground (arith, eq_refl input.resource_type, eq_refl input.resource_id)),
        sort_by-IsSorted (record_before id_before) (before-IsStrictOrder o) _,
      )
