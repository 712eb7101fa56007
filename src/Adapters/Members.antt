-- ===== src/Adapters/Members.antt =====
-- packages/adapters/src/repository/drizzle-member-repository.ts, on the table `members` of
-- db/schema.ts. `created_at` and `updated_at` are written and never read, and are left out.
use workspace_os.Base.{
  String, Bool, true, false, not, ◌&&◌, ◌||◌, List, ◌∷◌, [], Option, none, some, Result, ok, err,
  ◌>>=◌, ◌≡◌, if◌then◌else◌, ◌==◌, Bool-cases, inl, inr, arith, eq_iff,
}
use workspace_os.Core.Member.{Member, MemberProps, InvalidMemberError, create, to_json}
use workspace_os.Core.Member.Laws.{IsValid, member_round_trip}

-- The unique index on `identity_ref`.
pub data UniqueViolation : Type 0 where
  identity_taken : String → UniqueViolation

-- some row of another id has the identity
abbrev pub is_taken : String → String → List MemberProps → Bool
is_taken id identity_ref [] = false
is_taken id identity_ref (row ∷ rows) =
    (row.identity_ref == identity_ref && not (row.id == id)) || is_taken id identity_ref rows

-- `insert ... on conflict (id) do update`
unfoldable pub upsert : MemberProps → List MemberProps → List MemberProps
upsert props [] = props ∷ []
upsert props (row ∷ rows) =
    let rest = upsert props rows in if row.id == props.id then props ∷ rows else row ∷ rest

unfoldable pub save : Member → List MemberProps → Result UniqueViolation (List MemberProps)
save member rows =
    let props = to_json member in
    if is_taken props.id props.identity_ref rows
    then err (identity_taken props.identity_ref)
    else ok (upsert props rows)

-- `where test limit 1`
unfoldable pub first_where : (MemberProps → Bool) → List MemberProps → Option MemberProps
first_where test [] = none
first_where test (row ∷ rows) =
    let rest = first_where test rows in if test row then some row else rest

unfoldable pub to_member : Option MemberProps → Result InvalidMemberError (Option Member)
to_member none = ok none
to_member (some row) = do member ← create row; ok (some member)

unfoldable pub find_by_id : String → List MemberProps → Result InvalidMemberError (Option Member)
find_by_id id rows = to_member (first_where (λ row. row.id == id) rows)

unfoldable pub find_by_identity_ref :
    String → List MemberProps → Result InvalidMemberError (Option Member)
find_by_identity_ref identity_ref rows =
    to_member (first_where (λ row. row.identity_ref == identity_ref) rows)

first-upsert :
    (props : MemberProps) (id : String) (rows : List MemberProps)
    → first_where (λ row. row.id == id) (upsert props rows)
      ≡ (if props.id == id then some props else first_where (λ row. row.id == id) rows)
unfolding first_where upsert
first-upsert props id [] = ground arith
first-upsert props id (row ∷ rows) = ground (
  arith,
  eq_iff row.id props.id,
  eq_iff row.id id,
  eq_iff props.id id,
  first-upsert props id rows,
)

-- A valid member that is stored is found under its id; other ids find what they found.
pub find_by_id-upsert :
    (m : Member) (rows : List MemberProps) (id : String)
    → IsValid m
    → find_by_id id (upsert (to_json m) rows)
      ≡ (if m.id == id then ok (some m) else find_by_id id rows)
unfolding to_json find_by_id
find_by_id-upsert m rows id v = elim (Bool-cases (m.id == id)) [
  | inl same ↦
      rw (first-upsert (to_json m) id rows, same) (unfold to_member in rw (member_round_trip m v))
  | inr other ↦ rw (first-upsert (to_json m) id rows, other)
]

-- A save of a valid member is refused if a member of another id has the same identity. Otherwise the
-- id finds exactly the member that was saved, and every other id finds what it found before.
pub save_result :
    (m : Member) (rows : List MemberProps)
    → IsValid m
    → (is_taken m.id m.identity_ref rows ≡ true → save m rows ≡ err (identity_taken m.identity_ref))
      × (is_taken m.id m.identity_ref rows ≡ false
          → (rows' : List MemberProps) × (save m rows ≡ ok rows')
            × ((id : String)
                → find_by_id id rows' ≡ (if m.id == id then ok (some m) else find_by_id id rows)))
unfolding save to_json
save_result m rows v = (
  λ taken. rw (taken, save),
  λ free. (upsert (to_json m) rows, rw (free, save), λ id. find_by_id-upsert m rows id v),
)
