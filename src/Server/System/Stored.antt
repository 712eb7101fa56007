-- ===== src/Server/System/Stored.antt =====
-- What the tables of the server hold at any time: rows that can be read, and references to members
-- who are there.
use workspace_os.Base.{
  String, true, List, [], ◌∷◌, ◌++◌, none, some, ok, ◌≡◌, ◌⊎◌, refl, arith, inl, inr, All, ◌==◌,
  eq_iff, Bool-cases,
}
use workspace_os.Base.Sets.{has}
use workspace_os.Core.Member.{Member, MemberProps, create}
use workspace_os.Core.Member.Laws.{member_builds}
use workspace_os.Adapters.Members.{upsert, first_where, to_member, find_by_id}
use workspace_os.Adapters.HumanCredentials.{HumanCredentialRecord}
use workspace_os.Adapters.Activity.{ActivityRecord}
use workspace_os.Adapters.Board.{Row, find_row}
use workspace_os.Adapters.Board.Claims.{IsReadable}
use workspace_os.Server.Signup.{Accounts, ids}
use workspace_os.Server.Signup.Stored.{ids-upsert}

-- A row that `Member.create` accepts.
abbrev pub IsMember : MemberProps → Type 0
IsMember row = (m : Member) × (create row ≡ ok m)

-- The credential belongs to one of the members.
abbrev pub IsOwned : List String → HumanCredentialRecord → Type 0
IsOwned members c = has members c.member_id ≡ true

-- The entry's actor is one of the members.
abbrev pub IsActed : List String → ActivityRecord → Type 0
IsActed members entry = has members entry.actor_member_id ≡ true

-- Every member can be read, and every credential belongs to one.
pub record IsSoundAccounts (s : Accounts) : Type 0 where
  pub readable : All IsMember s.members
  pub owned : All (IsOwned (ids s.members)) s.credentials

pub All-append {ℓ} :
    {A : Type ℓ} (P : A → Type 0) (xs : List A) (y : A) → All P xs → P y → All P (xs ++ y ∷ [])
All-append P [] y h hy = (hy, tt)
All-append P (x ∷ xs) y (h, hs) hy = (h, All-append P xs y hs hy)

pub All-weaken {ℓ} :
    {A : Type ℓ} (P Q : A → Type 0) (xs : List A) → ((x : A) → P x → Q x) → All P xs → All Q xs
All-weaken P Q [] f h = tt
All-weaken P Q (x ∷ xs) f (h, hs) = (f x h, All-weaken P Q xs f hs)

pub All-upsert :
    (P : MemberProps → Type 0) (props : MemberProps) (rows : List MemberProps)
    → P props
    → All P rows
    → All P (upsert props rows)
unfolding upsert
All-upsert P props [] h hs = (h, tt)
All-upsert P props (row ∷ rows) h (hr, hs) = elim (Bool-cases (row.id == props.id)) [
  | inl same ↦ rw same (h, hs)
  | inr apart ↦ rw apart (hr, All-upsert P props rows h hs)
]

-- A member that was there is there after a save.
pub ids-grow :
    (p : MemberProps) (rows : List MemberProps) (id : String)
    → has (ids rows) id ≡ true
    → has (ids (upsert p rows)) id ≡ true
ids-grow p rows id h = ground (arith, ids-upsert p rows id, h)

pub row_at :
    (id : String) (rows : List Row)
    → All IsReadable rows
    → (find_row id rows ≡ none) ⊎ ((row : Row) × (find_row id rows ≡ some row) × IsReadable row)
unfolding find_row
row_at id [] h = inl refl
row_at id (row ∷ rows) (h, hs) = elim (Bool-cases (row.id == id)) [
  | inl same ↦ inr (row, rw same, h)
  | inr apart ↦ rw apart (row_at id rows hs)
]

has_self : (id : String) (more : List String) → has (id ∷ more) id ≡ true
unfolding has
has_self id more = ground (arith, eq_iff id id)

has_later :
    (id first : String) (more : List String) → has more id ≡ true → has (first ∷ more) id ≡ true
unfolding has
has_later id first more h = ground (arith, h)

-- A look-up never throws, and who is found is one of the members.
pub member_at :
    (id : String) (rows : List MemberProps)
    → All IsMember rows
    → (find_by_id id rows ≡ ok none)
      ⊎ ((m : Member) × (find_by_id id rows ≡ ok (some m)) × (has (ids rows) m.id ≡ true))
unfolding find_by_id first_where to_member
member_at id [] h = inl refl
member_at id (row ∷ rows) ((m, built), hs) = elim (Bool-cases (row.id == id)) [
  | inl same ↦ inr (
    m,
    rw (same, first_where) (rw built),
    rw (member_builds row m built).2 (has_self row.id (ids rows)),
  )
  | inr apart ↦ elim (member_at id rows hs) [
    | inl missing ↦ inl (rw apart missing)
    | inr (found, e, known) ↦ inr (found, rw apart e, has_later found.id row.id (ids rows) known)
  ]
]
