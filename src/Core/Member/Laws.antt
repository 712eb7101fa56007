-- ===== src/Core/Member/Laws.antt =====
-- member.ts: what a member that was built satisfies, and what changing its roles does.
use workspace_os.Base.{
  String, false, not, ◌&&◌, ◌||◌, ◌∷◌, [], ◌++◌, Option, none, some, ok, err, ◌==◌, if◌then◌else◌,
  eq_iff, ◌≡◌, refl, ◌↔◌, arith, Bool-cases, ap, ◌∙◌, inl, inr,
}
use workspace_os.Base.Text.{is_blank}
use workspace_os.Base.Sets.{
  has, set_of, without, IsDistinct, has-set_of, set_of-IsDistinct, set_of_of_IsDistinct,
  has-without, has-append_one,
}
use workspace_os.Core.Member.{
  MemberType, InvalidMemberError, unknown_type, blank_field, human, agent, MemberProps, Member,
  member_type, type_name, construct, create, to_json, has_role, with_role, without_role,
}

pub record IsValid (m : Member) : Type 0 where
  pub id : is_blank m.id ≡ false
  pub identity_ref : is_blank m.identity_ref ≡ false
  pub display_name : is_blank m.display_name ≡ false
  pub roles : IsDistinct m.roles

-- The error paths, in the order of the checks.
abbrev pub first_error : MemberProps → Option InvalidMemberError
first_error p =
    if not (p.type == "human" || p.type == "agent")
    then some (unknown_type p.type)
    else if is_blank p.id
    then some (blank_field "id")
    else if is_blank p.identity_ref
    then some (blank_field "identityRef")
    else if is_blank p.display_name
    then some (blank_field "displayName")
    else none

member_type-type_name : (t : MemberType) → member_type (type_name t) ≡ some t
unfolding member_type
member_type-type_name human = refl
member_type-type_name agent = refl

type_name-member_type : (s : String) (t : MemberType) → member_type s ≡ some t → s ≡ type_name t
unfolding member_type
type_name-member_type s t h = ground (arith, eq_iff s "human", eq_iff s "agent")

-- `create` fails exactly on the first of: a type that is neither "human" nor "agent", a blank id, a
-- blank identityRef, a blank displayName; and it names that one.
pub create_error_iff :
    (p : MemberProps) (e : InvalidMemberError) → (create p ≡ err e) ↔ (first_error p ≡ some e)
unfolding create member_type
create_error_iff p e = (λ h. ground arith, λ h. ground arith)

create_parts :
    (p : MemberProps) (m : Member)
    → create p ≡ ok m
    → (member_type p.type ≡ some m.type)
      × (is_blank p.id ≡ false)
      × (is_blank p.identity_ref ≡ false)
      × (is_blank p.display_name ≡ false)
      × (m ≡ construct m.type p)
unfolding create
create_parts p m h = ground arith

-- What `create` builds has one of the two types, no blank field, no role twice, and the props' own
-- fields and roles.
pub member_builds :
    (p : MemberProps) (m : Member)
    → create p ≡ ok m
    → IsValid m
      × (p.type ≡ type_name m.type)
      × (m.id ≡ p.id)
      × (m.identity_ref ≡ p.identity_ref)
      × (m.display_name ≡ p.display_name)
      × ((r : String) → has_role m r ≡ has p.roles r)
unfolding construct has_role
member_builds p m h =
    let (t, id, ref, name, same) = create_parts p m h in
    let roles : m.roles ≡ set_of p.roles = ap (λ (x : Member). x.roles) same in
    let same_id : m.id ≡ p.id = ap (λ (x : Member). x.id) same in
    let same_ref : m.identity_ref ≡ p.identity_ref = ap (λ (x : Member). x.identity_ref) same in
    let same_name : m.display_name ≡ p.display_name = ap (λ (x : Member). x.display_name) same in
    (
      record {
        id = rw same_id id;
        identity_ref = rw same_ref ref;
        display_name = rw same_name name;
        roles = rw roles (set_of-IsDistinct p.roles);
      },
      type_name-member_type p.type m.type t,
      same_id,
      same_ref,
      same_name,
      λ r. rw roles (has-set_of p.roles r),
    )

-- A valid member that is written out and read back through `create` is the same member.
pub member_round_trip : (m : Member) → IsValid m → create (to_json m) ≡ ok m
unfolding create to_json
member_round_trip m v =
    rw (member_type-type_name m.type) (ground (arith, set_of_of_IsDistinct m.roles v.roles))

-- Granting a role gives the member that role and leaves the other roles as they were, whether or
-- not the member had it.
pub has_role-with_role :
    (m : Member) (role other : String)
    → has_role (with_role m role) other ≡ (has_role m other || role == other)
unfolding with_role has_role
has_role-with_role m role other = elim (Bool-cases (has m.roles role)) [
  | inl held ↦ rw held (ground (arith, eq_iff role other))
  | inr new ↦ rw new (has-set_of (m.roles ++ role ∷ []) other ∙ has-append_one m.roles role other)
]

-- Revoking a role takes that role from the member and no other.
pub has_role-without_role :
    (m : Member) (role other : String)
    → has_role (without_role m role) other ≡ (not (role == other) && has_role m other)
unfolding without_role has_role
has_role-without_role m role other = elim (Bool-cases (has m.roles role)) [
  | inl held ↦ rw held (has-set_of (without m.roles role) other ∙ has-without m.roles role other)
  | inr miss ↦ rw miss (ground (arith, eq_iff role other))
]

-- Granting and revoking roles keep a member valid: its fields stay, and no role is held twice.
pub roles_keep-IsValid :
    (m : Member) (role : String)
    → IsValid m
    → IsValid (with_role m role) × IsValid (without_role m role)
unfolding with_role without_role has_role
roles_keep-IsValid m role v = elim (Bool-cases (has m.roles role)) [
  | inl held ↦ rw held (
    v,
    record {
      id = v.id;
      identity_ref = v.identity_ref;
      display_name = v.display_name;
      roles = set_of-IsDistinct (without m.roles role);
    },
  )
  | inr miss ↦ rw miss (
    record {
      id = v.id;
      identity_ref = v.identity_ref;
      display_name = v.display_name;
      roles = set_of-IsDistinct (m.roles ++ role ∷ []);
    },
    v,
  )
]
