-- ===== src/Core/Member.antt =====
-- packages/core/src/domain/member.ts: a human or an agent, the one kind of principal.
pub mod Laws
use workspace_os.Base.{
  String, Bool, true, false, List, ◌∷◌, [], ◌++◌, Option, none, some, Result, ok, err, ◌>>=◌, ◌>>◌,
  if◌then◌else◌, ◌==◌,
}
use workspace_os.Base.Text.{is_blank}
use workspace_os.Base.Sets.{has, has_any as set_has_any, set_of, without}

pub data MemberType : Type 0 where
  human agent : MemberType

-- The `type` of the props comes from a request or a row, so it is any text until `create`.
pub record MemberProps : Type 0 where
  pub id : String
  pub type : String
  pub identity_ref : String
  pub display_name : String
  pub roles : List String

pub data InvalidMemberError : Type 0 where
  unknown_type : String → InvalidMemberError
  blank_field : String → InvalidMemberError

pub record Member : Type 0 where
  pub id : String
  pub type : MemberType
  pub identity_ref : String
  pub display_name : String
  pub roles : List String

-- `MEMBER_TYPES.includes(type)`, with the type that it is
unfoldable pub member_type : String → Option MemberType
member_type s = if s == "human" then some human else if s == "agent" then some agent else none

abbrev pub type_name : MemberType → String
type_name human = "human"
type_name agent = "agent"

pub require_non_blank : String → String → Result InvalidMemberError (Unit {0})
require_non_blank field value = if is_blank value then err (blank_field field) else ok tt

-- the constructor
pub construct : MemberType → MemberProps → Member
construct t props = record {
  id = props.id;
  type = t;
  identity_ref = props.identity_ref;
  display_name = props.display_name;
  roles = set_of props.roles;
}

known_type : MemberProps → Option MemberType → Result InvalidMemberError MemberType
known_type props none = err (unknown_type props.type)
known_type props (some t) = ok t

unfoldable pub create : MemberProps → Result InvalidMemberError Member
unfolding require_non_blank construct known_type
create props = do
  t ← known_type props (member_type props.type)
  require_non_blank "id" props.id
  require_non_blank "identityRef" props.identity_ref
  require_non_blank "displayName" props.display_name
  ok (construct t props)

unfoldable pub to_json : Member → MemberProps
to_json m = record {
  id = m.id;
  type = type_name m.type;
  identity_ref = m.identity_ref;
  display_name = m.display_name;
  roles = m.roles;
}

unfoldable pub is_human : Member → Bool
is_human m = elim m.type [ human ↦ true | agent ↦ false ]

unfoldable pub is_agent : Member → Bool
is_agent m = elim m.type [ human ↦ false | agent ↦ true ]

unfoldable pub has_role : Member → String → Bool
has_role m role = has m.roles role

unfoldable pub has_any_role : Member → List String → Bool
has_any_role m roles = set_has_any m.roles roles

unfoldable pub with_role : Member → String → Member
unfolding has_role construct to_json
with_role m role =
    if has_role m role
    then m
    else construct m.type (record (to_json m) { roles = m.roles ++ role ∷ [] })

unfoldable pub without_role : Member → String → Member
unfolding has_role construct to_json
without_role m role =
    if has_role m role
    then construct m.type (record (to_json m) { roles = without m.roles role })
    else m
