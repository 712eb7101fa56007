-- ===== src/Server/Members.antt =====
-- apps/server/src/routes/members.ts: a member is made or overwritten, and one is read. Neither
-- handler asks who calls.
pub mod Laws
use workspace_os.Base.{ℕ, String, List, [], ◌∷◌, Option, none, some, Result, ok, err, ◌>>=◌}
use workspace_os.Core.Member.{Member, MemberProps, InvalidMemberError, to_json, create}
use workspace_os.Adapters.Members.{UniqueViolation, save, find_by_id}

-- A field of the body: a text, an array, no field, another value with what `String` makes of it, or
-- one that `String` throws a TypeError on, such as an object whose `toString` is null. The arrays are
-- those of texts.
pub data Field : Type 0 where
  text : String → Field
  texts : List String → String → Field
  absent : Field
  other : String → Field
  unprintable : Field

pub record CreateMemberBody : Type 0 where
  pub id : Field
  pub type : Field
  pub identity_ref : Field
  pub display_name : Field
  pub roles : Field

pub data MemberBody : Type 0 where
  member_error : String → MemberBody
  member_json : MemberProps → MemberBody

pub record MemberReply : Type 0 where
  pub code : ℕ
  pub body : MemberBody

pub data MemberThrown : Type 0 where
  not_saved : UniqueViolation → MemberThrown
  not_readable : InvalidMemberError → MemberThrown
  not_a_string : MemberThrown

-- `String(value)`
unfoldable pub as_string : Field → Result MemberThrown String
as_string (text t) = ok t
as_string (texts items shown) = ok shown
as_string absent = ok "undefined"
as_string (other shown) = ok shown
as_string unprintable = err not_a_string

-- `Array.isArray(value) ? value : []`
abbrev pub roles_of : Field → List String
roles_of (texts items shown) = items
roles_of _ = []

-- a type that is not a text is no member of the known types
abbrev pub type_text : Field → Option String
type_text (text t) = some t
type_text _ = none

-- the argument of `Member.create`, but for the type
unfoldable pub body_props : CreateMemberBody → Result MemberThrown (String → MemberProps)
body_props body = do
  id ← as_string body.id
  identity_ref ← as_string body.identity_ref
  display_name ← as_string body.display_name
  ok (λ type. record {
    id = id;
    type = type;
    identity_ref = identity_ref;
    display_name = display_name;
    roles = roles_of body.roles;
  })

abbrev pub invalid_member : MemberReply
invalid_member = record { code = 400; body = member_error "invalid-member" }

abbrev pub answer : ℕ → Member → MemberReply
answer code member = record { code = code; body = member_json (to_json member) }

-- the last steps: the member is saved, then sent
unfoldable pub save_and_send :
    Member → List MemberProps → Result MemberThrown MemberReply × List MemberProps
save_and_send member rows = elim (save member rows) [
  | err e ↦ (err (not_saved e), rows)
  | ok rows' ↦ (ok (answer 201 member), rows')
]

-- the message of the error for an unknown type has `String(props.type)`: a TypeError is thrown again
unfoldable pub unknown_type : Result MemberThrown String → Result MemberThrown MemberReply
unknown_type (ok shown) = ok invalid_member
unknown_type (err e) = err e

unfoldable pub create_typed :
    Field
    → (String → MemberProps)
    → List MemberProps
    → Result MemberThrown MemberReply × List MemberProps
create_typed type props rows = elim (type_text type) [
  | none ↦ (unknown_type (as_string type), rows)
  | some known ↦ elim (create (props known)) [
    | err e ↦ (ok invalid_member, rows)
    | ok member ↦ save_and_send member rows
  ]
]

unfoldable pub create_member :
    CreateMemberBody → List MemberProps → Result MemberThrown MemberReply × List MemberProps
create_member body rows = elim (body_props body) [
  | err e ↦ (err e, rows)
  | ok props ↦ create_typed body.type props rows
]

abbrev pub no_member : MemberReply
no_member = record { code = 404; body = member_error "not-found" }

abbrev pub found_reply : Result InvalidMemberError (Option Member) → Result MemberThrown MemberReply
found_reply (err e) = err (not_readable e)
found_reply (ok none) = ok no_member
found_reply (ok (some member)) = ok (answer 200 member)

unfoldable pub get_member : String → List MemberProps → Result MemberThrown MemberReply
get_member id rows = found_reply (find_by_id id rows)
