-- ===== src/Server/Members/Laws.antt =====
-- routes/members.ts: what the creation of a member leaves to read.
use workspace_os.Base.{
  refl, arith, Bool, ◌&&◌, none, String, true, false, List, some, Result, ok, err, ◌≡◌, inl, inr,
  if◌then◌else◌, ◌==◌, Bool-cases,
}
use workspace_os.Core.Member.{Member, MemberProps, create}
use workspace_os.Server.Members.{
  roles_of, Field, text, texts, absent, other, unprintable, as_string, not_a_string, create_typed,
  unknown_type, CreateMemberBody, MemberReply, MemberThrown, type_text, body_props, answer,
  create_member, get_member,
}

-- `String` converts the field.
abbrev pub is_printable : Field → Bool
is_printable unprintable = false
is_printable _ = true

-- `String` converts the fields that the handler and `Member.create` hand to it.
abbrev pub converts : CreateMemberBody → Bool
converts body =
    is_printable body.id
    && is_printable body.identity_ref
    && is_printable body.display_name
    && is_printable body.type

-- The member that a body describes.
pub record Describes (body : CreateMemberBody) (m : Member) : Type 0 where
  pub type : String
  pub props : String → MemberProps
  pub typed : type_text body.type ≡ some type
  pub printed : body_props body ≡ ok props
  pub built : create (props type) ≡ ok m

-- What a read of an id answers after a member was written.
abbrev pub read_after : Member → List MemberProps → String → Result MemberThrown MemberReply
read_after m rows id = if m.id == id then ok (answer 200 m) else get_member id rows

pub string_ok : (f : Field) → is_printable f ≡ true → (t : String) × (as_string f ≡ ok t)
unfolding as_string
string_ok (text t) h = (t, refl)
string_ok (texts items shown) h = (shown, refl)
string_ok absent h = ("undefined", refl)
string_ok (other shown) h = (shown, refl)
string_ok unprintable h = cc h

string_err : (f : Field) → is_printable f ≡ false → as_string f ≡ err not_a_string
unfolding as_string
string_err (text t) h = cc h
string_err (texts items shown) h = cc h
string_err absent h = cc h
string_err (other shown) h = cc h
string_err unprintable h = refl

untyped_unprintable : (f : Field) → is_printable f ≡ false → type_text f ≡ none
untyped_unprintable (text t) h = cc h
untyped_unprintable (texts items shown) h = refl
untyped_unprintable absent h = refl
untyped_unprintable (other shown) h = refl
untyped_unprintable unprintable h = refl

-- A type that `String` does not convert.
unprintable_type :
    (type : Field) (props : String → MemberProps) (rows : List MemberProps)
    → is_printable type ≡ false
    → create_typed type props rows ≡ (err not_a_string, rows)
unfolding create_typed unknown_type
unprintable_type type props rows h =
    rw (untyped_unprintable type h, create_typed) (rw (string_err type h))

pub not_converted :
    (body : CreateMemberBody) (rows : List MemberProps)
    → converts body ≡ false
    → create_member body rows ≡ (err not_a_string, rows)
unfolding create_member body_props
not_converted body rows h = elim (Bool-cases (is_printable body.id)) [
  | inr fails ↦ rw (string_err body.id fails, create_member)
  | inl id ↦
      let (i, ei) = string_ok body.id id in
      elim (Bool-cases (is_printable body.identity_ref)) [
        | inr fails ↦ rw (ei, string_err body.identity_ref fails, create_member)
        | inl identity ↦
            let (r, er) = string_ok body.identity_ref identity in
            elim (Bool-cases (is_printable body.display_name)) [
              | inr fails ↦ rw (ei, er, string_err body.display_name fails, create_member)
              | inl name ↦
                  let (n, en) = string_ok body.display_name name in
                  rw (ei, er, en, create_member)
                    (unprintable_type body.type _ rows (ground (arith, h, id, identity, name)))
            ]
      ]
]

pub props_of_converts :
    (body : CreateMemberBody)
    → converts body ≡ true
    → (props : String → MemberProps) × (body_props body ≡ ok props)
unfolding body_props
props_of_converts body h =
    let (i, ei) = string_ok body.id (ground (arith, h)) in
    let (r, er) = string_ok body.identity_ref (ground (arith, h)) in
    let (n, en) = string_ok body.display_name (ground (arith, h)) in
    (
      λ type. record {
        id = i;
        type = type;
        identity_ref = r;
        display_name = n;
        roles = roles_of body.roles;
      },
      rw (ei, er, en, body_props) refl,
    )
