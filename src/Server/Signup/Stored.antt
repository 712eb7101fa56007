-- ===== src/Server/Signup/Stored.antt =====
-- signup-service.ts: the member that a sign-up makes, and what the two tables hold once it is there.
use Prim.Native.String.{◌++◌ as text_append}
use workspace_os.Base.{
  String, Bool, true, false, ◌||◌, List, ◌∷◌, [], none, some, ok, ◌≡◌, refl, arith, inl, inr, ◌==◌,
  eq_iff, eq_refl, Bool-cases,
}
use workspace_os.Base.Text.{is_blank, is_blank-append, is_white}
use workspace_os.Base.Sets.{has}
use workspace_os.Core.Member.{Member, MemberProps, human}
use workspace_os.Core.Member.Laws.{IsValid}
use workspace_os.Adapters.Members.{is_taken, upsert}
use workspace_os.Adapters.HumanCredentials
use workspace_os.Adapters.HumanCredentials.{
  HumanCredentialRecord, CredentialSaveError, is_in_use, find_by_email,
}
use workspace_os.Server.Signup.{ids}

-- The member that a sign-up makes.
abbrev pub new_member : String → String → String → Member
new_member id email display_name = record {
  id = text_append "m_" id;
  type = human;
  identity_ref = text_append "local|" email;
  display_name = display_name;
  roles = [];
}

pub id_not_blank : (id : String) → is_blank (text_append "m_" id) ≡ false
unfolding is_white
id_not_blank id = is_blank-append _ _ id refl

pub identity_not_blank : (email : String) → is_blank (text_append "local|" email) ≡ false
unfolding is_white
identity_not_blank email = is_blank-append _ _ email refl

pub new_member-IsValid :
    (id email display_name : String)
    → is_blank display_name ≡ false
    → IsValid (new_member id email display_name)
new_member-IsValid id email display_name h = record {
  id = id_not_blank id;
  identity_ref = identity_not_blank email;
  display_name = h;
  roles = tt;
}

pub ids-upsert :
    (p : MemberProps) (rows : List MemberProps) (id : String)
    → has (ids (upsert p rows)) id ≡ (has (ids rows) id || p.id == id)
unfolding upsert has
ids-upsert p [] id = ground arith
ids-upsert p (row ∷ rows) id =
    ground (arith, ids-upsert p rows id, eq_iff row.id p.id, eq_iff row.id id, eq_iff p.id id)

pub email_in_use :
    (new : HumanCredentialRecord) (rows : List HumanCredentialRecord)
    → is_in_use new rows ≡ false
    → find_by_email new.email rows ≡ none
unfolding is_in_use find_by_email
email_in_use new [] h = refl
email_in_use new (row ∷ rows) h = ground (arith, h, email_in_use new rows)

pub or_true : (b : Bool) → (b || true) ≡ true
or_true b = ground arith

pub taken-upsert :
    (p : MemberProps) (rows : List MemberProps) (id : String)
    → (p.id == id) ≡ false
    → is_taken id p.identity_ref (upsert p rows) ≡ true
unfolding upsert
taken-upsert p [] id h = ground (arith, h, eq_refl p.identity_ref)
taken-upsert p (row ∷ rows) id h =
    ground (arith, h, eq_refl p.identity_ref, taken-upsert p rows id h)

pub credential_saved :
    (p : MemberProps) (rows : List MemberProps) (c : HumanCredentialRecord)
    (credentials : List HumanCredentialRecord)
    → is_in_use c credentials ≡ false
    → p.id ≡ c.member_id
    → HumanCredentials.save (ids (upsert p rows)) c credentials ≡ ok (c ∷ credentials)
unfolding HumanCredentials.save
credential_saved p rows c credentials unused same = rw (
  unused,
  ids-upsert p rows c.member_id,
  (eq_iff p.id c.member_id).1 same,
  or_true (has (ids rows) c.member_id),
)

pub same_row : (a b : HumanCredentialRecord) → some a ≡ some b → a ≡ b
same_row a b h = cc h

pub other_member :
    (new : HumanCredentialRecord) (rows : List HumanCredentialRecord) (email : String)
    (found : HumanCredentialRecord)
    → is_in_use new rows ≡ false
    → find_by_email email rows ≡ some found
    → (new.member_id == found.member_id) ≡ false
unfolding is_in_use find_by_email
other_member new [] email found h e = cc e
other_member new (row ∷ rows) email found h e = elim (Bool-cases (row.email == email)) [
  | inl same ↦
      rw (← same_row row found (rw (same, find_by_email) at e))
        (ground (arith, h, eq_iff row.member_id new.member_id, eq_iff new.member_id row.member_id))
  | inr apart ↦
      other_member new rows email found (ground (arith, h)) (rw (apart, find_by_email) at e)
]
