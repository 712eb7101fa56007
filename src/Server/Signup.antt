-- ===== src/Server/Signup.antt =====
-- apps/server/src/auth/signup-service.ts, over the repositories of members and of human credentials.
-- A step that throws leaves what the steps before it saved. Lower-casing, the random id and the hash
-- are handed in; `verify_password` is that of Server.Password.
pub mod Stored
pub mod Laws
use Prim.Native.String.{◌++◌ as text_append}
use workspace_os.Base.{
  String, Bool, true, false, not, List, ◌∷◌, [], Option, none, some, Result, ok, err, ◌>>=◌,
  map_err, map, if◌then◌else◌,
}
use workspace_os.Base.Text.{trim}
use workspace_os.Core.Member
use workspace_os.Core.Member.{Member, MemberProps, InvalidMemberError}
use workspace_os.Adapters.Members
use workspace_os.Adapters.Members.{UniqueViolation}
use workspace_os.Adapters.HumanCredentials
use workspace_os.Adapters.HumanCredentials.{
  HumanCredentialRecord, CredentialSaveError, email_already_registered, find_by_email,
}

pub record SignupInput : Type 0 where
  pub email : String
  pub password : String
  pub display_name : String

-- The two tables.
pub record Accounts : Type 0 where
  pub members : List MemberProps
  pub credentials : List HumanCredentialRecord

pub data SignupError : Type 0 where
  credential_error : CredentialSaveError → SignupError
  invalid_member : InvalidMemberError → SignupError
  member_error : UniqueViolation → SignupError

abbrev pub ids : List MemberProps → List String
ids [] = []
ids (row ∷ rows) = row.id ∷ ids rows

module _ (to_lower : String → String) where
  unfoldable pub normalize_email : String → String
  normalize_email email = to_lower (trim email)

  -- the props of the new member, under the id that was drawn
  abbrev pub member_props : String → String → String → MemberProps
  member_props id email display_name = record {
    id = text_append "m_" id;
    type = "human";
    identity_ref = text_append "local|" email;
    display_name = display_name;
    roles = [];
  }

  abbrev pub credential_for : Member → String → String → HumanCredentialRecord
  credential_for member email hash = record {
    member_id = member.id;
    email = email;
    password_hash = hash;
  }

  -- the last step: the credential of a member who was saved
  unfoldable pub save_credential :
      Member → String → String → Accounts → Result SignupError Member × Accounts
  save_credential member email hash s =
      elim (HumanCredentials.save (ids s.members) (credential_for member email hash)
        s.credentials) [
          | err e ↦ (err (credential_error e), s)
          | ok credentials ↦ (ok member, record s { credentials = credentials })
        ]

  -- what follows the check that the e-mail is free, for an e-mail that is normalised
  unfoldable pub signup_checked :
      String → String → SignupInput → String → Accounts → Result SignupError Member × Accounts
  signup_checked id hash input email s =
      elim (Member.create (member_props id email input.display_name)) [
        | err e ↦ (err (invalid_member e), s)
        | ok member ↦ elim (Members.save member s.members) [
          | err e ↦ (err (member_error e), s)
          | ok members ↦ save_credential member email hash (record s { members = members })
        ]
      ]

  unfoldable pub signup :
      String → String → SignupInput → Accounts → Result SignupError Member × Accounts
  signup id hash input s =
      let email = normalize_email input.email in
      elim (find_by_email email s.credentials) [
        | some taken ↦ (err (credential_error (email_already_registered email)), s)
        | none ↦ signup_checked id hash input email s
      ]

  unfoldable pub authenticate_password :
      (String → String → Bool)
      → String
      → String
      → Accounts
      → Result InvalidMemberError (Option Member)
  authenticate_password verify_password email password s =
      elim (find_by_email (normalize_email email) s.credentials) [
        | none ↦ ok none
        | some found ↦
            let member = Members.find_by_id found.member_id s.members in
            if verify_password password found.password_hash then member else ok none
      ]
