-- ===== src/Adapters/HumanCredentials.antt =====
-- packages/adapters/src/repository/drizzle-human-credential-repository.ts, on the table
-- `human_credentials` of db/schema.ts, whose key is the member's id and whose e-mail is unique.
use workspace_os.Base.{
  String, Bool, false, ◌||◌, List, ◌∷◌, [], Option, none, some, Result, ok, err, if◌then◌else◌,
  ◌==◌,
}
use workspace_os.Base.Sets.{has}

pub record HumanCredentialRecord : Type 0 where
  pub member_id : String
  pub email : String
  pub password_hash : String

-- `foreign_key` is what the database reports for a member that is not there; it is thrown on.
pub data CredentialSaveError : Type 0 where
  email_already_registered : String → CredentialSaveError
  foreign_key : String → CredentialSaveError

-- a row with the key or with the e-mail stands in the way of the insert
unfoldable pub is_in_use : HumanCredentialRecord → List HumanCredentialRecord → Bool
is_in_use new [] = false
is_in_use new (row ∷ rows) =
    row.member_id == new.member_id || row.email == new.email || is_in_use new rows

-- every violation of uniqueness is reported as the e-mail's; `members` are the ids of `members`
unfoldable pub save :
    List String
    → HumanCredentialRecord
    → List HumanCredentialRecord
    → Result CredentialSaveError (List HumanCredentialRecord)
save members new rows =
    if is_in_use new rows
    then err (email_already_registered new.email)
    else if has members new.member_id
    then ok (new ∷ rows)
    else err (foreign_key new.member_id)

-- `where email = $1 limit 1`
unfoldable pub find_by_email : String → List HumanCredentialRecord → Option HumanCredentialRecord
find_by_email email [] = none
find_by_email email (row ∷ rows) =
    let rest = find_by_email email rows in if row.email == email then some row else rest
