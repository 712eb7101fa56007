-- ===== src/Server/Auth.antt =====
-- apps/server/src/routes/auth.ts: sign-up, log-in and the acting member, over Server.Signup and
-- Server.Session. The clock, the random id, the hash and the codecs are handed in.
pub mod Laws
use workspace_os.Base.{
  ℕ, String, Bool, true, false, Option, none, some, Result, ok, err, if◌then◌else◌,
}
use workspace_os.Base.Text.{is_blank}
use workspace_os.Base.Number.{of_ℕ}
use workspace_os.Base.Date.{Date, time_plus, new_date}
use workspace_os.Core.Member.{Member, MemberProps, InvalidMemberError, to_json}
use workspace_os.Adapters.Members
use workspace_os.Adapters.HumanCredentials.{email_already_registered}
use workspace_os.Server.Session.{SessionClaims, SessionPayload, verify, issue, authenticate}
use workspace_os.Server.Signup.{
  Accounts, SignupInput, SignupError, credential_error, signup, authenticate_password,
}
use workspace_os.Server.WorkItems.{Json, text}

pub record SignupBody : Type 0 where
  pub email : Json
  pub password : Json
  pub display_name : Json

pub record LoginBody : Type 0 where
  pub email : Json
  pub password : Json

-- The message beside an error's name is left out.
pub data AuthBody : Type 0 where
  auth_error : String → AuthBody
  member_body : MemberProps → AuthBody
  session_body : MemberProps → String → AuthBody

pub record AuthReply : Type 0 where
  pub code : ℕ
  pub body : AuthBody

-- What a handler lets through to the framework.
pub data AuthThrown : Type 0 where
  signup_failed : SignupError → AuthThrown
  stored_member_invalid : InvalidMemberError → AuthThrown

abbrev pub session_ttl_ms : ℕ
session_ttl_ms = 3600000

-- the text of a field, if `isNonEmptyString` holds of it
abbrev pub non_empty_text : Json → Option String
non_empty_text (text t) = if is_blank t then none else some t
non_empty_text _ = none

abbrev pub auth_failure : ℕ → String → AuthReply
auth_failure code error = record { code = code; body = auth_error error }

abbrev pub member_reply : ℕ → Member → AuthReply
member_reply code member = record { code = code; body = member_body (to_json member) }

-- the three fields, if each is a text that is not blank
unfoldable pub signup_input : SignupBody → Option SignupInput
signup_input body = elim (non_empty_text body.email) [
  | none ↦ none
  | some email ↦ elim (non_empty_text body.password) [
    | none ↦ none
    | some password ↦ elim (non_empty_text body.display_name) [
      | none ↦ none
      | some display_name ↦
          some (record { email = email; password = password; display_name = display_name })
    ]
  ]
]

-- only `EmailAlreadyRegisteredError` is answered with 409
abbrev pub signup_reply : Result SignupError Member → Result AuthThrown AuthReply
signup_reply (ok member) = ok (member_reply 201 member)
signup_reply (err (credential_error (email_already_registered email))) =
    ok (auth_failure 409 "email-taken")
signup_reply (err e) = err (signup_failed e)

-- `new Date(now().getTime() + SESSION_TTL_MS)`
abbrev pub session_expiry : Date → Date
session_expiry now = new_date (time_plus now (of_ℕ session_ttl_ms))

abbrev pub login_reply :
    (String → Date → String)
    → Date
    → Result InvalidMemberError (Option Member)
    → Result AuthThrown AuthReply
login_reply issue_token now (err e) = err (stored_member_invalid e)
login_reply issue_token now (ok none) = ok (auth_failure 401 "invalid-credentials")
login_reply issue_token now (ok (some member)) = ok (record {
  code = 200;
  body = session_body (to_json member) (issue_token member.id (session_expiry now));
})

module _ (to_lower : String → String) where
  -- `id` is the random id, and `hash_of` hashes with the random salt
  unfoldable pub signup_route :
      String → (String → String) → SignupBody → Accounts → Result AuthThrown AuthReply × Accounts
  signup_route id hash_of body s = elim (signup_input body) [
    | none ↦ (ok (auth_failure 400 "invalid-signup"), s)
    | some input ↦
        let out = signup to_lower id (hash_of input.password) input s in (signup_reply out.0, out.1)
  ]

  -- the texts of the two fields, or the refusal
  unfoldable pub login_route :
      (String → String → Bool)
      → (String → Date → String)
      → Date
      → LoginBody
      → Accounts
      → Result AuthThrown AuthReply
  login_route verify_password issue_token now body s = elim (non_empty_text body.email) [
    | none ↦ ok (auth_failure 400 "invalid-login")
    | some email ↦ elim (non_empty_text body.password) [
      | none ↦ ok (auth_failure 400 "invalid-login")
      | some password ↦
          login_reply issue_token now
            (authenticate_password to_lower verify_password email password s)
    ]
  ]

abbrev pub me_reply : Result InvalidMemberError (Option Member) → Result AuthThrown AuthReply
me_reply (err e) = err (stored_member_invalid e)
me_reply (ok none) = ok (auth_failure 401 "unauthenticated")
me_reply (ok (some member)) = ok (member_reply 200 member)

-- `header` is the `authorization` header, if the request has one
unfoldable pub me_route :
    (String → Date → Option SessionClaims)
    → Date
    → Option String
    → Accounts
    → Result AuthThrown AuthReply
me_route verify_token now header s =
    me_reply (authenticate verify_token (λ id. Members.find_by_id id s.members) header now)
