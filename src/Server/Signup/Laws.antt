-- ===== src/Server/Signup/Laws.antt =====
-- signup-service.ts: what a sign-up stores, who may log in after it, and two sign-ups at once.
use Prim.Native.String.{◌++◌ as text_append}
use workspace_os.Base.{
  String, Bool, false, ◌∷◌, Option, none, some, Result, ok, err, ◌≡◌, refl, inl, inr, if◌then◌else◌,
  ◌==◌, eq_refl, Bool-cases, Option-cases,
}
use workspace_os.Base.Text.{is_blank}
use workspace_os.Core.Member
use workspace_os.Core.Member.{Member, MemberProps, InvalidMemberError, human, to_json}
use workspace_os.Core.Member.Laws.{member_round_trip}
use workspace_os.Adapters.Members
use workspace_os.Adapters.Members.{
  UniqueViolation, identity_taken, is_taken, upsert, find_by_id-upsert,
}
use workspace_os.Adapters.HumanCredentials.{HumanCredentialRecord, is_in_use, find_by_email}
use workspace_os.Server.Signup.{
  SignupInput, Accounts, member_error, normalize_email, member_props, credential_for,
  save_credential, signup_checked, signup, authenticate_password,
}
use workspace_os.Server.Signup.Stored.{
  new_member, new_member-IsValid, email_in_use, taken-upsert, credential_saved, other_member,
}

module _ (to_lower : String → String) where
  pub created :
      (id email display_name : String)
      → is_blank display_name ≡ false
      → Member.create (member_props to_lower id email display_name)
        ≡ ok (new_member id email display_name)
  unfolding to_json
  created id email display_name h =
      member_round_trip (new_member id email display_name)
        (new_member-IsValid id email display_name h)

  -- What a log-in with an e-mail and a password answers once the sign-up is stored.
  abbrev pub login_after :
      (String → String → Bool)
      → Member
      → String
      → String
      → String
      → String
      → Accounts
      → Result InvalidMemberError (Option Member)
  login_after verify_password m email hash other password s =
      if email == normalize_email to_lower other
      then (if verify_password password hash then ok (some m) else ok none)
      else authenticate_password to_lower verify_password other password s

  abbrev pub member_for : String → SignupInput → Member
  member_for id input = new_member id (normalize_email to_lower input.email) input.display_name

  abbrev pub new_credential : String → String → SignupInput → HumanCredentialRecord
  new_credential id hash input =
      credential_for to_lower (member_for id input) (normalize_email to_lower input.email) hash

  -- Nothing stands in the way of the sign-up.
  pub record IsFree (id hash : String) (input : SignupInput) (s : Accounts) : Type 0 where
    pub named : is_blank input.display_name ≡ false
    pub identity :
        is_taken (member_for id input).id (member_for id input).identity_ref s.members ≡ false
    pub unused : is_in_use (new_credential id hash input) s.credentials ≡ false

  -- The tables once the sign-up is stored.
  abbrev pub stored : String → String → SignupInput → Accounts → Accounts
  stored id hash input s = record {
    members = upsert (to_json (member_for id input)) s.members;
    credentials = new_credential id hash input ∷ s.credentials;
  }

  saved :
      (id hash : String) (input : SignupInput) (s : Accounts)
      → IsFree id hash input s
      → signup_checked to_lower id hash input (normalize_email to_lower input.email) s
        ≡ (ok (member_for id input), stored id hash input s)
  unfolding signup_checked save_credential Members.save to_json
  saved id hash input s free =
      let m = member_for id input in
      let email = normalize_email to_lower input.email in
      rw (created id email input.display_name free.named, signup_checked)
        (rw (free.identity, signup_checked)
          (rw (
            credential_saved (to_json m) s.members (new_credential id hash input) s.credentials
                free.unused refl,
            save_credential,
          )))

  logs_in :
      (id hash : String) (input : SignupInput) (s : Accounts)
      → IsFree id hash input s
      → (verify_password : String → String → Bool) (other password : String)
      → authenticate_password to_lower verify_password other password (stored id hash input s)
        ≡ login_after verify_password
            (member_for id input)
            (normalize_email to_lower input.email)
            hash
            other
            password
            s
  unfolding authenticate_password find_by_email
  logs_in id hash input s free verify_password other password =
      let m = member_for id input in
      let valid =
        new_member-IsValid id (normalize_email to_lower input.email) input.display_name
          free.named in
      elim (Bool-cases (normalize_email to_lower input.email == normalize_email to_lower other)) [
        | inl same ↦
            rw (same, authenticate_password)
              (rw (find_by_id-upsert m s.members m.id valid, eq_refl m.id))
        | inr apart ↦
            elim (Option-cases (find_by_email (normalize_email to_lower other) s.credentials)) [
              | inl missing ↦ rw (apart, missing, authenticate_password)
              | inr (found, e) ↦
                  rw (apart, e, authenticate_password)
                    (rw (
                      find_by_id-upsert m s.members found.member_id valid,
                      other_member (new_credential id hash input) s.credentials _ found free.unused
                          e,
                    ))
            ]
      ]

  -- A sign-up with an e-mail that is free once normalised, a display name that is not blank, an id
  -- that no credential has and an identity that no other id has returns a human member without
  -- roles. After it the e-mail, in every spelling that is normalised alike, logs in with exactly
  -- the passwords that the stored hash accepts, and every other e-mail logs in as before.
  pub signup_result :
      (id hash : String) (input : SignupInput) (s : Accounts)
      → IsFree id hash input s
      → (signup to_lower id hash input s ≡ (ok (member_for id input), stored id hash input s))
        × ((verify_password : String → String → Bool) (other password : String)
            → authenticate_password to_lower verify_password other password (stored id hash input s)
              ≡ login_after verify_password
                  (member_for id input)
                  (normalize_email to_lower input.email)
                  hash
                  other
                  password
                  s)
  unfolding signup
  signup_result id hash input s free = (
    rw (email_in_use (new_credential id hash input) s.credentials free.unused, signup)
        (saved id hash input s free),
    logs_in id hash input s free,
  )

  -- Of two sign-ups for one e-mail that both found it free, the first one as `signup_result` asks,
  -- the later one with another id and a display name that is not blank: the one that saves later
  -- throws the unique violation of the member's identity, and not that the e-mail is registered;
  -- it stores nothing.
  pub late_signup_violates_identity :
      (id hash later_id later_hash : String) (input later : SignupInput) (s : Accounts)
      → IsFree id hash input s
      → normalize_email to_lower later.email ≡ normalize_email to_lower input.email
      → is_blank later.display_name ≡ false
      → (text_append "m_" id == text_append "m_" later_id) ≡ false
      → signup_checked to_lower later_id later_hash later
          (normalize_email to_lower later.email)
          (signup to_lower id hash input s).1
        ≡ (
          err (
              member_error
                (identity_taken (text_append "local|" (normalize_email to_lower input.email)))),
          (signup to_lower id hash input s).1,
        )
  unfolding signup_checked Members.save to_json
  late_signup_violates_identity id hash later_id later_hash input later s free same named apart =
      rw ((signup_result id hash input s free).0, same)
        (rw
          (
            created later_id (normalize_email to_lower input.email) later.display_name named,
            signup_checked,
          )
          (rw (
            taken-upsert (to_json (member_for id input)) s.members (text_append "m_" later_id)
              apart)))
