-- ===== src/Server/System/Signups.antt =====
-- The sign-up of routes/auth.ts on sound tables: it answers but for a member whose identity is
-- taken, and keeps them sound.
use workspace_os.Base.{
  String, true, false, List, some, Result, ok, err, ◌≡◌, ◌⊎◌, refl, arith, inl, inr, eq_refl,
  Bool-cases, Option-cases,
}
use workspace_os.Base.Text.{is_blank}
use workspace_os.Base.Sets.{has}
use workspace_os.Core.Member.{Member, MemberProps, to_json}
use workspace_os.Core.Member.Laws.{IsValid}
use workspace_os.Adapters.Members.{UniqueViolation, upsert}
use workspace_os.Adapters.HumanCredentials
use workspace_os.Adapters.HumanCredentials.{
  HumanCredentialRecord, email_already_registered, is_in_use, find_by_email,
}
use workspace_os.Server.Signup.{
  Accounts, SignupInput, SignupError, member_error, ids, normalize_email, credential_for,
  save_credential, signup_checked, signup,
}
use workspace_os.Server.Signup.Stored.{new_member, new_member-IsValid, ids-upsert}
use workspace_os.Server.Signup.Laws.{created}
use workspace_os.Server.Auth.{
  SignupBody, AuthReply, AuthThrown, signup_failed, non_empty_text, signup_input, signup_reply,
  signup_route,
}
use workspace_os.Server.WorkItems.{Json, text, number, absent_or_other}
use workspace_os.Server.System.Stored.{IsSoundAccounts, ids-grow}
use workspace_os.Server.System.Identity.{Grows, with_member, upsert-IsSound, save_ends}

written_known :
    (m : Member) (rows : List MemberProps) → has (ids (upsert (to_json m) rows)) m.id ≡ true
unfolding to_json
written_known m rows = ground (arith, ids-upsert (to_json m) rows m.id, eq_refl m.id)

-- The end of `POST /signup`: a reply or an identity that is taken.
pub record SignupEnd (s : Accounts) (out : Result AuthThrown AuthReply × Accounts) : Type 0 where
  pub ends :
      ((reply : AuthReply) × (out.0 ≡ ok reply))
      ⊎ ((v : UniqueViolation) × (out.0 ≡ err (signup_failed (member_error v))))
  pub sound : IsSoundAccounts out.1
  pub grows : Grows s.members out.1.members

-- A sign-up as its route answers it.
abbrev pub answered : Result SignupError Member × Accounts → Result AuthThrown AuthReply × Accounts
answered out = (signup_reply out.0, out.1)

not_blank : (j : Json) (t : String) → non_empty_text j ≡ some t → is_blank t ≡ false
not_blank (text u) t h = ground (arith, h)
not_blank (number n) t h = cc h
not_blank absent_or_other t h = cc h

name_of :
    (input other : SignupInput) → some other ≡ some input → other.display_name ≡ input.display_name
name_of input other h = cc h

input_named :
    (body : SignupBody) (input : SignupInput)
    → signup_input body ≡ some input
    → is_blank input.display_name ≡ false
unfolding signup_input
input_named body input h = elim (Option-cases (non_empty_text body.email)) [
  | inl no_email ↦ cc (rw (no_email, signup_input) at h)
  | inr (email, e) ↦ elim (Option-cases (non_empty_text body.password)) [
    | inl no_password ↦ cc (rw no_password at (rw (e, signup_input) at h))
    | inr (password, p) ↦ elim (Option-cases (non_empty_text body.display_name)) [
      | inl no_name ↦ cc (rw no_name at (rw p at (rw (e, signup_input) at h)))
      | inr (name, n) ↦
          let same = name_of input _ (rw n at (rw p at (rw (e, signup_input) at h))) in
          rw⁻¹ same (not_blank body.display_name name n)
    ]
  ]
]

module _ (to_lower : String → String) where
  save_credential-SignupEnd :
      (m : Member) (email hash : String) (s : Accounts)
      → IsValid m
      → IsSoundAccounts s
      → SignupEnd s (answered (save_credential to_lower m email hash (with_member m s)))
  unfolding save_credential HumanCredentials.save
  save_credential-SignupEnd m email hash s v h =
      let c = credential_for to_lower m email hash in
      let known = written_known m s.members in
      let sound = upsert-IsSound m s v h in
      elim (Bool-cases (is_in_use c s.credentials)) [
        | inl used ↦
            rw (used, save_credential)
              (record {
                ends = inl (_, refl);
                sound = sound;
                grows = ids-grow (to_json m) s.members;
              })
        | inr unused ↦
            rw (unused, known, save_credential)
              (record {
                ends = inl (_, refl);
                sound = record { readable = sound.readable; owned = (known, sound.owned) };
                grows = ids-grow (to_json m) s.members;
              })
      ]

  signup_checked-SignupEnd :
      (id hash email : String) (input : SignupInput) (s : Accounts)
      → is_blank input.display_name ≡ false
      → IsSoundAccounts s
      → SignupEnd s (answered (signup_checked to_lower id hash input email s))
  unfolding signup_checked
  signup_checked-SignupEnd id hash email input s named h =
      let m = new_member id email input.display_name in
      elim (save_ends m s.members) [
        | inr (violation, e) ↦
            rw (created to_lower id email input.display_name named, signup_checked)
              (rw e (record { ends = inr (violation, refl); sound = h; grows = λ i there. there }))
        | inl e ↦
            rw (created to_lower id email input.display_name named, signup_checked)
              (rw e (
                save_credential-SignupEnd m email hash s
                  (new_member-IsValid id email input.display_name named) h))
      ]

  signup_stays : (s : Accounts) (reply : AuthReply) → IsSoundAccounts s → SignupEnd s (ok reply, s)
  signup_stays s reply h = record { ends = inl (reply, refl); sound = h; grows = λ i there. there }

  signup-SignupEnd :
      (id hash : String) (input : SignupInput) (s : Accounts)
      → is_blank input.display_name ≡ false
      → IsSoundAccounts s
      → SignupEnd s (answered (signup to_lower id hash input s))
  unfolding signup
  signup-SignupEnd id hash input s named h =
      let email = normalize_email to_lower input.email in
      elim (Option-cases (find_by_email email s.credentials)) [
        | inr (taken, e) ↦ rw (e, signup) (signup_stays s _ h)
        | inl free ↦ rw (free, signup) (signup_checked-SignupEnd id hash email input s named h)
      ]

  pub signup_route-SignupEnd :
      (id : String) (hash_of : String → String) (body : SignupBody) (s : Accounts)
      → IsSoundAccounts s
      → SignupEnd s (signup_route to_lower id hash_of body s)
  unfolding signup_route
  signup_route-SignupEnd id hash_of body s h = elim (Option-cases (signup_input body)) [
    | inl missing ↦ rw (missing, signup_route) (signup_stays s _ h)
    | inr (input, given) ↦
        rw (given, signup_route)
          (signup-SignupEnd id (hash_of input.password) input s (input_named body input given) h)
  ]
