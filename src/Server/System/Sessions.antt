-- ===== src/Server/System/Sessions.antt =====
-- auth/require-member.ts and routes/auth.ts on sound tables: a log-in, the acting member and `/me`
-- answer.
use workspace_os.Base.{
  String, Bool, true, Option, none, some, ok, ◌≡◌, ◌⊎◌, refl, inl, inr, Bool-cases, Option-cases,
}
use workspace_os.Base.Sets.{has}
use workspace_os.Base.Date.{Date}
use workspace_os.Core.Member.{Member}
use workspace_os.Adapters.Members
use workspace_os.Adapters.Members.{UniqueViolation, identity_taken, upsert}
use workspace_os.Adapters.HumanCredentials.{find_by_email}
use workspace_os.Server.Session.{SessionClaims, bearer_token, authenticate}
use workspace_os.Server.Signup.{Accounts, ids, normalize_email, authenticate_password}
use workspace_os.Server.Auth.{
  LoginBody, AuthReply, auth_failure, member_reply, non_empty_text, login_reply, login_route,
  me_route,
}
use workspace_os.Server.System.Stored.{IsSoundAccounts, member_at}

module _ (to_lower : String → String) (verify_password : String → String → Bool)
    (issue_token : String → Date → String) where
  authenticate_answers :
      (email password : String) (s : Accounts)
      → IsSoundAccounts s
      → (o : Option Member) × (authenticate_password to_lower verify_password email password s
          ≡ ok o)
  unfolding authenticate_password
  authenticate_answers email password s h =
      elim (Option-cases (find_by_email (normalize_email to_lower email) s.credentials)) [
        | inl missing ↦ (none, rw (missing, authenticate_password))
        | inr (found, e) ↦ elim (Bool-cases (verify_password password found.password_hash)) [
          | inr wrong ↦ (none, rw (e, authenticate_password) (rw wrong))
          | inl right ↦ elim (member_at found.member_id s.members h.readable) [
            | inl gone ↦ (none, rw (e, authenticate_password) (rw (right, gone)))
            | inr (m, there, known) ↦ (some m, rw (e, authenticate_password) (rw (right, there)))
          ]
        ]
      ]

  login_replies :
      (now : Date) (o : Option Member)
      → (reply : AuthReply) × (login_reply issue_token now (ok o) ≡ ok reply)
  login_replies now none = (_, refl)
  login_replies now (some m) = (_, refl)

  pub login_route_answers :
      (now : Date) (body : LoginBody) (s : Accounts)
      → IsSoundAccounts s
      → (reply : AuthReply) × (login_route to_lower verify_password issue_token now body s
          ≡ ok reply)
  unfolding login_route
  login_route_answers now body s h = elim (Option-cases (non_empty_text body.email)) [
    | inl no_email ↦ (auth_failure 400 "invalid-login", rw (no_email, login_route))
    | inr (email, e) ↦ elim (Option-cases (non_empty_text body.password)) [
      | inl no_password ↦ (auth_failure 400 "invalid-login", rw (e, login_route) (rw no_password))
      | inr (password, p) ↦
          let (o, found) = authenticate_answers email password s h in
          let (reply, replied) = login_replies now o in
          (reply, rw (e, login_route) (rw p (rw found replied)))
    ]
  ]

-- The acting member of a request, if the look-up does not throw: nobody, or one of the members.
pub acting_ends :
    (verify_token : String → Date → Option SessionClaims) (header : Option String) (now : Date)
    (s : Accounts)
    → IsSoundAccounts s
    → (let acting = authenticate verify_token (λ id. Members.find_by_id id s.members) header now in
        (acting ≡ ok none)
        ⊎ ((m : Member) × (acting ≡ ok (some m)) × (has (ids s.members) m.id ≡ true)))
unfolding authenticate
acting_ends verify_token header now s h = elim (Option-cases (bearer_token header)) [
  | inl no_token ↦ inl (rw (no_token, authenticate))
  | inr (token, e) ↦ elim (Option-cases (verify_token token now)) [
    | inl refused ↦ inl (rw (e, authenticate) (rw refused))
    | inr (claims, c) ↦ elim (member_at claims.member_id s.members h.readable) [
      | inl gone ↦ inl (rw (e, authenticate) (rw (c, gone)))
      | inr (m, there, known) ↦ inr (m, rw (e, authenticate) (rw (c, there)), known)
    ]
  ]
]

pub me_route_answers :
    (verify_token : String → Date → Option SessionClaims) (now : Date) (header : Option String)
    (s : Accounts)
    → IsSoundAccounts s
    → (reply : AuthReply) × (me_route verify_token now header s ≡ ok reply)
unfolding me_route
me_route_answers verify_token now header s h = elim (acting_ends verify_token header now s h) [
  | inl nobody ↦ (auth_failure 401 "unauthenticated", rw nobody)
  | inr (m, e, known) ↦ (member_reply 200 m, rw e)
]
