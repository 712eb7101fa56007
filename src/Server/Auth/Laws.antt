-- ===== src/Server/Auth/Laws.antt =====
-- routes/auth.ts: a log-in gives a session of one hour, and what a sign-up answers.
use Prim.Native.String.{◌++◌ as text_append}
use Prim.Native.String.append
use Prim.Native.Char.{code}
use workspace_os.Base.{
  String, Bool, true, Option, none, some, Result, ok, ◌≡◌, ◌≢◌, refl, sym, subst, ap, ◌∙◌, arith,
  if◌then◌else◌, ◌==◌, eqb_iff, eq_iff, List, [], ◌∷◌, Option-cases, Result-cases, inl, inr,
  Bool-cases,
}
use workspace_os.Base.Text.{trim}
use workspace_os.Base.Int.{ℤ}
use workspace_os.Base.Number.{of_ℤ}
use workspace_os.Base.Date.{Date, at}
use workspace_os.Core.Member.{Member, MemberProps, InvalidMemberError, to_json, create}
use workspace_os.Core.Member.Laws.{member_builds}
use workspace_os.Adapters.Members
use workspace_os.Adapters.Members.{first_where, to_member}
use workspace_os.Adapters.HumanCredentials.{find_by_email}
use workspace_os.Server.Session.{
  SessionPayload, split_dot, time_reaches, after_prefix, bearer_token, authenticate, verify, issue,
}
use workspace_os.Server.Session.Laws.{NoDot, split-append, session_round_trip}
use workspace_os.Server.Signup.{Accounts, authenticate_password, normalize_email}
use workspace_os.Server.WorkItems.{text}
use workspace_os.Server.Auth.{
  AuthReply, AuthThrown, session_body, auth_failure, member_reply, non_empty_text, session_expiry,
  login_route, me_route,
}

after_prefix-append : (p s : String) → after_prefix p (text_append p s) ≡ some s
unfolding after_prefix
after_prefix-append String.[] s = rw (append.nil s)
after_prefix-append (String.◌∷◌ c p) s =
    rw (append.cons c p s) (rw ((eqb_iff (code c) (code c)).1 refl, after_prefix-append p s))

bearer_lem :
    (token : String)
    → trim token ≡ token
    → token ≢ ""
    → bearer_token (some (text_append "Bearer " token)) ≡ some token
unfolding bearer_token
bearer_lem token clean present =
    rw (after_prefix-append "Bearer " token, bearer_token)
      (rw clean (ground (arith, eq_iff token "", present)))

same_member :
    (a b : Member)
    → ◌≡◌ {A = Result InvalidMemberError (Option Member)} (ok (some a)) (ok (some b))
    → a ≡ b
same_member a b h = cc h

no_parts : {p : String × String} → none ≡ some p → ⊥
no_parts h = cc h

first_where_test :
    (test : MemberProps → Bool) (row : MemberProps) (rows : List MemberProps)
    → first_where test rows ≡ some row
    → test row ≡ true
unfolding first_where
first_where_test test row [] h = cc h
first_where_test test row (r ∷ rows) h = ground (arith, h, first_where_test test row rows)

created_of :
    (row : MemberProps) (m : Member) → to_member (some row) ≡ ok (some m) → create row ≡ ok m
unfolding to_member
created_of row m h = elim (Result-cases (create row)) [
  | inl (n, e) ↦ e ∙ ap ok (same_member n m (rw (e, to_member) at h))
  | inr (x, e) ↦ cc (rw (e, to_member) at h)
]

-- A member that is found under an id has that id.
pub found_id :
    (id : String) (rows : List MemberProps) (m : Member)
    → Members.find_by_id id rows ≡ ok (some m)
    → m.id ≡ id
unfolding Members.find_by_id to_member
found_id id rows m h = elim (Option-cases (first_where (λ row. row.id == id) rows)) [
  | inl missing ↦ cc (rw (missing, to_member) at h)
  | inr (row, e) ↦
      let (valid, kind, same, identity, name, roles) =
        member_builds row m (created_of row m (rw (e, Members.find_by_id) at h)) in
      same ∙ (eq_iff row.id id).0 (first_where_test (λ r. r.id == id) row rows e)
]

-- What `/me` answers to the token of a session, before its end and from then on.
abbrev pub me_answer : Member → ℤ → Date → Result AuthThrown AuthReply
me_answer m z later =
    if time_reaches later (of_ℤ z)
    then ok (auth_failure 401 "unauthenticated")
    else ok (member_reply 200 m)

module _ (to_lower : String → String) (verify_password : String → String → Bool) where
  -- Who logs in is a member under the id that he has.
  logged_in_found :
      (email password : String) (s : Accounts) (m : Member)
      → authenticate_password to_lower verify_password email password s ≡ ok (some m)
      → Members.find_by_id m.id s.members ≡ ok (some m)
  unfolding authenticate_password
  logged_in_found email password s m h =
      elim (Option-cases (find_by_email (normalize_email to_lower email) s.credentials)) [
        | inl missing ↦ cc (rw (missing, authenticate_password) at h)
        | inr (found, e) ↦ elim (Bool-cases (verify_password password found.password_hash)) [
          | inr wrong ↦ cc (rw (wrong) at (rw (e, authenticate_password) at h))
          | inl right ↦
              let there : Members.find_by_id found.member_id s.members ≡ ok (some m) =
                rw (right) at (rw (e, authenticate_password) at h) in
              subst (λ i. Members.find_by_id i s.members ≡ ok (some m))
                (sym (found_id found.member_id s.members m there)) there
        ]
      ]

module _ (to_lower : String → String) (verify_password : String → String → Bool)
    (sign : String → String) (encode : String → Date → String)
    (decode : String → Option SessionPayload) where
  -- What the platform documents of the codecs, at a member's id and a time: the payload is not empty,
  -- has no dot and reads back, and the token has no white space around it.
  pub record IsCodec (member_id : String) (z : ℤ) : Type 0 where
    pub plain : NoDot (encode member_id (at z))
    pub present : encode member_id (at z) ≢ ""
    pub reads_back :
        decode (encode member_id (at z))
        ≡ some (record { sub = some member_id; exp = some (of_ℤ z) })
    pub clean : trim (issue sign encode member_id (at z)) ≡ issue sign encode member_id (at z)

  token_present :
      (member_id : String) (z : ℤ) → IsCodec member_id z → issue sign encode member_id (at z) ≢ ""
  unfolding issue split_dot
  token_present member_id z c h =
      let payload = encode member_id (at z) in
      no_parts (sym (ap split_dot h) ∙ split-append payload (sign payload) c.plain)

  -- With codecs of the session that do what the platform documents, and an expiry that is a valid
  -- date: who logs in with an e-mail and a password that are not blank and that authenticate a
  -- member gets 200 with the member and a token. With the token as its bearer `/me` answers that
  -- member until the expiry, one hour after the log-in, and 401 from then on.
  pub login_then_me :
      (email password : String) (now later : Date) (z : ℤ) (s : Accounts) (m : Member)
      → non_empty_text (text email) ≡ some email
      → non_empty_text (text password) ≡ some password
      → session_expiry now ≡ at z
      → IsCodec m.id z
      → authenticate_password to_lower verify_password email password s ≡ ok (some m)
      → (token : String) × (login_route to_lower verify_password
            (issue sign encode)
            now
            (record { email = text email; password = text password })
            s
          ≡ ok (record { code = 200; body = session_body (to_json m) token }))
        × (me_route (verify sign decode) later (some (text_append "Bearer " token)) s
            ≡ me_answer m z later)
  unfolding login_route me_route authenticate
  login_then_me email password now later z s m given secret expiry c h =
      let token = issue sign encode m.id (at z) in
      (
        token,
        rw (given, secret, login_route) (rw (h, expiry)),
        rw (bearer_lem token c.clean (token_present m.id z c), authenticate)
            (rw (session_round_trip sign decode encode m.id z later c.plain c.present c.reads_back)
              (elim (Bool-cases (time_reaches later (of_ℤ z))) [
                | inl over ↦ rw over refl
                | inr still ↦
                    rw still
                      (rw (logged_in_found to_lower verify_password email password s m h) refl)
              ])),
      )
