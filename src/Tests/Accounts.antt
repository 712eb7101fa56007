-- ===== src/Tests/Accounts.antt =====
-- Sign-up, log-in and the member routes of apps/server at concrete inputs.
use Prim.Native.String.{◌++◌ as text_append}
use workspace_os.Base.{
  String, Bool, [], ◌∷◌, Option, some, ok, err, ◌≡◌, ◌≢◌, refl, arith, ◌==◌, eq_iff,
}
use workspace_os.Base.Text.{is_blank, trim, is_white}
use workspace_os.Base.Int.{pos}
use workspace_os.Base.Number.{of_ℤ, truncate}
use workspace_os.Base.Date.{Date, at, new_date, time_plus}
use workspace_os.Base.Sets.{set_of}
use workspace_os.Core.Member.{Member, to_json, create, member_type}
use workspace_os.Adapters.Members
use workspace_os.Adapters.Members.{identity_taken, first_where, to_member}
use workspace_os.Adapters.HumanCredentials.{is_in_use, find_by_email}
use workspace_os.Server.Session.{SessionPayload, issue, verify}
use workspace_os.Server.Signup.{
  Accounts, SignupInput, member_error, normalize_email, signup, signup_checked,
  authenticate_password,
}
use workspace_os.Server.Signup.Laws.{
  IsFree, member_for, stored, login_after, signup_result, late_signup_violates_identity,
}
use workspace_os.Server.WorkItems.{text}
use workspace_os.Server.Auth.{session_body, login_route, me_route}
use workspace_os.Server.Auth.Laws.{IsCodec, me_answer, login_then_me}
use workspace_os.Server.Members as Route
use workspace_os.Server.Members.{CreateMemberBody, texts, absent}
use workspace_os.Tests.Samples.{ada}

abbrev lower : String → String
lower s = s

abbrev same_text : String → String → Bool
same_text password hash = password == hash

abbrev nobody : Accounts
nobody = record { members = []; credentials = [] }

abbrev grace : SignupInput
grace = record { email = " grace@x.org"; password = "pw"; display_name = "Grace" }

grace-IsFree : IsFree lower "1" "pw" grace nobody
unfolding is_blank is_in_use
grace-IsFree = record { named = refl; identity = refl; unused = refl }

signup_result_example :
    (signup lower "1" "pw" grace nobody
      ≡ (ok (member_for lower "1" grace), stored lower "1" "pw" grace nobody))
    × ((verify_password : String → String → Bool) (other password : String)
        → authenticate_password lower verify_password other password
            (stored lower "1" "pw" grace nobody)
          ≡ login_after lower verify_password
              (member_for lower "1" grace)
              (normalize_email lower grace.email)
              "pw"
              other
              password
              nobody)
signup_result_example = signup_result lower "1" "pw" grace nobody grace-IsFree

late_signup_violates_identity_example :
    signup_checked lower "2" "pw2" grace
      (normalize_email lower grace.email)
      (signup lower "1" "pw" grace nobody).1
    ≡ (
      err (
          member_error (identity_taken (text_append "local|" (normalize_email lower grace.email)))),
      (signup lower "1" "pw" grace nobody).1,
    )
unfolding is_blank
late_signup_violates_identity_example =
    late_signup_violates_identity lower "1" "pw" "2" "pw2" grace grace nobody grace-IsFree refl refl
      refl

-- Ada has a password.
abbrev accounts : Accounts
accounts = record {
  members = to_json ada ∷ [];
  credentials = record { member_id = "m_ada"; email = "ada@x.org"; password_hash = "pw" } ∷ [];
}

abbrev sign : String → String
sign payload = "s"

abbrev encode : String → Date → String
encode member_id expires_at = "p"

abbrev decode : String → Option SessionPayload
decode payload = some (record { sub = some "m_ada"; exp = some (of_ℤ (pos 3600100)) })

abbrev payload : String
payload = "p"

payload_there : payload ≢ ""
payload_there = ground (arith, eq_iff payload "")

codec : IsCodec lower same_text sign encode decode "m_ada" (pos 3600100)
unfolding issue trim is_white
codec = record { plain = (refl, tt); present = payload_there; reads_back = refl; clean = refl }

ada_logs_in : authenticate_password lower same_text "ada@x.org" "pw" accounts ≡ ok (some ada)
unfolding authenticate_password normalize_email trim is_white find_by_email Members.find_by_id
    first_where to_member create member_type set_of is_blank to_json
ada_logs_in = refl

login_then_me_example :
    (token : String) × (login_route lower same_text
        (issue sign encode)
        (at (pos 100))
        (record { email = text "ada@x.org"; password = text "pw" })
        accounts
      ≡ ok (record { code = 200; body = session_body (to_json ada) token }))
    × (me_route (verify sign decode) (at (pos 101)) (some (text_append "Bearer " token)) accounts
        ≡ me_answer ada (pos 3600100) (at (pos 101)))
unfolding new_date time_plus truncate is_blank trim is_white
login_then_me_example =
    login_then_me lower same_text sign encode decode "ada@x.org" "pw" (at (pos 100)) (at (pos 101))
      (pos 3600100) accounts ada refl refl refl codec ada_logs_in

-- A body that takes over Ada's id.
abbrev body : CreateMemberBody
body = record {
  id = Route.text "m_ada";
  type = Route.text "human";
  identity_ref = Route.text "local|ada";
  display_name = absent;
  roles = texts ("admin" ∷ []) "admin";
}
