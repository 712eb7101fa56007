-- ===== src/Tests/Requests.antt =====
-- The server of apps/server as a whole at concrete requests.
use workspace_os.Base.{String, Bool, true, [], ◌∷◌, Option, some, ◌==◌}
use workspace_os.Base.Int.{pos}
use workspace_os.Base.Number.{of_ℤ}
use workspace_os.Base.Date.{Date, at}
use workspace_os.Server.Session.{SessionPayload}
use workspace_os.Server.Members.{CreateMemberBody, text, texts}
use workspace_os.Server.System.{
  System, Given, empty_system, handle, Reachable, start, next, post_member,
}
use workspace_os.Server.System.Ends.{IsSound}
use workspace_os.Server.System.Invariant.{Reachable-IsSound}

abbrev lower : String → String
lower s = s

abbrev same_text : String → String → Bool
same_text password hash = password == hash

abbrev sign : String → String
sign payload = "s"

abbrev encode : String → Date → String
encode member_id expires_at = "p"

abbrev decode : String → Option SessionPayload
decode payload = some (record { sub = some "m_ada"; exp = some (of_ℤ (pos 900)) })

abbrev given : Given
given = record {
  now = at (pos 100);
  draw = record { id = "7"; activity_id = "a_1"; now = 40 };
  member_id = "8";
  hash_of = λ password. password;
  locked = [];
  reachable = true;
}

abbrev body : CreateMemberBody
body = record {
  id = text "m_ada";
  type = text "human";
  identity_ref = text "local|ada";
  display_name = text "Ada";
  roles = texts ("admin" ∷ []) "admin";
}

-- The state once the member was made.
abbrev with_ada : System
with_ada = (handle lower same_text sign encode decode given (post_member body) empty_system).1

with_ada_reached : Reachable lower same_text sign encode decode with_ada
with_ada_reached = next given (post_member body) empty_system start

Reachable-IsSound_example : IsSound with_ada
Reachable-IsSound_example =
    Reachable-IsSound lower same_text sign encode decode with_ada with_ada_reached
