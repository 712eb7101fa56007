-- ===== src/Server/App.antt =====
-- apps/server/src/app.ts: liveness, readiness, and the answer to a route that is not there, with
-- the readiness check that apps/server/src/build-server.ts hands in.
use workspace_os.Base.{ℕ, String, Bool, true, false, Option, none, some, if◌then◌else◌}

pub record StatusReply : Type 0 where
  pub code : ℕ
  pub status : String

-- What a check ends with.
pub data Checked : Type 0 where
  returned : Bool → Checked
  threw : Checked

abbrev pub not_found_route : StatusReply
not_found_route = record { code = 404; status = "not-found" }

abbrev pub health : StatusReply
health = record { code = 200; status = "ok" }

-- a check that throws has not succeeded
abbrev pub is_ready : Checked → Bool
is_ready (returned ready) = ready
is_ready threw = false

-- without a check the process is ready
abbrev pub check_ready : Option Checked → Bool
check_ready none = true
check_ready (some check) = is_ready check

unfoldable pub ready_route : Option Checked → StatusReply
ready_route check =
    if check_ready check
    then record { code = 200; status = "ready" }
    else record { code = 503; status = "not-ready" }

-- the check of the server: `select 1` is awaited, then true is returned
abbrev pub readiness_check : Bool → Checked
readiness_check reachable = if reachable then returned true else threw
