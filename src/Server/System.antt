-- ===== src/Server/System.antt =====
-- apps/server/src/build-server.ts: the routes of the server over one database, and the sequences of
-- requests that it answers one after another. What a request reads of the clock, the random source
-- and the database's state is handed in with it.
pub mod Invariant
pub mod Access
pub mod Stored
pub mod Work
pub mod Moves
pub mod Ends
pub mod Identity
pub mod Signups
pub mod Sessions
use workspace_os.Base.{ℕ, String, Bool, List, [], Option, none, some, Result, ok, err, map_err}
use workspace_os.Base.Date.{Date}
use workspace_os.Core.Member.{Member, MemberProps, InvalidMemberError}
use workspace_os.Adapters.Members
use workspace_os.Adapters.Board.{Row}
use workspace_os.Adapters.Activity.{ActivityRecord}
use workspace_os.Server.Session.{SessionPayload, authenticate, verify, issue}
use workspace_os.Server.Signup.{Accounts, ids}
use workspace_os.Server.WorkItems
use workspace_os.Server.WorkItems.{PublishBody, Reply, Thrown, Tables, Move, Handled}
use workspace_os.Server.Auth.{
  SignupBody, LoginBody, AuthReply, AuthThrown, signup_route, login_route, me_route,
}
use workspace_os.Server.Members.{
  CreateMemberBody, MemberReply, MemberThrown, create_member, get_member,
}
use workspace_os.Server.App.{StatusReply, not_found_route, health, ready_route, readiness_check}

-- The tables that the routes read and write.
pub record System : Type 0 where
  pub accounts : Accounts
  pub rows : List Row
  pub log : List ActivityRecord

abbrev pub empty_system : System
empty_system = record { accounts = record { members = []; credentials = [] }; rows = []; log = [] }

-- What the surroundings give to one request.
pub record Given : Type 0 where
  pub now : Date
  pub draw : WorkItems.Draw
  pub member_id : String
  pub hash_of : String → String
  pub locked : List String
  pub reachable : Bool

-- A request, with its `authorization` header where the route reads it.
pub data Request : Type 0 where
  get_health get_ready get_unknown : Request
  post_member : CreateMemberBody → Request
  get_member_by_id : String → Request
  post_signup : SignupBody → Request
  post_login : LoginBody → Request
  get_me : Option String → Request
  post_work_item : Option String → PublishBody → Request
  get_work_items : Option String → Request
  post_claim_next : Option String → Request
  post_move : Option String → Move → String → Request

pub data Response : Type 0 where
  status_response : StatusReply → Response
  member_response : MemberReply → Response
  auth_response : AuthReply → Response
  work_response : Reply → Response

-- What a handler throws; the framework answers it with 500.
pub data Failure : Type 0 where
  member_failure : MemberThrown → Failure
  auth_failure : AuthThrown → Failure
  work_failure : Thrown → Failure
  acting_member_failure : InvalidMemberError → Failure

abbrev pub Outcome : Type 0
Outcome = Result Failure Response × System

-- the tables as the routes of the work board see them
abbrev pub tables : System → Tables
tables s = record { rows = s.rows; log = s.log; members = ids s.accounts.members }

abbrev pub respond {ℓ κ} :
    {E : Type ℓ} {A : Type κ}
    → (E → Failure)
    → (A → Response)
    → Result E A
    → Result Failure Response
respond fail response (ok a) = ok (response a)
respond fail response (err e) = err (fail e)

abbrev pub after_work : System → Handled → Outcome
after_work s (answer, t) =
    (respond work_failure work_response answer, record s { rows = t.rows; log = t.log })

abbrev pub after_members : System → Result MemberThrown MemberReply × List MemberProps → Outcome
after_members s (answer, members) = (
  respond member_failure member_response answer,
  record s { accounts = record { members = members; credentials = s.accounts.credentials } },
)

abbrev pub after_signup : System → Result AuthThrown AuthReply × Accounts → Outcome
after_signup s (answer, accounts) =
    (respond auth_failure auth_response answer, record s { accounts = accounts })

-- `currentMember`, then the rest of a handler of the work board
abbrev pub as_member :
    System
    → (Option Member → Tables → Handled)
    → Result InvalidMemberError (Option Member)
    → Outcome
as_member s handler (err e) = (err (acting_member_failure e), s)
as_member s handler (ok acting) = after_work s (handler acting (tables s))

module _ (to_lower : String → String) (verify_password : String → String → Bool)
    (sign : String → String) (encode : String → Date → String)
    (decode : String → Option SessionPayload) where
  abbrev pub acting_member :
      Given → Option String → System → Result InvalidMemberError (Option Member)
  acting_member given header s =
      authenticate (verify sign decode) (λ id. Members.find_by_id id s.accounts.members) header
        given.now

  unfoldable pub handle : Given → Request → System → Outcome
  handle given get_health s = (ok (status_response health), s)
  handle given get_ready s =
      (ok (status_response (ready_route (some (readiness_check given.reachable)))), s)
  handle given get_unknown s = (ok (status_response not_found_route), s)
  handle given (post_member body) s = after_members s (create_member body s.accounts.members)
  handle given (get_member_by_id id) s =
      (respond member_failure member_response (get_member id s.accounts.members), s)
  handle given (post_signup body) s =
      after_signup s (signup_route to_lower given.member_id given.hash_of body s.accounts)
  handle given (post_login body) s = (
    respond auth_failure auth_response
        (login_route to_lower verify_password (issue sign encode) given.now body s.accounts),
    s,
  )
  handle given (get_me header) s = (
    respond auth_failure auth_response (me_route (verify sign decode) given.now header s.accounts),
    s,
  )
  handle given (post_work_item header body) s =
      as_member s (λ acting t. WorkItems.publish given.draw acting body t)
        (acting_member given header s)
  handle given (get_work_items header) s =
      as_member s (λ acting t. WorkItems.list_items acting t) (acting_member given header s)
  handle given (post_claim_next header) s =
      as_member s (λ acting t. WorkItems.claim_next_item given.draw given.locked acting t)
        (acting_member given header s)
  handle given (post_move header move id) s =
      as_member s (λ acting t. WorkItems.transition_item given.draw acting move id t)
        (acting_member given header s)

  -- The states that requests lead to from the empty database.
  pub data Reachable : System → Type 0 where
    start : Reachable empty_system
    next :
        (given : Given) (request : Request) (s : System)
        → Reachable s
        → Reachable (handle given request s).1
