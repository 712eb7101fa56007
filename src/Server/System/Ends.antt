-- ===== src/Server/System/Ends.antt =====
-- build-server.ts: how a request ends, and the handlers that end so and keep the state sound.
use workspace_os.Base.{
  String, true, false, List, Option, some, Result, ok, err, ◌≡◌, refl, inl, inr, All,
}
use workspace_os.Base.Sets.{has}
use workspace_os.Core.Member.{Member, MemberProps}
use workspace_os.Adapters.Members.{UniqueViolation}
use workspace_os.Adapters.Board.Claims.{IsReadable}
use workspace_os.Server.Signup.{Accounts, ids, member_error}
use workspace_os.Server.WorkItems
use workspace_os.Server.WorkItems.{
  Tables, Handled, Reply, PublishBody, integer_or_zero, board_error,
}
use workspace_os.Server.Auth.{AuthReply, AuthThrown, signup_failed, SignupBody}
use workspace_os.Server.Members.{
  MemberReply, MemberThrown, not_saved, not_a_string, CreateMemberBody,
}
use workspace_os.Server.Members.Laws.{converts}
use workspace_os.Base.Int.{ℤ}
use workspace_os.Base.Number.{as_integer}
use workspace_os.Adapters.Board.{fits_integer, priority_out_of_range}
use workspace_os.Server.System.{
  System, Given, Request, Response, Failure, Outcome, member_failure, auth_failure, work_failure,
  member_response, auth_response, work_response, tables, after_work, after_members, after_signup,
  post_member, post_signup, post_work_item,
}
use workspace_os.Server.System.Stored.{IsActed, IsSoundAccounts, All-weaken}
use workspace_os.Server.System.Work.{
  IsSoundTables, Succeeds, publish-ends, published_or_refused, too_wide,
}
use workspace_os.Server.System.Identity.{Grows, MembersEnd, replies, is_taken_by, not_converts}
use workspace_os.Server.System.Signups.{SignupEnd}

-- Every row can be read, every credential belongs to a member, and every activity names one.
pub record IsSound (s : System) : Type 0 where
  pub accounts : IsSoundAccounts s.accounts
  pub readable : All IsReadable s.rows
  pub acted : All (IsActed (ids s.accounts.members)) s.log

-- How a request ends. A response is sent; or the handler throws, since the identity of a member who
-- is written is taken by another, since `String` throws on a field of a member, or since an integer
-- priority does not fit the 4 bytes of its column.
pub data IsAnswered (request : Request) (out : Result Failure Response) : Type 0 where
  answered : (response : Response) → out ≡ ok response → IsAnswered request out
  identity_taken_in_members :
      (body : CreateMemberBody) (v : UniqueViolation)
      → request ≡ post_member body
      → out ≡ err (member_failure (not_saved v))
      → IsAnswered request out
  member_not_converted :
      (body : CreateMemberBody)
      → request ≡ post_member body
      → converts body ≡ false
      → out ≡ err (member_failure not_a_string)
      → IsAnswered request out
  identity_taken_in_signup :
      (body : SignupBody) (v : UniqueViolation)
      → request ≡ post_signup body
      → out ≡ err (auth_failure (signup_failed (member_error v)))
      → IsAnswered request out
  priority_too_wide :
      (header : Option String) (body : PublishBody) (z : ℤ)
      → request ≡ post_work_item header body
      → as_integer (integer_or_zero body.priority) ≡ some z
      → fits_integer z ≡ false
      → out ≡ err (work_failure (board_error (priority_out_of_range z)))
      → IsAnswered request out

-- A request ends so from a sound state, and leaves one.
pub record IsHandled (request : Request) (out : Outcome) : Type 0 where
  pub sound : IsSound out.1
  pub ends : IsAnswered request out.0

pub reads :
    (request : Request) (s : System) (response : Response) (out : Result Failure Response)
    → IsSound s
    → out ≡ ok response
    → IsHandled request (out, s)
reads request s response out h e = record { sound = h; ends = answered response e }

pub works :
    (request : Request) (s : System) (out : Handled)
    → IsSound s
    → Succeeds (tables s) out
    → IsHandled request (after_work s out)
works request s out h w = record {
  sound = record {
    accounts = h.accounts;
    readable = w.sound.readable;
    acted =
        All-weaken (IsActed out.1.members) (IsActed (ids s.accounts.members)) out.1.log
          (λ entry known. rw⁻¹ w.same known) w.sound.acted;
  };
  ends = answered (work_response w.reply) (rw w.answered refl);
}

IsActed-still :
    (s : System) (rows : List MemberProps)
    → IsSound s
    → Grows s.accounts.members rows
    → All (IsActed (ids rows)) s.log
IsActed-still s rows h grows =
    All-weaken (IsActed (ids s.accounts.members)) (IsActed (ids rows)) s.log
      (λ entry. grows entry.actor_member_id) h.acted

pub members_end :
    (body : CreateMemberBody) (s : System)
    (out : Result MemberThrown MemberReply × List MemberProps)
    → IsSound s
    → MembersEnd body s.accounts out
    → IsHandled (post_member body) (after_members s out)
members_end body s out h m = record {
  sound = record {
    accounts = m.sound;
    readable = h.readable;
    acted = IsActed-still s out.1 h m.grows;
  };
  ends = elim m.ends [
    | replies reply e ↦ answered (member_response reply) (rw e refl)
    | is_taken_by v e ↦ identity_taken_in_members body v refl (rw e refl)
    | not_converts fails e ↦ member_not_converted body refl fails (rw e refl)
  ];
}

pub signup_end :
    (body : SignupBody) (s : System) (out : Result AuthThrown AuthReply × Accounts)
    → IsSound s
    → SignupEnd s.accounts out
    → IsHandled (post_signup body) (after_signup s out)
signup_end body s out h m = record {
  sound = record {
    accounts = m.sound;
    readable = h.readable;
    acted = IsActed-still s out.1.members h m.grows;
  };
  ends = elim m.ends [
    | inl (reply, e) ↦ answered (auth_response reply) (rw e refl)
    | inr (v, e) ↦ identity_taken_in_signup body v refl (rw e refl)
  ];
}

pub publishes :
    (given : Given) (header : Option String) (body : PublishBody) (s : System) (m : Member)
    → IsSound s
    → has (ids s.accounts.members) m.id ≡ true
    → IsHandled
        (post_work_item header body)
        (after_work s (WorkItems.publish given.draw (some m) body (tables s)))
publishes given header body s m h known =
    let t : IsSoundTables (tables s) = record { readable = h.readable; acted = h.acted } in
    elim (publish-ends given.draw m body (tables s) known t) [
      | published_or_refused w ↦ works _ s _ h w
      | too_wide z whole wide e ↦
          rw e (record { sound = h; ends = priority_too_wide header body z refl whole wide refl })
    ]
