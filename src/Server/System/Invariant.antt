-- ===== src/Server/System/Invariant.antt =====
-- build-server.ts: what holds in every state that requests lead to, and how every request ends.
use workspace_os.Base.{String, Bool, true, Option, none, some, ◌≡◌, refl, inl, inr}
use workspace_os.Base.Sets.{has}
use workspace_os.Base.Date.{Date}
use workspace_os.Core.Member.{Member}
use workspace_os.Server.Session.{SessionPayload, verify, issue}
use workspace_os.Server.Signup.{ids}
use workspace_os.Server.WorkItems
use workspace_os.Server.WorkItems.{
  Tables, Handled, Reply, PublishBody, integer_or_zero, board_error,
}
use workspace_os.Server.System.{
  System, empty_system, Given, Request, member_response, auth_response, tables, after_work,
  as_member, acting_member, handle, Reachable, start, next, get_health, get_ready, get_unknown,
  post_member, get_member_by_id, post_signup, post_login, get_me, post_work_item, get_work_items,
  post_claim_next, post_move,
}
use workspace_os.Server.System.Work.{
  IsSoundTables, Succeeds, stays, list_items-Succeeds, claim_next-Succeeds,
}
use workspace_os.Server.System.Moves.{transition-Succeeds}
use workspace_os.Server.System.Identity.{create_member-MembersEnd, get_member_answers}
use workspace_os.Server.System.Signups.{signup_route-SignupEnd}
use workspace_os.Server.System.Sessions.{login_route_answers, acting_ends, me_route_answers}
use workspace_os.Server.System.Ends.{
  IsSound, IsHandled, reads, works, members_end, signup_end, publishes,
}

module _ (to_lower : String → String) (verify_password : String → String → Bool)
    (sign : String → String) (encode : String → Date → String)
    (decode : String → Option SessionPayload) where
  acts :
      (request : Request) (given : Given) (header : Option String) (s : System)
      (handler : Option Member → Tables → Handled)
      → IsSound s
      → Succeeds (tables s) (handler none (tables s))
      → ((m : Member)
          → has (ids s.accounts.members) m.id ≡ true
          → IsHandled request (after_work s (handler (some m) (tables s))))
      → IsHandled request (
          as_member s handler
            (acting_member to_lower verify_password sign encode decode given header s))
  acts request given header s handler h refused works_for =
      elim (acting_ends (verify sign decode) header given.now s.accounts h.accounts) [
        | inl nobody ↦ rw nobody (works request s _ h refused)
        | inr (m, e, known) ↦ rw e (works_for m known)
      ]

  handle-IsHandled :
      (given : Given) (request : Request) (s : System)
      → IsSound s
      → IsHandled request (handle to_lower verify_password sign encode decode given request s)
  unfolding handle WorkItems.publish WorkItems.list_items WorkItems.claim_next_item
      WorkItems.transition_item
  handle-IsHandled given get_health s h = reads _ s _ _ h refl
  handle-IsHandled given get_ready s h = reads _ s _ _ h refl
  handle-IsHandled given get_unknown s h = reads _ s _ _ h refl
  handle-IsHandled given (post_member body) s h =
      members_end body s _ h (create_member-MembersEnd body s.accounts h.accounts)
  handle-IsHandled given (get_member_by_id id) s h =
      let (reply, e) = get_member_answers id s.accounts h.accounts in
      reads _ s (member_response reply) _ h (rw e refl)
  handle-IsHandled given (post_signup body) s h =
      signup_end body s _ h
        (signup_route-SignupEnd to_lower given.member_id given.hash_of body s.accounts h.accounts)
  handle-IsHandled given (post_login body) s h =
      let (reply, e) =
        login_route_answers to_lower verify_password (issue sign encode) given.now body s.accounts
          h.accounts in
      reads _ s (auth_response reply) _ h (rw e refl)
  handle-IsHandled given (get_me header) s h =
      let (reply, e) =
        me_route_answers (verify sign decode) given.now header s.accounts h.accounts in
      reads _ s (auth_response reply) _ h (rw e refl)
  handle-IsHandled given (post_work_item header body) s h =
      let t : IsSoundTables (tables s) = record { readable = h.readable; acted = h.acted } in
      acts _ given header s (λ acting t. WorkItems.publish given.draw acting body t) h
        (stays (tables s) _ t) (λ m known. publishes given header body s m h known)
  handle-IsHandled given (get_work_items header) s h =
      let t : IsSoundTables (tables s) = record { readable = h.readable; acted = h.acted } in
      acts _ given header s (λ acting t. WorkItems.list_items acting t) h (stays (tables s) _ t)
        (λ m known. works _ s _ h (list_items-Succeeds m (tables s) t))
  handle-IsHandled given (post_claim_next header) s h =
      let t : IsSoundTables (tables s) = record { readable = h.readable; acted = h.acted } in
      acts _ given header s (λ acting t. WorkItems.claim_next_item given.draw given.locked acting t)
        h (stays (tables s) _ t)
        (λ m known.
          works _ s _ h (claim_next-Succeeds given.draw given.locked m (tables s) known t))
  handle-IsHandled given (post_move header move id) s h =
      let t : IsSoundTables (tables s) = record { readable = h.readable; acted = h.acted } in
      acts _ given header s (λ acting t. WorkItems.transition_item given.draw acting move id t) h
        (stays (tables s) _ t)
        (λ m known. works _ s _ h (transition-Succeeds given.draw m move id (tables s) known t))

  empty-IsSound : IsSound empty_system
  empty-IsSound = record {
    accounts = record { readable = tt; owned = tt };
    readable = tt;
    acted = tt;
  }

  -- In every state that requests lead to from the empty database, every stored member and work item
  -- can be read, every credential belongs to a stored member, and every activity names one as its
  -- actor.
  pub Reachable-IsSound :
      (s : System) → Reachable to_lower verify_password sign encode decode s → IsSound s
  Reachable-IsSound s start = empty-IsSound
  Reachable-IsSound s (next given request before r) =
      (handle-IsHandled given request before (Reachable-IsSound before r)).sound
