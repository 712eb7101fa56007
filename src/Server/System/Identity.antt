-- ===== src/Server/System/Identity.antt =====
-- routes/members.ts on sound tables: every handler answers but for a member whose identity is
-- taken, and keeps them sound.
use workspace_os.Base.{
  String, true, false, arith, List, Result, ok, err, ◌≡◌, ◌⊎◌, refl, inl, inr, Bool-cases,
  Option-cases, Result-cases,
}
use workspace_os.Base.Sets.{has}
use workspace_os.Core.Member
use workspace_os.Core.Member.{Member, MemberProps, InvalidMemberError, to_json}
use workspace_os.Core.Member.Laws.{IsValid, member_builds, member_round_trip}
use workspace_os.Adapters.Members
use workspace_os.Adapters.Members.{UniqueViolation, identity_taken, upsert}
use workspace_os.Server.Signup.{Accounts, ids}
use workspace_os.Server.Members.{
  CreateMemberBody, MemberReply, MemberThrown, not_saved, not_a_string, create_typed, unknown_type,
  type_text, save_and_send, create_member, get_member, no_member, answer,
}
use workspace_os.Server.Members.Laws.{converts, not_converted, props_of_converts, string_ok}
use workspace_os.Server.System.Stored.{
  IsMember, IsOwned, IsSoundAccounts, All-weaken, All-upsert, ids-grow, member_at,
}

-- No member is lost.
abbrev pub Grows : List MemberProps → List MemberProps → Type 0
Grows rows rows' = (id : String) → has (ids rows) id ≡ true → has (ids rows') id ≡ true

-- The member is written, and the credentials stay.
abbrev pub with_member : Member → Accounts → Accounts
with_member m s = record { members = upsert (to_json m) s.members; credentials = s.credentials }

pub upsert-IsSound :
    (m : Member) (s : Accounts) → IsValid m → IsSoundAccounts s → IsSoundAccounts (with_member m s)
upsert-IsSound m s v h = record {
  readable = All-upsert IsMember (to_json m) s.members (m, member_round_trip m v) h.readable;
  owned =
      All-weaken (IsOwned (ids s.members)) (IsOwned (ids (upsert (to_json m) s.members)))
        s.credentials (λ c. ids-grow (to_json m) s.members c.member_id) h.owned;
}

-- The end of `POST /members`: a reply, an identity that is taken, or a field that `String` does not
-- convert.
pub data MembersAnswer (body : CreateMemberBody) (out : Result MemberThrown MemberReply)
    : Type 0 where
  replies : (reply : MemberReply) → out ≡ ok reply → MembersAnswer body out
  is_taken_by : (v : UniqueViolation) → out ≡ err (not_saved v) → MembersAnswer body out
  not_converts : converts body ≡ false → out ≡ err not_a_string → MembersAnswer body out

pub record MembersEnd (body : CreateMemberBody) (s : Accounts)
    (out : Result MemberThrown MemberReply × List MemberProps) : Type 0 where
  pub ends : MembersAnswer body out.0
  pub sound : IsSoundAccounts (record { members = out.1; credentials = s.credentials })
  pub grows : Grows s.members out.1

pub save_ends :
    (m : Member) (rows : List MemberProps)
    → (Members.save m rows ≡ ok (upsert (to_json m) rows))
      ⊎ ((v : UniqueViolation) × (Members.save m rows ≡ err v))
unfolding Members.save to_json
save_ends m rows =
    elim (Bool-cases (Members.is_taken (to_json m).id (to_json m).identity_ref rows)) [
      | inl taken ↦ inr (identity_taken m.identity_ref, rw (taken, Members.save))
      | inr free ↦ inl (rw (free, Members.save))
    ]

save_and_send-MembersEnd :
    (body : CreateMemberBody) (m : Member) (s : Accounts)
    → IsValid m
    → IsSoundAccounts s
    → MembersEnd body s (save_and_send m s.members)
unfolding save_and_send
save_and_send-MembersEnd body m s v h = elim (save_ends m s.members) [
  | inr (violation, e) ↦
      rw (e, save_and_send)
        (record { ends = is_taken_by violation refl; sound = h; grows = λ id there. there })
  | inl e ↦
      rw (e, save_and_send)
        (record {
          ends = replies _ refl;
          sound = upsert-IsSound m s v h;
          grows = ids-grow (to_json m) s.members;
        })
]

members_stay :
    (body : CreateMemberBody) (s : Accounts) (out : Result MemberThrown MemberReply)
    → MembersAnswer body out
    → IsSoundAccounts s
    → MembersEnd body s (out, s.members)
members_stay body s out ends h = record { ends = ends; sound = h; grows = λ id there. there }

pub create_member-MembersEnd :
    (body : CreateMemberBody) (s : Accounts)
    → IsSoundAccounts s
    → MembersEnd body s (create_member body s.members)
unfolding create_member create_typed unknown_type
create_member-MembersEnd body s h = elim (Bool-cases (converts body)) [
  | inr fails ↦
      rw (not_converted body s.members fails) (members_stay body s _ (not_converts fails refl) h)
  | inl fine ↦
      let (props, printed) = props_of_converts body fine in
      rw (printed, create_member)
        (elim (Option-cases (type_text body.type)) [
          | inl untyped ↦
              let (shown, e) = string_ok body.type (ground (arith, fine)) in
              rw (untyped, create_typed) (rw e (members_stay body s _ (replies _ refl) h))
          | inr (type, typed) ↦ elim (Result-cases (Member.create (props type))) [
            | inr (e, refused) ↦
                rw (typed, create_typed) (rw refused (members_stay body s _ (replies _ refl) h))
            | inl (m, built) ↦
                rw (typed, create_typed)
                  (rw built (save_and_send-MembersEnd body m s (member_builds _ m built).0 h))
          ]
        ])
]

pub get_member_answers :
    (id : String) (s : Accounts)
    → IsSoundAccounts s
    → (reply : MemberReply) × (get_member id s.members ≡ ok reply)
unfolding get_member
get_member_answers id s h = elim (member_at id s.members h.readable) [
  | inl missing ↦ (no_member, rw missing)
  | inr (m, found, known) ↦ (answer 200 m, rw found)
]
