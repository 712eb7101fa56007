-- ===== src/Tests/Core.antt =====
-- packages/core at concrete inputs.
use workspace_os.Base.{
  String, true, not, ◌&&◌, ◌||◌, [], ◌∷◌, none, some, ok, err, ◌≡◌, ◌≢◌, ◌↔◌, ◌==◌, refl,
  if◌then◌else◌,
}
use workspace_os.Base.Text.{is_blank, trim}
use workspace_os.Base.Sets.{has, set_of}
use workspace_os.Base.Int.{ℤ, pos, ◌+ℤ◌, ◌≤ℤ◌}
use workspace_os.Base.Number
use workspace_os.Base.Number.{Number, of_ℕ, nan, as_integer}
use workspace_os.Base.Date.{at, time_minus}
use workspace_os.Core.Member
use workspace_os.Core.Member.{
  Member, MemberProps, InvalidMemberError, unknown_type, blank_field, has_role, with_role,
  without_role,
}
use workspace_os.Core.Member.Laws.{
  create_error_iff, first_error, has_role-with_role, has_role-without_role, roles_keep-IsValid,
  member_round_trip, member_builds, IsValid as ValidMember,
}
use workspace_os.Core.WorkItem
use workspace_os.Core.WorkItem.{
  WorkItem, opened, claimed, in_progress, Action, claim, begin, complete_it, act, done, cancel_it,
}
use workspace_os.Core.WorkItem.Lifecycle.{
  act_table, leaves_from, passes_gate, result_of, refusal, work_item_round_trip,
  IsValid as ValidItem,
}
use workspace_os.Core.WorkItem.Assignment.{
  Reach, here, next, IsAccounted, SameTask, Reach-IsAccounted, Reach-keeps_owner,
}
use workspace_os.Core.Persona
use workspace_os.Core.Persona.{PersonaRevision, Persona, revise, allows_tool, validate_model}
use workspace_os.Core.Persona.Laws.{
  revise_builds, persona_round_trip, validate_model_iff, IsModel, IsValid as ValidPersona,
}
use workspace_os.Core.AgentCredential
use workspace_os.Core.AgentCredential.{
  AgentCredential, AgentCredentialProps, is_active, is_expired, max_agent_credential_ttl_ms,
}
use workspace_os.Core.AgentCredential.Laws.{credential_expires, credential_round_trip}
use workspace_os.Tests.Samples.{ada, bot, bot_props, fix_login, coder}

trim_test : trim " \t ok  go\n" ≡ "ok  go"
unfolding trim
trim_test = refl

set_test : set_of ("b" ∷ "a" ∷ "b" ∷ []) ≡ "b" ∷ "a" ∷ []
unfolding set_of
set_test = refl

create_test : Member.create bot_props ≡ ok bot
unfolding Member.create Member.member_type is_blank set_of
create_test = refl

create_error_iff_test :
    (Member.create (record bot_props { type = "robot"; id = " " }) ≡ err (unknown_type "robot"))
    ↔ (first_error (record bot_props { type = "robot"; id = " " }) ≡ some (unknown_type "robot"))
create_error_iff_test =
    create_error_iff (record bot_props { type = "robot"; id = " " }) (unknown_type "robot")

has_role-with_role_test :
    has_role (with_role bot "author") "author" ≡ (has_role bot "author" || "author" == "author")
has_role-with_role_test = has_role-with_role bot "author" "author"

has_role-without_role_test :
    has_role (without_role ada "author") "reviewer"
    ≡ (not ("author" == "reviewer") && has_role ada "reviewer")
has_role-without_role_test = has_role-without_role ada "author" "reviewer"

ada_IsValid : ValidMember ada
unfolding is_blank has
ada_IsValid = record {
  id = refl;
  identity_ref = refl;
  display_name = refl;
  roles = (refl, (refl, tt));
}

roles_keep-IsValid_test :
    ValidMember (with_role ada "author") × ValidMember (without_role ada "author")
roles_keep-IsValid_test = roles_keep-IsValid ada "author" ada_IsValid

member_round_trip_test : Member.create (Member.to_json ada) ≡ ok ada
member_round_trip_test = member_round_trip ada ada_IsValid

member_builds_test :
    ValidMember bot
    × (bot_props.type ≡ Member.type_name bot.type)
    × (bot.id ≡ bot_props.id)
    × (bot.identity_ref ≡ bot_props.identity_ref)
    × (bot.display_name ≡ bot_props.display_name)
    × ((r : String) → has_role bot r ≡ has bot_props.roles r)
member_builds_test = member_builds bot_props bot create_test

-- A claim by a coder and a claim by a member who is none.
act_table_test :
    (act (claim bot) fix_login
      ≡ ok (record fix_login { state = claimed; assignee_member_id = some "m_bot" }))
    × (act (claim ada) fix_login ≡ err (WorkItem.claim_lacks_role "m_ada" "coder" "w_1"))
unfolding act has_role has
act_table_test = (refl, refl)

act_table_example : act (claim bot) fix_login ≡ (
    if leaves_from (claim bot) fix_login.state && passes_gate (claim bot) fix_login
    then ok (result_of (claim bot) fix_login)
    else err (refusal (claim bot) fix_login))
act_table_example = act_table (claim bot) fix_login

abbrev claimed_by_bot : WorkItem
claimed_by_bot = record fix_login { state = claimed; assignee_member_id = some "m_bot" }

begun : Reach claimed_by_bot (record claimed_by_bot { state = in_progress })
unfolding act
begun = next here begin refl

history : Reach fix_login (record claimed_by_bot { state = in_progress })
unfolding act
history = next (next here (claim bot) act_table_test.0) begin refl

Reach-IsAccounted_example :
    IsAccounted (record claimed_by_bot { state = in_progress })
    × SameTask fix_login (record claimed_by_bot { state = in_progress })
Reach-IsAccounted_example = Reach-IsAccounted history refl refl

claimed_not_open : claimed_by_bot.state ≢ opened
claimed_not_open = λ e. cc e

Reach-keeps_owner_test :
    ((record claimed_by_bot { state = in_progress }).state ≢ opened)
    × ((record claimed_by_bot { state = in_progress }).assignee_member_id
        ≡ claimed_by_bot.assignee_member_id)
Reach-keeps_owner_test = Reach-keeps_owner begun claimed_not_open

fix_login-IsValid : ValidItem fix_login
unfolding is_blank
fix_login-IsValid = record { id = refl; title = refl }

work_item_round_trip_test : WorkItem.create (WorkItem.to_json fix_login) ≡ ok fix_login
work_item_round_trip_test = work_item_round_trip fix_login fix_login-IsValid

abbrev narrower : PersonaRevision
narrower = record {
  name = none;
  role = none;
  system_prompt = none;
  allowed_tools = some ("search" ∷ "search" ∷ []);
  model = none;
}

abbrev coder_4 : Persona
coder_4 = record coder { allowed_tools = "search" ∷ []; version = 4 }

revise_test : revise coder narrower ≡ ok coder_4
unfolding revise Persona.create validate_model Persona.at_least_one is_blank set_of as_integer
    Number.num_lt Number.num_gt
revise_test = refl

revise_builds_test :
    ValidPersona coder_4
    × (coder_4.persona_id ≡ coder.persona_id)
    × (coder_4.version ≡ 4)
    × (coder_4.name ≡ coder.name)
    × (coder_4.role ≡ coder.role)
    × (coder_4.system_prompt ≡ coder.system_prompt)
    × (coder_4.model ≡ coder.model)
    × ((t : String) → allows_tool coder_4 t ≡ has ("search" ∷ "search" ∷ []) t)
revise_builds_test = revise_builds coder coder_4 narrower revise_test

validate_model_iff_test : (validate_model coder.model ≡ ok tt) ↔ IsModel coder.model
validate_model_iff_test = validate_model_iff coder.model

persona_round_trip_test : Persona.create (Persona.to_json coder_4) ≡ ok coder_4
persona_round_trip_test = persona_round_trip coder_4 revise_builds_test.0

abbrev half_hour : AgentCredentialProps
half_hour = record {
  id = "c_1";
  agent_member_id = "m_bot";
  token_hash = "abc";
  scopes = "read" ∷ [];
  issued_at = at (pos 1000);
  expires_at = at (pos 1801000);
}

half_hour_made : AgentCredential.create half_hour ≡ ok (AgentCredential.construct half_hour)
unfolding AgentCredential.create AgentCredential.construct is_blank time_minus set_of
half_hour_made = refl

credential_expires_example :
    (is_active (AgentCredential.construct half_hour) (at (pos 1000)) ≡ true)
    × ((n : ℤ)
        → pos 1000 +ℤ max_agent_credential_ttl_ms ≤ℤ n
        → is_expired (AgentCredential.construct half_hour) (at n) ≡ true)
credential_expires_example =
    credential_expires half_hour (AgentCredential.construct half_hour) (pos 1000) (pos 1801000)
      half_hour_made refl refl

credential_round_trip_test :
    AgentCredential.create (AgentCredential.to_json (AgentCredential.construct half_hour))
    ≡ ok (AgentCredential.construct half_hour)
credential_round_trip_test =
    credential_round_trip half_hour (AgentCredential.construct half_hour) half_hour_made
