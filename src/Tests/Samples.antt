-- ===== src/Tests/Samples.antt =====
-- The members, items and policies that the tests share.
use workspace_os.Base.{[], ◌∷◌, none, some}
use workspace_os.Base.Int.{pos}
use workspace_os.Base.Number.{of_ℕ}
use workspace_os.Core.Member.{Member, MemberProps, human, agent}
use workspace_os.Core.WorkItem.{WorkItem, opened}
use workspace_os.Core.Persona.{Persona}
use workspace_os.Governance.Action.{ActionDefinition, routine, consequential}
use workspace_os.Governance.PolicyDefinition.{PolicyDefinition}

abbrev pub ada : Member
ada = record {
  id = "m_ada";
  type = human;
  identity_ref = "local|ada";
  display_name = "Ada";
  roles = "reviewer" ∷ "author" ∷ [];
}

abbrev pub bot : Member
bot = record {
  id = "m_bot";
  type = agent;
  identity_ref = "agent|bot";
  display_name = "Bot";
  roles = "coder" ∷ [];
}

abbrev pub bot_props : MemberProps
bot_props = record {
  id = "m_bot";
  type = "agent";
  identity_ref = "agent|bot";
  display_name = "Bot";
  roles = "coder" ∷ "coder" ∷ [];
}

abbrev pub fix_login : WorkItem
fix_login = record {
  id = "w_1";
  title = "Fix the login";
  priority = pos 5;
  description = none;
  required_role = some "coder";
  state = opened;
  assignee_member_id = none;
}

abbrev pub coder : Persona
coder = record {
  persona_id = "p_coder";
  name = "Coder";
  role = "coder";
  system_prompt = "You write code.";
  allowed_tools = "search" ∷ "merge" ∷ [];
  model = record { model_id = "m-1"; temperature = some (of_ℕ 1); max_tokens = some (of_ℕ 256) };
  version = 3;
}

abbrev pub search_action : ActionDefinition
search_action = record {
  name = "tool.search";
  consequence = routine;
  description = none;
  required_roles = some ("coder" ∷ "reviewer" ∷ []);
  required_relationship = none;
}

abbrev pub merge_action : ActionDefinition
merge_action = record {
  name = "tool.merge";
  consequence = consequential;
  description = none;
  required_roles = none;
  required_relationship = some "owner";
}

abbrev pub policy : PolicyDefinition
policy = record { policy_id = "default"; actions = search_action ∷ merge_action ∷ []; version = 1 }
