-- ===== src/Tests/Tables.antt =====
-- The queue, the versions and the members of packages/adapters at concrete inputs.
use workspace_os.Base.{
  map, ℕ, String, true, false, List, [], ◌∷◌, none, some, ok, err, arith, ◌≡◌, ◌⊎◌, refl, All,
  if◌then◌else◌, ◌==◌,
}
use workspace_os.Base.Text.{is_blank}
use workspace_os.Base.Sets.{has}
use workspace_os.Base.Number.{as_integer, num_lt, num_gt}
use workspace_os.Core.Member.{has_role}
use workspace_os.Adapters.Queue.{
  QueueRow, QueueOp, pending, claim_op, complete_op, fail_op, is_visible, oldest, update_message,
  claim_row, message_of, claim,
}
use workspace_os.Adapters.Queue.Claiming.{IsOldest, claim_result}
use workspace_os.Adapters.Queue.Delivery.{deliveries, claimed_once}
use workspace_os.Core.Member
use workspace_os.Core.Member.{MemberProps}
use workspace_os.Core.Member.Laws.{IsValid as ValidMember}
use workspace_os.Adapters.Members
use workspace_os.Core.Persona.Laws.{IsValid as ValidPersona}
use workspace_os.Governance.PolicyDefinition.{PolicyDefinition}
use workspace_os.Governance.PolicyDefinition.Laws.{IsValid as ValidPolicy}
use workspace_os.Base.Number.{nan}
use workspace_os.Core.Persona.{Persona}
use workspace_os.Adapters.Versions
use workspace_os.Adapters.Versions.{save_version, version_conflict}
use workspace_os.Adapters.Versions.Laws.{save_each}
use workspace_os.Adapters.Versions.Policies
use workspace_os.Adapters.Versions.Policies.{saved_policy_stays}
use workspace_os.Adapters.Versions.Personas
use workspace_os.Adapters.Versions.Personas.{saved_persona_is_latest}
use workspace_os.Tests.Samples.{ada, bot, policy, coder}

abbrev queued : String → ℕ → QueueRow String
queued id created_at = record {
  id = id;
  queue_name = "runs";
  payload = "w_1";
  status = pending;
  attempts = 0;
  last_error = none;
  created_at = created_at;
}

abbrev waiting : List (QueueRow String)
waiting = queued "q_2" 20 ∷ queued "q_1" 10 ∷ []

claim_result_test :
    (All (λ r. is_visible "runs" r ≡ false) waiting × (claim "runs" waiting ≡ (none, waiting)))
    ⊎ ((row : QueueRow String) × IsOldest "runs" waiting row
        × (claim "runs" waiting ≡ (some (message_of row), update_message row.id claim_row waiting)))
claim_result_test = claim_result "runs" waiting

first_claimed : (claim "runs" waiting).0 ≡ some (message_of (queued "q_1" 10))
unfolding claim oldest
first_claimed = refl

abbrev later : List (QueueOp String)
later = claim_op "runs" ∷ complete_op "q_2" ∷ fail_op "q_2" "lost" ∷ claim_op "runs" ∷ []

claimed_once_example : has (deliveries later (claim "runs" waiting).1) "q_1" ≡ false
claimed_once_example =
    claimed_once "runs" waiting (message_of (queued "q_1" 10)) later first_claimed
      (refl, (refl, (refl, (refl, tt))))

policy-IsValid : ValidPolicy policy
unfolding is_blank has
policy-IsValid = record { policy_id = refl; distinct = (refl, (refl, tt)); version = omega arith }

abbrev policy_2 : PolicyDefinition
policy_2 = record policy { actions = []; version = 2 }

policies_saved :
    (save_version (Policies.row_of policy) [] ≡ ok (Policies.row_of policy ∷ []))
    × (save_version (Policies.row_of policy_2) (Policies.row_of policy ∷ [])
        ≡ ok (Policies.row_of policy_2 ∷ Policies.row_of policy ∷ []))
    × (save_version (Policies.row_of policy) (Policies.row_of policy ∷ [])
        ≡ err (version_conflict "default" 1))
unfolding save_version Versions.find_row
policies_saved = (refl, refl, refl)

-- A later version, one that is refused, and another policy.
abbrev later_policies : List PolicyDefinition
later_policies =
    policy_2 ∷ record policy { actions = [] } ∷ record policy { policy_id = "other" } ∷ []

saved_policy_stays_example :
    (Policies.find_version "default" 1
        (save_each (map Policies.row_of later_policies) (Policies.row_of policy ∷ []))
      ≡ ok (some policy))
    × ((q : PolicyDefinition)
        → q.policy_id ≡ "default"
        → q.version ≡ 1
        → save_version
            (Policies.row_of q)
            (save_each (map Policies.row_of later_policies) (Policies.row_of policy ∷ []))
          ≡ err (version_conflict "default" 1))
saved_policy_stays_example =
    saved_policy_stays policy later_policies [] (Policies.row_of policy ∷ []) policy-IsValid
      policies_saved.0

coder-IsValid : ValidPersona coder
unfolding is_blank has num_lt num_gt as_integer
coder-IsValid = record {
  persona_id = refl;
  name = refl;
  role = refl;
  system_prompt = refl;
  tools = (refl, (refl, tt));
  model = record { model_id = refl; temperature = (refl, refl); max_tokens = (255, refl) };
  version = omega arith;
}

persona_saved :
    save_version (Personas.row_of coder) (Personas.row_of (record coder { version = 2 }) ∷ [])
    ≡ ok (Personas.row_of coder ∷ Personas.row_of (record coder { version = 2 }) ∷ [])
unfolding save_version Versions.find_row
persona_saved = refl

-- A persona with NaN for its temperature is valid, and is not what is found.
abbrev odd_coder : Persona
odd_coder = record coder { model = record coder.model { temperature = some nan } }

odd_coder-IsValid : ValidPersona odd_coder
unfolding num_lt num_gt
odd_coder-IsValid = record {
  persona_id = coder-IsValid.persona_id;
  name = coder-IsValid.name;
  role = coder-IsValid.role;
  system_prompt = coder-IsValid.system_prompt;
  tools = coder-IsValid.tools;
  model = record {
    model_id = coder-IsValid.model.model_id;
    temperature = (refl, refl);
    max_tokens = coder-IsValid.model.max_tokens;
  };
  version = coder-IsValid.version;
}

odd_coder_saved : save_version (Personas.row_of odd_coder) [] ≡ ok (Personas.row_of odd_coder ∷ [])
unfolding save_version Versions.find_row
odd_coder_saved = refl

saved_persona_is_latest_example :
    ((Personas.find_latest "p_coder"
          (Personas.row_of coder ∷ Personas.row_of (record coder { version = 2 }) ∷ [])
        ≡ ok (some (Personas.with_number coder)))
      × (Personas.find_version "p_coder" 3
            (Personas.row_of coder ∷ Personas.row_of (record coder { version = 2 }) ∷ [])
          ≡ ok (some (Personas.with_number coder))))
    × ((Personas.find_latest "p_coder" (Personas.row_of odd_coder ∷ [])
          ≡ ok (some (Personas.stored (some nan) odd_coder)))
        × (Personas.find_version "p_coder" 3 (Personas.row_of odd_coder ∷ [])
            ≡ ok (some (Personas.stored (some nan) odd_coder))))
saved_persona_is_latest_example = (
  saved_persona_is_latest coder (Personas.row_of (record coder { version = 2 }) ∷ [])
      (Personas.row_of coder ∷ Personas.row_of (record coder { version = 2 }) ∷ []) coder-IsValid
      persona_saved ((λ e. omega arith), tt),
  saved_persona_is_latest odd_coder [] (Personas.row_of odd_coder ∷ []) odd_coder-IsValid
      odd_coder_saved tt,
)

ada-IsValid : ValidMember ada
unfolding is_blank has
ada-IsValid = record {
  id = refl;
  identity_ref = refl;
  display_name = refl;
  roles = (refl, (refl, tt));
}

save_result_test :
    (Members.is_taken "m_ada" "local|ada" (Member.to_json bot ∷ []) ≡ true
      → Members.save ada (Member.to_json bot ∷ []) ≡ err (Members.identity_taken "local|ada"))
    × (Members.is_taken "m_ada" "local|ada" (Member.to_json bot ∷ []) ≡ false
        → (rows' : List MemberProps) × (Members.save ada (Member.to_json bot ∷ []) ≡ ok rows')
          × ((id : String)
              → Members.find_by_id id rows' ≡ (
                  if "m_ada" == id
                  then ok (some ada)
                  else Members.find_by_id id (Member.to_json bot ∷ []))))
save_result_test = Members.save_result ada (Member.to_json bot ∷ []) ada-IsValid
