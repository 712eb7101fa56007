-- ===== src/Tests/Models.antt =====
-- The model gateway of packages/agent at concrete inputs.
use workspace_os.Base.{
  ◌+◌, ◌≤◌, ◌<◌, String, true, false, [], ◌∷◌, ◌++◌, none, some, Result, ok, err, ◌≡◌, ◌⊎◌, refl,
  arith, All,
}
use workspace_os.Base.Maps.{lookup, insert}
use workspace_os.Agent.Model.Gateway.{
  ModelCompletionRequest, ModelCompletionResult, ModelRoute, GatewayCompletionRequest,
  RegisteredProvider, ModelGatewayConfig, GatewayError, GatewayState, usage_for, admit, complete,
  serve, meter, settle,
}
use workspace_os.Agent.Model.Gateway.Admission.{IsAdmitted, IsLocal, serve-AllLocal, complete_calls}
use workspace_os.Agent.Model.Gateway.Metering.{IsMetered, spent, tokens, outcomes, usage_adds_up}
use workspace_os.Agent.Model.Gateway.Quota.{quota_bound}

abbrev answer_of : ModelCompletionRequest → Result String ModelCompletionResult
answer_of r =
    ok (record { content = "yes"; usage = record { prompt_tokens = 30; completion_tokens = 20 } })

abbrev local_provider : RegisteredProvider String
local_provider = record { complete = answer_of; external = false }

abbrev cloud_provider : RegisteredProvider String
cloud_provider = record { complete = answer_of; external = true }

abbrev pub config : ModelGatewayConfig String
config = record {
  providers = ("ollama", local_provider) ∷ ("claude", cloud_provider) ∷ [];
  routing =
      ("code", record { provider_name = "ollama"; model = "m-1" })
      ∷ ("plan", record { provider_name = "claude"; model = "m-2" })
      ∷ [];
  no_egress = true;
  quota_tokens_per_member = some 60;
}

abbrev codes : GatewayCompletionRequest
codes = record {
  member_id = "m_bot";
  task = "code";
  messages = [];
  max_tokens = none;
  temperature = none;
}

abbrev plans : GatewayCompletionRequest
plans = record codes { task = "plan" }

abbrev pub fresh : GatewayState
fresh = record { usage = []; calls = [] }

-- The third request meets the quota, the second one is kept inside.
serve_test :
    (serve config fresh (codes ∷ plans ∷ codes ∷ codes ∷ [])).calls ≡ "ollama" ∷ "ollama" ∷ []
unfolding serve complete admit settle meter usage_for lookup insert
serve_test = refl

serve-AllLocal_example : All (IsLocal config) (serve config fresh (codes ∷ plans ∷ [])).calls
serve-AllLocal_example = serve-AllLocal config fresh (codes ∷ plans ∷ []) refl tt

complete_calls_test :
    ((route : ModelRoute) × (registered : RegisteredProvider String) × IsAdmitted config fresh.usage
        codes route registered
      × ((complete config fresh codes).1.calls ≡ fresh.calls ++ route.provider_name ∷ []))
    ⊎ ((e : GatewayError String) × (complete config fresh codes ≡ (err e, fresh))
        × (admit config fresh.usage codes ≡ err e))
complete_calls_test = complete_calls config fresh codes

fresh_IsMetered : IsMetered fresh.usage "m_bot"
unfolding usage_for lookup
fresh_IsMetered = refl

usage_adds_up_example :
    IsMetered (serve config fresh (codes ∷ codes ∷ [])).usage "m_bot"
    × ((usage_for (serve config fresh (codes ∷ codes ∷ [])).usage "m_bot").total_tokens
        ≡ (usage_for fresh.usage "m_bot").total_tokens
          + spent "m_bot" (outcomes config fresh (codes ∷ codes ∷ [])))
usage_adds_up_example = usage_adds_up config fresh (codes ∷ codes ∷ []) "m_bot" fresh_IsMetered

answers_bounded :
    (name : String) (registered : RegisteredProvider String) (r : ModelCompletionRequest)
    (result : ModelCompletionResult)
    → lookup name config.providers ≡ some registered
    → registered.complete r ≡ ok result
    → tokens result ≤ 50
unfolding lookup
answers_bounded name registered r result h k = ground arith

quota_bound_example :
    ((usage_for fresh.usage "m_bot").total_tokens < 60 + 50
      → (usage_for (serve config fresh (codes ∷ codes ∷ [])).usage "m_bot").total_tokens < 60 + 50)
    × (60 ≤ (usage_for fresh.usage "m_bot").total_tokens
        → (usage_for (serve config fresh (codes ∷ codes ∷ [])).usage "m_bot").total_tokens
          ≡ (usage_for fresh.usage "m_bot").total_tokens)
quota_bound_example =
    quota_bound config 60 50 refl answers_bounded fresh (codes ∷ codes ∷ []) "m_bot" fresh_IsMetered
