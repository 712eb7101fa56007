-- ===== src/Agent/Model/Gateway.antt =====
-- packages/agent/src/model/model-gateway.ts. A provider is what its `complete` resolves or rejects
-- with; the gateway's own state is the usage of each member. The calls that reach a provider are
-- kept as a list of the providers' names.
pub mod Admission
pub mod Metering
pub mod Quota
use workspace_os.Base.{
  ℕ, ◌+◌, String, Bool, true, false, ◌&&◌, List, ◌∷◌, [], ◌++◌, Option, none, some, Result, ok, err,
  ◌>>=◌, ◌>>◌, if◌then◌else◌, or_else, ◌==◌, leb,
}
use workspace_os.Base.Number.{Number}
use workspace_os.Base.Maps.{lookup, insert}

pub data ModelMessageRole : Type 0 where
  system user assistant tool : ModelMessageRole

pub record ModelMessage : Type 0 where
  pub role : ModelMessageRole
  pub content : String

pub record ModelCompletionRequest : Type 0 where
  pub model : String
  pub messages : List ModelMessage
  pub max_tokens : Option Number
  pub temperature : Option Number

pub record ModelUsage : Type 0 where
  pub prompt_tokens : ℕ
  pub completion_tokens : ℕ

pub record ModelCompletionResult : Type 0 where
  pub content : String
  pub usage : ModelUsage

pub record ModelRoute : Type 0 where
  pub provider_name : String
  pub model : String

pub record GatewayCompletionRequest : Type 0 where
  pub member_id : String
  pub task : String
  pub messages : List ModelMessage
  pub max_tokens : Option Number
  pub temperature : Option Number

pub record MemberUsage : Type 0 where
  pub prompt_tokens : ℕ
  pub completion_tokens : ℕ
  pub total_tokens : ℕ

module _ (Failure : Type 0) where
  pub record RegisteredProvider : Type 0 where
    pub complete : ModelCompletionRequest → Result Failure ModelCompletionResult
    pub external : Bool

  -- `providers` and `routing` are plain objects, read at their own keys.
  pub record ModelGatewayConfig : Type 0 where
    pub providers : List (String × RegisteredProvider)
    pub routing : List (String × ModelRoute)
    pub no_egress : Bool
    pub quota_tokens_per_member : Option ℕ

  pub data GatewayError : Type 0 where
    unknown_task : String → GatewayError
    unknown_provider : String → String → GatewayError
    no_egress_violation : String → GatewayError
    quota_exceeded : String → GatewayError
    provider_failed : Failure → GatewayError

pub record GatewayState : Type 0 where
  pub usage : List (String × MemberUsage)
  pub calls : List String

abbrev pub no_usage : MemberUsage
no_usage = record { prompt_tokens = 0; completion_tokens = 0; total_tokens = 0 }

unfoldable pub usage_for : List (String × MemberUsage) → String → MemberUsage
usage_for usage member_id = or_else (lookup member_id usage) no_usage

unfoldable pub meter :
    List (String × MemberUsage) → String → ModelCompletionResult → List (String × MemberUsage)
meter usage member_id result =
    let current = usage_for usage member_id in
    let prompt = current.prompt_tokens + result.usage.prompt_tokens in
    let completion = current.completion_tokens + result.usage.completion_tokens in
    insert member_id
      (record {
        prompt_tokens = prompt;
        completion_tokens = completion;
        total_tokens = prompt + completion;
      })
      usage

-- `quotaTokensPerMember !== undefined && total >= quotaTokensPerMember`
abbrev pub over_quota : Option ℕ → MemberUsage → Bool
over_quota none u = false
over_quota (some quota) u = leb quota u.total_tokens

abbrev pub provider_request : ModelRoute → GatewayCompletionRequest → ModelCompletionRequest
provider_request route request = record {
  model = route.model;
  messages = request.messages;
  max_tokens = request.max_tokens;
  temperature = request.temperature;
}

module _ {Failure : Type 0} where
  -- the four checks, and what they let through
  unfoldable pub admit :
      ModelGatewayConfig Failure
      → List (String × MemberUsage)
      → GatewayCompletionRequest
      → Result (GatewayError Failure) (ModelRoute × RegisteredProvider Failure)
  admit config usage request = elim (lookup request.task config.routing) [
    | none ↦ err (unknown_task request.task)
    | some route ↦ elim (lookup route.provider_name config.providers) [
      | none ↦ err (unknown_provider request.task route.provider_name)
      | some registered ↦
          if config.no_egress && registered.external
          then err (no_egress_violation route.provider_name)
          else if over_quota config.quota_tokens_per_member (usage_for usage request.member_id)
          then err (quota_exceeded request.member_id)
          else ok (route, registered)
    ]
  ]

  -- the provider's answer is metered; its failure is thrown on
  unfoldable pub settle :
      GatewayState
      → GatewayCompletionRequest
      → Result Failure ModelCompletionResult
      → Result (GatewayError Failure) ModelCompletionResult × GatewayState
  settle s request (err e) = (err (provider_failed e), s)
  settle s request (ok result) =
      (ok result, record s { usage = meter s.usage request.member_id result })

  unfoldable pub complete :
      ModelGatewayConfig Failure
      → GatewayState
      → GatewayCompletionRequest
      → Result (GatewayError Failure) ModelCompletionResult × GatewayState
  complete config s request = elim (admit config s.usage request) [
    | err e ↦ (err e, s)
    | ok (route, registered) ↦
        settle (record s { calls = s.calls ++ route.provider_name ∷ [] }) request
          (registered.complete (provider_request route request))
  ]

  -- requests that are completed one after the other
  unfoldable pub serve :
      ModelGatewayConfig Failure → GatewayState → List GatewayCompletionRequest → GatewayState
  serve config s [] = s
  serve config s (request ∷ more) = serve config (complete config s request).1 more
