-- ===== src/Agent/Model/Gateway/Metering.antt =====
-- model-gateway.ts: what the usage of a member adds up to, and the quota.
use workspace_os.Base.{
  ℕ, ◌+◌, String, List, ◌∷◌, [], Result, ok, err, if◌then◌else◌, ◌==◌, ◌≡◌, refl, ◌∙◌, inl, inr,
  arith, Result-cases, eq_iff, eq_refl, Bool-cases,
}
use workspace_os.Base.Maps.{lookup-insert}
use workspace_os.Agent.Model.Gateway.{
  ModelCompletionResult, GatewayCompletionRequest, MemberUsage, ModelGatewayConfig, GatewayError,
  GatewayState, usage_for, meter, admit, provider_request, settle, complete, serve,
}

abbrev pub tokens : ModelCompletionResult → ℕ
tokens r = r.usage.prompt_tokens + r.usage.completion_tokens

-- What a member spent in a list of outcomes.
abbrev pub spent :
    {Failure : Type 0}
    → String
    → List (String × Result (GatewayError Failure) ModelCompletionResult)
    → ℕ
spent m [] = 0
spent m ((n, err e) ∷ more) = spent m more
spent m ((n, ok r) ∷ more) = let rest = spent m more in if n == m then tokens r + rest else rest

-- The totals are the sums of their parts.
abbrev pub IsMetered : List (String × MemberUsage) → String → Type 0
IsMetered usage m =
    (usage_for usage m).total_tokens
    ≡ (usage_for usage m).prompt_tokens + (usage_for usage m).completion_tokens

usage_for-meter :
    (usage : List (String × MemberUsage)) (n m : String) (r : ModelCompletionResult)
    → IsMetered usage m
    → IsMetered (meter usage n r) m
      × ((usage_for (meter usage n r) m).total_tokens
          ≡ (usage_for usage m).total_tokens + (if n == m then tokens r else 0))
unfolding usage_for meter
usage_for-meter usage n m r h = elim (Bool-cases (n == m)) [
  | inl same ↦
      rw (← (eq_iff n m).0 same, lookup-insert, eq_refl)
        (refl, unfold usage_for in ground (arith, (eq_iff n m).0 same))
  | inr other ↦ rw (lookup-insert, other) (h, omega arith)
]

module _ {Failure : Type 0} (config : ModelGatewayConfig Failure) where
  -- The result of each request of a sequence, under the member who sent it.
  abbrev pub outcomes :
      GatewayState
      → List GatewayCompletionRequest
      → List (String × Result (GatewayError Failure) ModelCompletionResult)
  outcomes s [] = []
  outcomes s (request ∷ more) =
      (request.member_id, (complete config s request).0)
      ∷ outcomes (complete config s request).1 more

  settle_adds :
      (s : GatewayState) (request : GatewayCompletionRequest) (m : String)
      (r : Result Failure ModelCompletionResult)
      → IsMetered s.usage m
      → IsMetered (settle s request r).1.usage m
        × ((usage_for (settle s request r).1.usage m).total_tokens
            ≡ (usage_for s.usage m).total_tokens
              + spent m ((request.member_id, (settle s request r).0) ∷ []))
  unfolding settle
  settle_adds s request m (err e) h = (h, omega arith)
  settle_adds s request m (ok r) h =
      let (metered, total) = usage_for-meter s.usage request.member_id m r h in
      (metered, total ∙ ground arith)

  pub complete_adds :
      (s : GatewayState) (request : GatewayCompletionRequest) (m : String)
      → IsMetered s.usage m
      → IsMetered (complete config s request).1.usage m
        × ((usage_for (complete config s request).1.usage m).total_tokens
            ≡ (usage_for s.usage m).total_tokens
              + spent m ((request.member_id, (complete config s request).0) ∷ []))
  unfolding complete
  complete_adds s request m h = elim (Result-cases (admit config s.usage request)) [
    | inl ((route, registered), e) ↦
        rw (e, complete)
          (settle_adds _ request m (registered.complete (provider_request route request)) h)
    | inr (error, e) ↦ rw (e, complete) (h, omega arith)
  ]

  spent-cons :
      (m : String) (o : String × Result (GatewayError Failure) ModelCompletionResult)
      (more : List (String × Result (GatewayError Failure) ModelCompletionResult))
      → spent m (o ∷ more) ≡ spent m (o ∷ []) + spent m more
  spent-cons m (n, err e) more = omega arith
  spent-cons m (n, ok r) more = ground arith

  -- Over any sequence of requests the total of each member grows by the prompt and completion tokens
  -- of exactly those results that were returned to that member, and it stays the sum of its parts.
  pub usage_adds_up :
      (s : GatewayState) (requests : List GatewayCompletionRequest) (m : String)
      → IsMetered s.usage m
      → IsMetered (serve config s requests).usage m
        × ((usage_for (serve config s requests).usage m).total_tokens
            ≡ (usage_for s.usage m).total_tokens + spent m (outcomes s requests))
  unfolding serve
  usage_adds_up s [] m h = (h, omega arith)
  usage_adds_up s (request ∷ more) m h =
      let (h', one) = complete_adds s request m h in
      let s' = (complete config s request).1 in
      let (metered, rest) = usage_adds_up s' more m h' in
      (
        metered,
        omega (
          arith,
          one,
          rest,
          spent-cons m (request.member_id, (complete config s request).0) (outcomes s' more),
        ),
      )
