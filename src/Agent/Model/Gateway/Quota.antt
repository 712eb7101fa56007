-- ===== src/Agent/Model/Gateway/Quota.antt =====
-- model-gateway.ts: what the token quota of a member bounds when requests are served one by one.
use workspace_os.Base.{
  ℕ, ◌+◌, ◌≤◌, ◌<◌, String, false, List, ◌∷◌, [], Option, none, some, Result, ok, err, ◌≡◌, refl,
  ◌∙◌, ◌⊎◌, inl, inr, arith, Result-cases, eq_iff,
}
use workspace_os.Base.Maps.{lookup}
use workspace_os.Agent.Model.Gateway.{
  ModelCompletionRequest, ModelCompletionResult, ModelRoute, GatewayCompletionRequest, MemberUsage,
  RegisteredProvider, ModelGatewayConfig, GatewayState, usage_for, over_quota, admit,
  provider_request, settle, complete, serve,
}
use workspace_os.Agent.Model.Gateway.Admission.{complete_refused, admit_sound}
use workspace_os.Agent.Model.Gateway.Metering.{tokens, spent, IsMetered, complete_adds}

module _ {Failure : Type 0} (config : ModelGatewayConfig Failure) (quota most : ℕ)
    (limited : config.quota_tokens_per_member ≡ some quota)
    (bounded : (name : String) (registered : RegisteredProvider Failure)
        (r : ModelCompletionRequest) (result : ModelCompletionResult)
      → lookup name config.providers ≡ some registered
      → registered.complete r ≡ ok result
      → tokens result ≤ most) where
  abbrev total : GatewayState → String → ℕ
  total s m = (usage_for s.usage m).total_tokens

  under_quota :
      (o : Option ℕ) (u : MemberUsage)
      → o ≡ some quota
      → over_quota o u ≡ false
      → u.total_tokens < quota
  under_quota none u h k = cc h
  under_quota (some q) u h k = ground arith

  answered :
      (s : GatewayState) (request : GatewayCompletionRequest) (route : ModelRoute)
      (registered : RegisteredProvider Failure) (result : Result Failure ModelCompletionResult)
      → admit config s.usage request ≡ ok (route, registered)
      → registered.complete (provider_request route request) ≡ result
      → (complete config s request).0 ≡ (settle s request result).0
  unfolding complete settle
  answered s request route registered (ok r) e f = rw (e, complete) (rw (f, settle))
  answered s request route registered (err x) e f = rw (e, complete) (rw (f, settle))

  -- A request adds nothing to a member's total, unless the member sent it while under the quota; then
  -- it adds at most one answer.
  spent_bounded :
      (s : GatewayState) (request : GatewayCompletionRequest) (m : String)
      → (spent m ((request.member_id, (complete config s request).0) ∷ []) ≡ 0)
        ⊎ ((spent m ((request.member_id, (complete config s request).0) ∷ []) ≤ most)
            × (total s m < quota))
  unfolding settle
  spent_bounded s request m = elim (Result-cases (admit config s.usage request)) [
    | inl ((route, registered), e) ↦
        let a = admit_sound config s.usage request route registered e in
        elim (Result-cases (registered.complete (provider_request route request))) [
          | inl (r, f) ↦ rw (answered s request route registered (ok r) e f) (
              ground (
                arith,
                eq_iff request.member_id m,
                bounded route.provider_name registered (provider_request route request) r a.known f,
                under_quota _ (usage_for s.usage request.member_id) limited a.under,
              ))
          | inr (x, f) ↦ inl (rw (answered s request route registered (err x) e f))
        ]
    | inr (error, e) ↦ inl (rw (complete_refused config s request error e))
  ]

  -- If no answer has more than `most` tokens, a member who is below the quota plus `most` stays
  -- below it over any sequence of requests, and a member who has reached the quota spends no more.
  pub quota_bound :
      (s : GatewayState) (requests : List GatewayCompletionRequest) (m : String)
      → IsMetered s.usage m
      → (total s m < quota + most → total (serve config s requests) m < quota + most)
        × (quota ≤ total s m → total (serve config s requests) m ≡ total s m)
  unfolding serve
  quota_bound s [] m h = (λ k. k, λ k. refl)
  quota_bound s (request ∷ more) m h =
      let (h', adds) = complete_adds config s request m h in
      let (below, kept) = quota_bound (complete config s request).1 more m h' in
      elim (spent_bounded s request m) [
        | inl nothing ↦ (
          λ k. below (omega (arith, adds, nothing)),
          λ k. kept (omega (arith, adds, nothing)) ∙ omega (arith, adds, nothing),
        )
        | inr (little, under) ↦
            (λ k. below (omega (arith, adds, little, under)), λ k. absurd (omega (arith, k, under)))
      ]
