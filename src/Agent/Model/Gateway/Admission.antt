-- ===== src/Agent/Model/Gateway/Admission.antt =====
-- model-gateway.ts: which requests reach a provider.
use workspace_os.Base.{
  String, true, false, ◌&&◌, List, ◌∷◌, [], ◌++◌, some, Result, ok, err, ◌≡◌, refl, ◌⊎◌, inl, inr,
  arith, All, Result-cases,
}
use workspace_os.Base.Maps.{lookup}
use workspace_os.Agent.Model.Gateway.{
  ModelCompletionResult, ModelRoute, GatewayCompletionRequest, MemberUsage, RegisteredProvider,
  ModelGatewayConfig, GatewayError, GatewayState, usage_for, over_quota, admit, provider_request,
  settle, complete, serve,
}

module _ {Failure : Type 0} (config : ModelGatewayConfig Failure) where
  pub record IsAdmitted (usage : List (String × MemberUsage)) (request : GatewayCompletionRequest)
      (route : ModelRoute) (registered : RegisteredProvider Failure) : Type 0 where
    pub routed : lookup request.task config.routing ≡ some route
    pub known : lookup route.provider_name config.providers ≡ some registered
    pub stays : (config.no_egress && registered.external) ≡ false
    pub under :
        over_quota config.quota_tokens_per_member (usage_for usage request.member_id) ≡ false

  pub admit_sound :
      (usage : List (String × MemberUsage)) (request : GatewayCompletionRequest)
      (route : ModelRoute) (registered : RegisteredProvider Failure)
      → admit config usage request ≡ ok (route, registered)
      → IsAdmitted usage request route registered
  unfolding admit
  admit_sound usage request route registered h = ground arith

  admit_complete :
      (usage : List (String × MemberUsage)) (request : GatewayCompletionRequest)
      (route : ModelRoute) (registered : RegisteredProvider Failure)
      → IsAdmitted usage request route registered
      → admit config usage request ≡ ok (route, registered)
  unfolding admit
  admit_complete usage request route registered h = ground arith

  -- A provider that may be called in a deployment without egress.
  abbrev pub IsLocal : String → Type 0
  IsLocal name =
      (registered : RegisteredProvider Failure) × (lookup name config.providers ≡ some registered)
      × (registered.external ≡ false)

  All-snoc :
      (calls : List String) (name : String)
      → All IsLocal calls
      → IsLocal name
      → All IsLocal (calls ++ name ∷ [])
  All-snoc [] name h k = (k, tt)
  All-snoc (c ∷ calls) name (h, hs) k = (h, All-snoc calls name hs k)

  -- The effect of a request on the gateway, by what the checks let through.
  pub complete_refused :
      (s : GatewayState) (request : GatewayCompletionRequest) (e : GatewayError Failure)
      → admit config s.usage request ≡ err e
      → complete config s request ≡ (err e, s)
  unfolding complete
  complete_refused s request e h = rw (h, complete)

  calls-settle :
      (s : GatewayState) (request : GatewayCompletionRequest)
      (r : Result Failure ModelCompletionResult)
      → (settle s request r).1.calls ≡ s.calls
  unfolding settle
  calls-settle s request (ok result) = refl
  calls-settle s request (err e) = refl

  calls-complete :
      (s : GatewayState) (request : GatewayCompletionRequest) (route : ModelRoute)
      (registered : RegisteredProvider Failure)
      → admit config s.usage request ≡ ok (route, registered)
      → (complete config s request).1.calls ≡ s.calls ++ route.provider_name ∷ []
  unfolding complete
  calls-complete s request route registered h =
      rw (h, complete)
        (calls-settle _ request (registered.complete (provider_request route request)))

  complete-AllLocal :
      (s : GatewayState) (request : GatewayCompletionRequest)
      → config.no_egress ≡ true
      → All IsLocal s.calls
      → All IsLocal (complete config s request).1.calls
  complete-AllLocal s request egress h = elim (Result-cases (admit config s.usage request)) [
    | inl ((route, registered), e) ↦
        let a = admit_sound s.usage request route registered e in
        rw (calls-complete s request route registered e)
          (All-snoc s.calls route.provider_name h (registered, a.known, ground arith))
    | inr (error, e) ↦ rw (complete_refused s request error e) h
  ]

  -- In no-egress mode no request, whatever its task and whoever sends it, reaches a provider that is
  -- registered as external: over any sequence of requests only local providers are called.
  pub serve-AllLocal :
      (s : GatewayState) (requests : List GatewayCompletionRequest)
      → config.no_egress ≡ true
      → All IsLocal s.calls
      → All IsLocal (serve config s requests).calls
  unfolding serve
  serve-AllLocal s [] egress h = h
  serve-AllLocal s (request ∷ more) egress h =
      serve-AllLocal (complete config s request).1 more egress
        (complete-AllLocal s request egress h)

  -- A request reaches the provider of its task's route exactly if the task is routed, the provider
  -- is known, it is not an external one under no-egress, and the member is under the quota, if there
  -- is one; otherwise an error is thrown, no provider is called, and no usage changes.
  pub complete_calls :
      (s : GatewayState) (request : GatewayCompletionRequest)
      → ((route : ModelRoute) × (registered : RegisteredProvider Failure) × IsAdmitted s.usage
            request route registered
          × ((complete config s request).1.calls ≡ s.calls ++ route.provider_name ∷ []))
        ⊎ ((e : GatewayError Failure) × (complete config s request ≡ (err e, s))
            × (admit config s.usage request ≡ err e))
  complete_calls s request = elim (Result-cases (admit config s.usage request)) [
    | inl ((route, registered), e) ↦ inl (
      route,
      registered,
      admit_sound s.usage request route registered e,
      calls-complete s request route registered e,
    )
    | inr (error, e) ↦ inr (error, complete_refused s request error e, e)
  ]
