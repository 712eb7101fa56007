-- ===== src/Agent/Tools/Gateway/Credentials.antt =====
-- tool-gateway.ts: which secrets the gateway brokers for a call.
use workspace_os.Base.{
  String, List, ◌∷◌, [], Option, none, some, ok, err, if◌then◌else◌, ◌≡◌, refl, ap, ◌⊎◌, arith,
  eq_iff, Option-cases, inl, inr,
}
use workspace_os.Base.Sets.{has}
use workspace_os.Base.Maps.{lookup, insert, lookup-insert}
use workspace_os.Agent.Tools.Gateway.{Dict, broker}

module _ (secret : String → Option String) where
  lookup-broker :
      (start : Dict) (names : List String) (credentials : Dict) (k : String)
      → broker secret start names ≡ ok credentials
      → lookup k credentials ≡ (if has names k then secret k else lookup k start)
  unfolding broker has
  lookup-broker start [] credentials k h = ground arith
  lookup-broker start (name ∷ names) credentials k h = elim (Option-cases (secret name)) [
    | inl missing ↦ cc (rw (missing, broker) at h)
    | inr (value, found) ↦ ground (
      arith,
      lookup-broker (insert name value start) names credentials k (rw (found, broker) at h),
      lookup-insert name k value start,
      eq_iff name k,
      found,
    )
  ]

  -- The credentials of a call hold, for each secret that the tool requires, the vault's value of it,
  -- and nothing under any other name.
  pub broker_exact :
      (names : List String) (credentials : Dict)
      → broker secret [] names ≡ ok credentials
      → (k : String) → lookup k credentials ≡ (if has names k then secret k else none)
  unfolding lookup
  broker_exact names credentials h k = lookup-broker [] names credentials k h

  -- Every name is in the vault.
  abbrev pub AllThere : List String → Type 0
  AllThere [] = Unit
  AllThere (name ∷ names) = ((v : String) × (secret name ≡ some v)) × AllThere names

  -- The names before the first one that is missing are there.
  abbrev pub IsFirstMissing : String → List String → Type 0
  IsFirstMissing missing [] = ⊥
  IsFirstMissing missing (name ∷ names) =
      ((name ≡ missing) × (secret name ≡ none))
      ⊎ ((v : String) × (secret name ≡ some v) × IsFirstMissing missing names)

  broker_there :
      (start : Dict) (names : List String)
      → AllThere names
      → (credentials : Dict) × (broker secret start names ≡ ok credentials)
  unfolding broker
  broker_there start [] h = (start, refl)
  broker_there start (name ∷ names) ((v, found), rest) =
      rw (found, broker) (broker_there (insert name v start) names rest)

  broker_missing :
      (start : Dict) (names : List String) (missing : String)
      → IsFirstMissing missing names
      → broker secret start names ≡ err missing
  unfolding broker
  broker_missing start [] missing h = absurd h
  broker_missing start (name ∷ names) missing (inl (same, gone)) = rw (gone, broker) (ap err same)
  broker_missing start (name ∷ names) missing (inr (v, found, rest)) =
      rw (found, broker) (broker_missing (insert name v start) names missing rest)

  -- Brokering succeeds if the vault has every required secret; otherwise it stops at the first one
  -- that the vault does not have.
  pub broker_total :
      (names : List String)
      → (AllThere names → (credentials : Dict) × (broker secret [] names ≡ ok credentials))
        × ((missing : String) → IsFirstMissing missing names → broker secret [] names ≡ err missing)
  broker_total names = (broker_there [] names, broker_missing [] names)
