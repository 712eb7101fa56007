-- ===== src/Adapters/Profile/Laws.antt =====
-- create-adapters.ts: what each profile is wired with, and that what is not wired is refused.
use workspace_os.Base.{
  String, List, ◌∷◌, ◌++◌, Option, none, some, Result, ok, err, or_else, if◌then◌else◌, ◌==◌,
  eq_iff, ◌≡◌, ◌≢◌, refl, sym, ap, ◌∙◌, ◌>>=◌, arith, inl, inr, Option-cases,
}
use workspace_os.Adapters.Sandbox.{
  DockerSandboxRunnerOptions, default_options, SandboxRunOptions, args, fixed_args, env_args,
  runtime_args,
}
use workspace_os.Adapters.Profile.{
  Env, Profile, simple, hardened, ProfileError, invalid_profile, unsupported_adapter,
  resolve_profile, ObjectStoreAdapter, given_store, filesystem_store, docker_runner,
  create_object_store, create_sandbox_runner, create_secrets_broker, AdapterOverrides, AdapterSet,
  create_adapters,
}

-- What a profile has for an object store when none is handed in.
abbrev pub own_store : {O : Type 0} → Profile → Env → Option (ObjectStoreAdapter O)
own_store simple env = some (filesystem_store (or_else (env "OBJECT_STORE_ROOT") "./.data/objects"))
own_store hardened env = none

-- The store is the one that is handed in, or else the profile's own.
abbrev pub store_of : {O : Type 0} → Option O → Profile → Env → Option (ObjectStoreAdapter O)
store_of (some store) profile env = some (given_store store)
store_of none profile env = own_store profile env

-- The variable names one of the two profiles; if it is not set it is the simple one.
abbrev pub named_profile : Option String → Option Profile
named_profile none = some simple
named_profile (some value) =
    if value == "simple" then some simple else if value == "hardened" then some hardened else none

name_tests :
    (value : String) (p : Profile)
    → named_profile (some value) ≡ some p
    → (if value == "simple"
        then ok simple
        else if value == "hardened"
        then ok hardened
        else err (invalid_profile value))
      ≡ ok p
name_tests value p h = ground (arith, h)

profile_named :
    (env : Env) (p : Profile) → named_profile (env "PROFILE") ≡ some p → resolve_profile env ≡ ok p
unfolding resolve_profile
profile_named env p h = elim (Option-cases (env "PROFILE")) [
  | inl unset ↦ rw unset (ground (arith, eq_iff "simple" "simple", rw unset at h))
  | inr (value, set) ↦ rw set (name_tests value p (rw set at h))
]

unknown_profile :
    (env : Env) (value : String)
    → env "PROFILE" ≡ some value
    → named_profile (some value) ≡ none
    → resolve_profile env ≡ err (invalid_profile value)
unfolding resolve_profile
unknown_profile env value set h = rw set (ground (arith, h))

-- The command line of a run in gVisor.
abbrev pub gvisor_args : String → SandboxRunOptions → List String
gvisor_args name options =
    fixed_args default_options name options
    ++ "--runtime" ∷ "runsc" ∷ env_args options.env
    ++ options.image ∷ options.command

module _ (O S R : Type 0) where
  -- The adapters of a known profile with a store.
  abbrev pub wired :
      Env → AdapterOverrides O S R → Profile → ObjectStoreAdapter O → AdapterSet O S R
  wired env overrides profile store = record {
    profile = profile;
    object_store = store;
    secrets_broker = create_secrets_broker profile env overrides.secrets_broker;
    sandbox_runner = create_sandbox_runner profile overrides.sandbox_runner;
  }

  -- What the store of a known profile makes of the adapters.
  abbrev pub with_store :
      Env
      → AdapterOverrides O S R
      → Profile
      → Option (ObjectStoreAdapter O)
      → Result ProfileError (AdapterSet O S R)
  with_store env overrides profile none = err (unsupported_adapter "ObjectStore" "hardened")
  with_store env overrides profile (some store) = ok (wired env overrides profile store)

  known_profile :
      (env : Env) (overrides : AdapterOverrides O S R) (profile : Profile) (o : Option O)
      → (do store ← create_object_store profile env o; ok (wired env overrides profile store))
        ≡ with_store env overrides profile (store_of o profile env)
  unfolding create_object_store
  known_profile env overrides simple none = refl
  known_profile env overrides hardened none = refl
  known_profile env overrides simple (some store) = refl
  known_profile env overrides hardened (some store) = refl

  -- A value of PROFILE that names no profile is refused. With a profile that is named, or the simple
  -- one by default, the adapters are those of the profile, each replaced by the one that is handed
  -- in; only the hardened profile without an object store that is handed in is refused.
  pub create_adapters_result :
      (env : Env) (overrides : AdapterOverrides O S R)
      → ((value : String)
          → env "PROFILE" ≡ some value
          → named_profile (some value) ≡ none
          → create_adapters O S R env overrides ≡ err (invalid_profile value))
        × ((profile : Profile)
            → named_profile (env "PROFILE") ≡ some profile
            → create_adapters O S R env overrides
              ≡ with_store env overrides profile (store_of overrides.object_store profile env))
  unfolding create_adapters
  create_adapters_result env overrides = (
    λ value set unnamed. rw (unknown_profile env value set unnamed),
    λ profile named.
        rw (profile_named env profile named)
          (known_profile env overrides profile overrides.object_store),
  )

  ok_inj :
      (a b : AdapterSet O S R)
      → ◌≡◌ {A = Result ProfileError (AdapterSet O S R)} (ok a) (ok b)
      → a ≡ b
  ok_inj a b h = cc h

  not_wired :
      (a : AdapterSet O S R)
      → ◌≢◌ {A = Result ProfileError (AdapterSet O S R)}
          (err (unsupported_adapter "ObjectStore" "hardened"))
          (ok a)
  not_wired a h = cc h

  -- In the hardened profile adapters are only there with an object store that was handed in, and a
  -- sandbox runner that was not handed in runs every command in gVisor.
  pub hardened_is_confined :
      (env : Env) (overrides : AdapterOverrides O S R) (adapters : AdapterSet O S R)
      → env "PROFILE" ≡ some "hardened"
      → create_adapters O S R env overrides ≡ ok adapters
      → ((store : O) × (overrides.object_store ≡ some store)
          × (adapters.object_store ≡ given_store store))
        × (overrides.sandbox_runner ≡ none
            → (runner : DockerSandboxRunnerOptions) × (adapters.sandbox_runner
                ≡ docker_runner runner)
              × ((name : String) (options : SandboxRunOptions)
                  → args runner name options ≡ gvisor_args name options))
  unfolding create_sandbox_runner args runtime_args fixed_args
  hardened_is_confined env overrides adapters set h =
      let named : named_profile (env "PROFILE") ≡ some hardened = rw set refl in
      let wiring = sym ((create_adapters_result env overrides).1 hardened named) ∙ h in
      elim (Option-cases overrides.object_store) [
        | inl missing ↦ elim (not_wired _ (rw missing at wiring)) [ ]
        | inr (store, e) ↦
            let same = ok_inj _ _ (rw e at wiring) in
            (
              (store, e, sym (ap (λ (a : AdapterSet O S R). a.object_store) same)),
              λ own. (
                record default_options { runtime = some "runsc" },
                sym (ap (λ (a : AdapterSet O S R). a.sandbox_runner) same) ∙ rw own refl,
                λ name options. refl,
              ),
            )
      ]
