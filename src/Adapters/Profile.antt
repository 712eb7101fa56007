-- ===== src/Adapters/Profile.antt =====
-- packages/adapters/src/profile and src/secrets-broker/env-secrets-broker.ts: which adapters a
-- profile selects, and the secrets of the environment. The environment is the function that reads a
-- variable; an adapter that is handed in is of any type.
pub mod Laws
use Prim.Native.String.{◌++◌ as text_append}
use workspace_os.Base.{
  String, Bool, Option, none, some, Result, ok, err, ◌>>=◌, or_else, if◌then◌else◌, ◌==◌,
}
use workspace_os.Adapters.Sandbox.{DockerSandboxRunnerOptions, default_options}

abbrev pub Env : Type 0
Env = String → Option String

pub data Profile : Type 0 where
  simple hardened : Profile

abbrev pub profile_name : Profile → String
profile_name simple = "simple"
profile_name hardened = "hardened"

pub data ProfileError : Type 0 where
  invalid_profile : String → ProfileError
  unsupported_adapter : String → String → ProfileError

unfoldable pub resolve_profile : Env → Result ProfileError Profile
resolve_profile env =
    let value = or_else (env "PROFILE") "simple" in
    if value == "simple"
    then ok simple
    else if value == "hardened"
    then ok hardened
    else err (invalid_profile value)

pub data ObjectStoreAdapter (O : Type 0) : Type 0 where
  given_store : O → ObjectStoreAdapter O
  filesystem_store : String → ObjectStoreAdapter O

pub data SecretsAdapter (S : Type 0) : Type 0 where
  given_broker : S → SecretsAdapter S
  env_broker : String → SecretsAdapter S

pub data SandboxAdapter (R : Type 0) : Type 0 where
  given_runner : R → SandboxAdapter R
  docker_runner : DockerSandboxRunnerOptions → SandboxAdapter R

unfoldable pub create_object_store :
    {O : Type 0} → Profile → Env → Option O → Result ProfileError (ObjectStoreAdapter O)
create_object_store profile env (some store) = ok (given_store store)
create_object_store simple env none =
    ok (filesystem_store (or_else (env "OBJECT_STORE_ROOT") "./.data/objects"))
create_object_store hardened env none =
    err (unsupported_adapter "ObjectStore" (profile_name hardened))

unfoldable pub create_secrets_broker : {S : Type 0} → Profile → Env → Option S → SecretsAdapter S
create_secrets_broker profile env (some broker) = given_broker broker
create_secrets_broker profile env none = env_broker (or_else (env "SECRETS_PREFIX") "")

unfoldable pub create_sandbox_runner : {R : Type 0} → Profile → Option R → SandboxAdapter R
create_sandbox_runner profile (some runner) = given_runner runner
create_sandbox_runner simple none = docker_runner default_options
create_sandbox_runner hardened none =
    docker_runner (record default_options { runtime = some "runsc" })

module _ (O S R : Type 0) where
  pub record AdapterOverrides : Type 0 where
    pub object_store : Option O
    pub secrets_broker : Option S
    pub sandbox_runner : Option R

  -- A queue is the Postgres one in both profiles: it is in Adapters.Queue.
  pub record AdapterSet : Type 0 where
    pub profile : Profile
    pub object_store : ObjectStoreAdapter O
    pub secrets_broker : SecretsAdapter S
    pub sandbox_runner : SandboxAdapter R

  unfoldable pub create_adapters : Env → AdapterOverrides → Result ProfileError AdapterSet
  create_adapters env overrides = do
    profile ← resolve_profile env
    object_store ← create_object_store profile env overrides.object_store
    ok (record {
      profile = profile;
      object_store = object_store;
      secrets_broker = create_secrets_broker profile env overrides.secrets_broker;
      sandbox_runner = create_sandbox_runner profile overrides.sandbox_runner;
    })

pub data SecretNotFoundError : Type 0 where
  secret_not_found : String → SecretNotFoundError

-- of a broker with the prefix
unfoldable pub try_get : Env → String → String → Option String
try_get env prefix name = env (text_append prefix name)

unfoldable pub get : Env → String → String → Result SecretNotFoundError String
get env prefix name = elim (try_get env prefix name) [
  | none ↦ err (secret_not_found name)
  | some value ↦ ok value
]
