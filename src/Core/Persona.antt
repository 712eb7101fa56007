-- ===== src/Core/Persona.antt =====
-- packages/core/src/domain/persona.ts: a versioned agent persona.
pub mod Laws
use workspace_os.Base.{
  ℕ, zero, suc, ◌+◌, String, Bool, true, false, ◌||◌, List, ◌∷◌, [], Option, none, some, Result, ok,
  err, ◌>>=◌, ◌>>◌, if◌then◌else◌, or_else,
}
use workspace_os.Base.Text.{is_blank}
use workspace_os.Base.Sets.{has, set_of}
use workspace_os.Base.Int.{ℤ, pos}
use workspace_os.Base.Number.{Number, of_ℕ, as_integer, num_lt, num_gt}

pub record PersonaModelConfig : Type 0 where
  pub model_id : String
  pub temperature : Option Number
  pub max_tokens : Option Number

pub record PersonaProps : Type 0 where
  pub persona_id : String
  pub name : String
  pub role : String
  pub system_prompt : String
  pub allowed_tools : List String
  pub model : PersonaModelConfig
  pub version : Option Number

-- An absent field is `none`.
pub record PersonaRevision : Type 0 where
  pub name : Option String
  pub role : Option String
  pub system_prompt : Option String
  pub allowed_tools : Option (List String)
  pub model : Option PersonaModelConfig

pub data InvalidPersonaError : Type 0 where
  blank_field : String → InvalidPersonaError
  temperature_range : Number → InvalidPersonaError
  max_tokens_range : Number → InvalidPersonaError
  version_range : Number → InvalidPersonaError

-- `version` is a whole number of at least 1 in every persona; it is exact below 2 ^ 53.
pub record Persona : Type 0 where
  pub persona_id : String
  pub name : String
  pub role : String
  pub system_prompt : String
  pub allowed_tools : List String
  pub model : PersonaModelConfig
  pub version : ℕ

pub require_non_blank : String → String → Result InvalidPersonaError (Unit {0})
require_non_blank field value = if is_blank value then err (blank_field field) else ok tt

-- `!Number.isInteger(n) || n < 1` refuses; otherwise the whole number that `n` is
unfoldable pub at_least_one : Option ℤ → Option ℕ
at_least_one (some (pos (suc n))) = some (suc n)
at_least_one _ = none

check_temperature : Option Number → Result InvalidPersonaError (Unit {0})
check_temperature none = ok tt
check_temperature (some t) = if num_lt t 0 || num_gt t 2 then err (temperature_range t) else ok tt

check_max_tokens : Option Number → Result InvalidPersonaError (Unit {0})
check_max_tokens none = ok tt
check_max_tokens (some n) = elim (at_least_one (as_integer n)) [
  | none ↦ err (max_tokens_range n)
  | some _ ↦ ok tt
]

unfoldable pub validate_model : PersonaModelConfig → Result InvalidPersonaError (Unit {0})
unfolding require_non_blank check_temperature check_max_tokens
validate_model model = do
  require_non_blank "model.modelId" model.model_id
  check_temperature model.temperature
  check_max_tokens model.max_tokens

check_version : Number → Option ℕ → Result InvalidPersonaError ℕ
check_version version none = err (version_range version)
check_version version (some n) = ok n

-- the constructor
pub construct : PersonaProps → ℕ → Persona
construct props version = record {
  persona_id = props.persona_id;
  name = props.name;
  role = props.role;
  system_prompt = props.system_prompt;
  allowed_tools = set_of props.allowed_tools;
  model = props.model;
  version = version;
}

unfoldable pub create : PersonaProps → Result InvalidPersonaError Persona
unfolding require_non_blank construct check_version
create props = do
  require_non_blank "personaId" props.persona_id
  require_non_blank "name" props.name
  require_non_blank "role" props.role
  require_non_blank "systemPrompt" props.system_prompt
  validate_model props.model
  let version = or_else props.version (of_ℕ 1)
  v ← check_version version (at_least_one (as_integer version))
  ok (construct props v)

unfoldable pub allows_tool : Persona → String → Bool
allows_tool p tool = has p.allowed_tools tool

unfoldable pub to_json : Persona → PersonaProps
to_json p = record {
  persona_id = p.persona_id;
  name = p.name;
  role = p.role;
  system_prompt = p.system_prompt;
  allowed_tools = p.allowed_tools;
  model = p.model;
  version = some (of_ℕ p.version);
}

unfoldable pub revise : Persona → PersonaRevision → Result InvalidPersonaError Persona
unfolding to_json
revise p changes = create (record {
  persona_id = p.persona_id;
  name = or_else changes.name p.name;
  role = or_else changes.role p.role;
  system_prompt = or_else changes.system_prompt p.system_prompt;
  allowed_tools = or_else changes.allowed_tools p.allowed_tools;
  model = or_else changes.model p.model;
  version = some (of_ℕ (p.version + 1));
})
