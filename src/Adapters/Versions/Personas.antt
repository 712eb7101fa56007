-- ===== src/Adapters/Versions/Personas.antt =====
-- drizzle-persona-repository.ts: the rows of personas.
use workspace_os.Base.{List, ℕ, String, Option, none, some, Result, ok, ◌>>=◌, ◌≡◌}
use workspace_os.Base.Number.{Number, finite, nan, pos_inf, neg_inf, num_lt, num_gt, of_ℕ}
use workspace_os.Core.Persona
use workspace_os.Core.Persona.{Persona, PersonaModelConfig, InvalidPersonaError, to_json}
use workspace_os.Core.Persona.Laws.{IsValid, persona_round_trip}
use workspace_os.Adapters.Versions.{VersionRow, find_row, save_version, find_latest_row}
use workspace_os.Adapters.Versions.Laws.{AllEarlier, find_row-upsert_version, latest_row}

-- A member of the JSON that a column of type `jsonb` holds. `JSON.stringify` leaves out an absent one,
-- and writes NaN and the infinities as null.
pub data JsonNumber : Type 0 where
  no_member null : JsonNumber
  json_number : Number → JsonNumber

abbrev pub to_json_number : Option Number → JsonNumber
to_json_number none = no_member
to_json_number (some (finite m k)) = json_number (finite m k)
to_json_number (some _) = null

-- The column `model`; the token limit is an integer, which JSON keeps.
pub record ModelColumn : Type 0 where
  pub model_id : String
  pub temperature : JsonNumber
  pub max_tokens : Option Number

abbrev pub model_column : PersonaModelConfig → ModelColumn
model_column model = record {
  model_id = model.model_id;
  temperature = to_json_number model.temperature;
  max_tokens = model.max_tokens;
}

-- The columns of a persona's row besides the key.
pub record PersonaColumns : Type 0 where
  pub name : String
  pub role : String
  pub system_prompt : String
  pub allowed_tools : List String
  pub model : ModelColumn

abbrev pub row_of : Persona → VersionRow PersonaColumns
row_of p = record {
  id = p.persona_id;
  version = p.version;
  columns = record {
    name = p.name;
    role = p.role;
    system_prompt = p.system_prompt;
    allowed_tools = p.allowed_tools;
    model = model_column p.model;
  };
}

-- What a read finds: a persona, or one whose temperature is null, which is none of the values that
-- its type has; that persona is here without the temperature.
pub data FoundPersona : Type 0 where
  with_number with_null : Persona → FoundPersona

abbrev pub found_as : JsonNumber → Persona → FoundPersona
found_as null = with_null
found_as _ = with_number

-- null is neither below 0 nor above 2, so `Persona.create` accepts it as it does no temperature
abbrev pub read_number : JsonNumber → Option Number
read_number (json_number x) = some x
read_number _ = none

unfoldable pub to_persona : VersionRow PersonaColumns → Result InvalidPersonaError FoundPersona
to_persona row = do
  persona ← Persona.create (record {
    persona_id = row.id;
    name = row.columns.name;
    role = row.columns.role;
    system_prompt = row.columns.system_prompt;
    allowed_tools = row.columns.allowed_tools;
    model = record {
      model_id = row.columns.model.model_id;
      temperature = read_number row.columns.model.temperature;
      max_tokens = row.columns.model.max_tokens;
    };
    version = some (of_ℕ row.version);
  })
  ok (found_as row.columns.model.temperature persona)

unfoldable pub read :
    Option (VersionRow PersonaColumns) → Result InvalidPersonaError (Option FoundPersona)
read none = ok none
read (some row) = do persona ← to_persona row; ok (some persona)

unfoldable pub find_version :
    String → ℕ → List (VersionRow PersonaColumns) → Result InvalidPersonaError (Option FoundPersona)
find_version id version rows = read (find_row id version rows)

unfoldable pub find_latest :
    String → List (VersionRow PersonaColumns) → Result InvalidPersonaError (Option FoundPersona)
find_latest id rows = read (find_latest_row id rows)

-- What a persona is once it was stored: a temperature that is NaN is lost.
abbrev pub stored : Option Number → Persona → FoundPersona
stored (some nan) p = with_null (record p { model = record p.model { temperature = none } })
stored _ p = with_number p

-- The persona with a temperature.
abbrev heated : Option Number → Persona → Persona
heated t p = record p { model = record p.model { temperature = t } }

-- What is read of a persona with the temperature, whatever it is.
heated_back :
    (t : Option Number) (p : Persona)
    → IsValid (heated t p)
    → read (some (row_of (heated t p))) ≡ ok (some (stored t (heated t p)))
unfolding read to_persona to_json num_lt num_gt
heated_back none p v = rw (persona_round_trip (heated none p) v)
heated_back (some (finite m k)) p v = rw (persona_round_trip (heated (some (finite m k)) p) v)
heated_back (some nan) p v = rw (
    persona_round_trip (heated none p) (record {
      persona_id = v.persona_id;
      name = v.name;
      role = v.role;
      system_prompt = v.system_prompt;
      tools = v.tools;
      model = record {
        model_id = v.model.model_id;
        temperature = tt;
        max_tokens = v.model.max_tokens;
      };
      version = v.version;
    }))
heated_back (some pos_inf) p v = cc v.model.temperature.1
heated_back (some neg_inf) p v = cc v.model.temperature.0

persona_back :
    (p : Persona) → IsValid p → read (some (row_of p)) ≡ ok (some (stored p.model.temperature p))
persona_back p v = heated_back p.model.temperature p v

-- A valid persona that is saved as a version later than all versions of its id is the latest one,
-- and the one that its id and version find, as it is, unless its temperature is NaN: then null is
-- stored, and the persona that is found has the temperature null.
pub saved_persona_is_latest :
    (p : Persona) (rows rows' : List (VersionRow PersonaColumns))
    → IsValid p
    → save_version (row_of p) rows ≡ ok rows'
    → AllEarlier p.persona_id p.version rows
    → (find_latest p.persona_id rows' ≡ ok (some (stored p.model.temperature p)))
      × (find_version p.persona_id p.version rows' ≡ ok (some (stored p.model.temperature p)))
unfolding find_latest find_version
saved_persona_is_latest p rows rows' v h early = (
  rw (latest_row (row_of p) rows rows' h early) (persona_back p v),
  rw ((find_row-upsert_version (row_of p) rows rows' h).0) (persona_back p v),
)
