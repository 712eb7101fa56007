-- ===== src/Governance/Action.antt =====
-- packages/governance/src/authz/action.ts: action definitions and their registry.
use workspace_os.Base.{String, Bool, List, [], ◌∷◌, Option, is_some}
use workspace_os.Base.Maps.{lookup, map_of}

pub data Consequence : Type 0 where
  routine consequential irreversible : Consequence

pub record ActionDefinition : Type 0 where
  pub name : String
  pub consequence : Consequence
  pub description : Option String
  pub required_roles : Option (List String)
  pub required_relationship : Option String

-- The `Map` from a name to its definition.
pub record ActionRegistry : Type 0 where
  pub by_name : List (String × ActionDefinition)

abbrev pub entries : List ActionDefinition → List (String × ActionDefinition)
entries [] = []
entries (def ∷ defs) = (def.name, def) ∷ entries defs

unfoldable pub of : List ActionDefinition → ActionRegistry
of definitions = record { by_name = map_of (entries definitions) }

unfoldable pub get : ActionRegistry → String → Option ActionDefinition
get r name = lookup name r.by_name

unfoldable pub has : ActionRegistry → String → Bool
has r name = is_some (get r name)
