-- ===== src/Adapters/Versions.antt =====
-- packages/adapters/src/repository/drizzle-policy-repository.ts and drizzle-persona-repository.ts, on
-- the tables `policy_versions` and `persona_versions` of db/schema.ts. The two classes run the same
-- statements, so these are written once, for rows with an id and a version: the primary key.
pub mod Laws
pub mod Policies
pub mod Personas
use workspace_os.Base.{
  ℕ, String, Bool, true, false, not, ◌&&◌, List, ◌∷◌, [], ◌++◌, Option, none, some, Result, ok, err,
  ◌>>=◌, if◌then◌else◌, ◌==◌, eqb, ltb,
}

-- The id and the version that exist already; or a version that does not fit the 4 bytes of its column,
-- where the statement fails.
pub data VersionSaveError : Type 0 where
  version_conflict : String → ℕ → VersionSaveError
  version_out_of_range : ℕ → VersionSaveError

pub record VersionRow (R : Type 0) : Type 0 where
  pub id : String
  pub version : ℕ
  pub columns : R

module _ {R : Type 0} where
  abbrev pub is_version : String → ℕ → VersionRow R → Bool
  is_version id version row = row.id == id && eqb row.version version

  -- `where id = $1 and version = $2 limit 1`
  unfoldable pub find_row : String → ℕ → List (VersionRow R) → Option (VersionRow R)
  find_row id version [] = none
  find_row id version (row ∷ rows) =
      let rest = find_row id version rows in if is_version id version row then some row else rest

  -- `insert ... on conflict do nothing returning version`: nothing is returned on a conflict
  unfoldable pub save_version :
      VersionRow R → List (VersionRow R) → Result VersionSaveError (List (VersionRow R))
  save_version row rows =
      if not (ltb row.version 2147483648)
      then err (version_out_of_range row.version)
      else elim (find_row row.id row.version rows) [
        | some old ↦ err (version_conflict row.id row.version)
        | none ↦ ok (row ∷ rows)
      ]

  abbrev pub later : VersionRow R → Option (VersionRow R) → VersionRow R
  later row none = row
  later row (some other) = if ltb row.version other.version then other else row

  -- `where id = $1 order by version desc limit 1`
  unfoldable pub find_latest_row : String → List (VersionRow R) → Option (VersionRow R)
  find_latest_row id [] = none
  find_latest_row id (row ∷ rows) =
      let rest = find_latest_row id rows in if row.id == id then some (later row rest) else rest
