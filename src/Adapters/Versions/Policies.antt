-- ===== src/Adapters/Versions/Policies.antt =====
-- drizzle-policy-repository.ts: the rows of policies.
use workspace_os.Base.{List, ℕ, String, Option, none, some, Result, ok, err, map, refl, ◌>>=◌, ◌≡◌}
use workspace_os.Base.Number.{of_ℕ}
use workspace_os.Governance.Action.{ActionDefinition}
use workspace_os.Governance.PolicyDefinition
use workspace_os.Governance.PolicyDefinition.{PolicyDefinition, InvalidPolicyError, to_json}
use workspace_os.Governance.PolicyDefinition.Laws.{IsValid, policy_round_trip}
use workspace_os.Adapters.Versions.{
  VersionRow, version_conflict, find_row, save_version, find_latest_row,
}
use workspace_os.Adapters.Versions.Laws.{save_each, saved_row_stays, saved_fits}

abbrev pub row_of : PolicyDefinition → VersionRow (List ActionDefinition)
row_of p = record { id = p.policy_id; version = p.version; columns = p.actions }

unfoldable pub to_policy :
    VersionRow (List ActionDefinition) → Result InvalidPolicyError PolicyDefinition
to_policy row =
    PolicyDefinition.create
      (record { policy_id = row.id; actions = row.columns; version = some (of_ℕ row.version) })

unfoldable pub read :
    Option (VersionRow (List ActionDefinition))
    → Result InvalidPolicyError (Option PolicyDefinition)
read none = ok none
read (some row) = do policy ← to_policy row; ok (some policy)

unfoldable pub find_version :
    String
    → ℕ
    → List (VersionRow (List ActionDefinition))
    → Result InvalidPolicyError (Option PolicyDefinition)
find_version id version rows = read (find_row id version rows)

unfoldable pub find_latest :
    String
    → List (VersionRow (List ActionDefinition))
    → Result InvalidPolicyError (Option PolicyDefinition)
find_latest id rows = read (find_latest_row id rows)

policy_back : (p : PolicyDefinition) → IsValid p → read (some (row_of p)) ≡ ok (some p)
unfolding read to_policy to_json
policy_back p v = rw (policy_round_trip p v)

-- Once a valid policy was saved as a version, that id and version find exactly that policy after any
-- number of later saves, of whatever policies and whether or not they are refused; and whatever is
-- then saved under that id and version is refused as a conflict.
pub saved_policy_stays :
    (p : PolicyDefinition) (more : List PolicyDefinition)
    (rows rows' : List (VersionRow (List ActionDefinition)))
    → IsValid p
    → save_version (row_of p) rows ≡ ok rows'
    → (find_version p.policy_id p.version (save_each (map row_of more) rows') ≡ ok (some p))
      × ((q : PolicyDefinition)
          → q.policy_id ≡ p.policy_id
          → q.version ≡ p.version
          → save_version (row_of q) (save_each (map row_of more) rows')
            ≡ err (version_conflict p.policy_id p.version))
unfolding find_version save_version
saved_policy_stays p more rows rows' v h =
    let (found, refused) = saved_row_stays (row_of p) (map row_of more) rows rows' h in
    let fits = saved_fits (row_of p) rows rows' h in
    (
      rw found (policy_back p v),
      λ q same_id same_version.
          rw (same_id, same_version, fits, found, save_version) (rw (same_id, same_version) refl),
    )
