-- ===== src/Adapters/Activity.antt =====
-- packages/adapters/src/activity/drizzle-activity-log.ts, on the table `activities` of db/schema.ts,
-- with the interface of packages/core/src/ports/activity-log.ts. The id and the time of a row are
-- the database's. The metadata that the code of the repository passes are texts.
pub mod Listing
use workspace_os.Base.{
  String, Bool, true, false, ◌&&◌, ◌||◌, ◌==◌, ltb, eqb, List, ◌∷◌, [], ◌++◌, Option, Result, ok,
  err, or_else, ℕ, if◌then◌else◌,
}
use workspace_os.Base.Sets.{has}
use workspace_os.Base.Sort.{sort_by}
use workspace_os.Core.Member.{Member, MemberType}

pub record RecordActivityInput : Type 0 where
  pub actor : Member
  pub action : String
  pub resource_type : String
  pub resource_id : String
  pub metadata : Option (List (String × String))

pub record ActivityRecord : Type 0 where
  pub id : String
  pub actor_member_id : String
  pub actor_type : MemberType
  pub action : String
  pub resource_type : String
  pub resource_id : String
  pub metadata : List (String × String)
  pub occurred_at : ℕ

pub data UnknownActorError : Type 0 where
  unknown_actor : String → UnknownActorError

-- `members` are the ids that the foreign key `actor_member_id` may refer to
unfoldable pub record_activity :
    List String
    → String
    → ℕ
    → RecordActivityInput
    → List ActivityRecord
    → Result UnknownActorError (List ActivityRecord)
record_activity members id occurred_at input log =
    if has members input.actor.id
    then ok (
        log
        ++ record {
          id = id;
          actor_member_id = input.actor.id;
          actor_type = input.actor.type;
          action = input.action;
          resource_type = input.resource_type;
          resource_id = input.resource_id;
          metadata = or_else input.metadata [];
          occurred_at = occurred_at;
        }
          ∷ [])
    else err (unknown_actor input.actor.id)

-- `where test`
unfoldable pub where_records : (ActivityRecord → Bool) → List ActivityRecord → List ActivityRecord
where_records test [] = []
where_records test (r ∷ log) =
    let rest = where_records test log in if test r then r ∷ rest else rest

abbrev pub is_of_actor : String → ActivityRecord → Bool
is_of_actor actor_member_id r = r.actor_member_id == actor_member_id

abbrev pub is_of_resource : String → String → ActivityRecord → Bool
is_of_resource resource_type resource_id r =
    r.resource_type == resource_type && r.resource_id == resource_id

-- `id_before` is the database's order of the ids
module _ (id_before : String → String → Bool) where
  -- `order by occurred_at asc, id asc`
  unfoldable pub record_before : ActivityRecord → ActivityRecord → Bool
  record_before a b =
      ltb a.occurred_at b.occurred_at || (eqb a.occurred_at b.occurred_at && id_before a.id b.id)

  unfoldable pub list_by_actor : String → List ActivityRecord → List ActivityRecord
  list_by_actor actor_member_id log =
      sort_by record_before (where_records (is_of_actor actor_member_id) log)

  unfoldable pub list_by_resource : String → String → List ActivityRecord → List ActivityRecord
  list_by_resource resource_type resource_id log =
      sort_by record_before (where_records (is_of_resource resource_type resource_id) log)
