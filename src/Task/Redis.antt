-- ===== src/Task/Redis.antt =====
-- The loops of `EnsureDatabasesAreCreated` of handlers/task/redis_handler.go, which make the changes,
-- and `EnsureDatabasesAreReady`.
pub mod Created
pub mod Ready
pub mod Complete
pub mod Updated
use kube_stager.Base.{
  ℕ, Bool, true, false, not, ◌&&◌, Option, none, some, List, [], ◌∷◌, ◌++◌, Text, bytes, text_eq,
  is_empty, pos, if◌then◌else◌, Assoc, lookup, insert, remove,
}
use kube_stager.Api.{
  ObjectMeta, StagingSite, StagingSiteService, status_or_zero, ServiceConfig, RedisConfig,
  RedisDatabase, RedisDatabaseSpec, EnvironmentConfig, TaskState, label_site, label_service,
  label_redis_environment,
}
use kube_stager.Names.{shorten_human_readable_value}
use kube_stager.Controller.{
  Result, ok, err, ◌>>=◌, Error, controller_error, database_creation_error, redis,
}
use kube_stager.Task.Allocation.{get_first_free_database_in_environment}
use kube_stager.Task.Database.{
  Write, deleted, created, updated, RedisApi, matches, update_from_expected, get_populated_database,
}
use kube_stager.Task.Changes.{Changes, first_free, no_changes, changes_for}

-- What has been done: the writes, the latest first, and the site with the numbers in its status.
pub record Progress : Type 0 where
  pub writes : List Write
  pub site : StagingSite

abbrev set_number : StagingSite → Text → ℕ → StagingSite
set_number site service n =
    let status = status_or_zero (lookup service site.status.services) in
    record site {
      status = record site.status {
        services =
            insert service (record status { redis_database_number = n }) site.status.services;
      };
    }

abbrev pub numbered : RedisDatabase → ℕ → RedisDatabase
numbered database n = record database { spec = record database.spec { database_number = n } }

abbrev pub written : Write → Text → ℕ → Progress → Progress
written write service n progress = record {
  writes = write ∷ progress.writes;
  site = set_number progress.site service n;
}

-- The three loops, each ended by its first error.
unfoldable pub delete_all : RedisApi → Assoc RedisDatabase → Progress → Progress × Option Error
delete_all api [] progress = (progress, none)
delete_all api ((service, database) ∷ rest) progress = elim (api.accepts (deleted database)) [
  | some e ↦ (progress, some e)
  | none ↦ delete_all api rest (record progress { writes = deleted database ∷ progress.writes })
]

unfoldable pub create_all : RedisApi → Assoc RedisDatabase → Progress → Progress × Option Error
unfolding first_free
create_all api [] progress = (progress, none)
create_all api ((service, database) ∷ rest) progress =
    elim (first_free api progress.writes database.spec.environment_config) [
      | err e ↦ (progress, some e)
      | ok n ↦ elim (api.accepts (created (numbered database n))) [
        | some e ↦ (progress, some e)
        | none ↦ create_all api rest (written (created (numbered database n)) service n progress)
      ]
    ]

unfoldable pub update_all : RedisApi → Assoc RedisDatabase → Progress → Progress × Option Error
update_all api [] progress = (progress, none)
update_all api ((service, database) ∷ rest) progress = elim (api.accepts (updated database)) [
  | some e ↦ (progress, some e)
  | none ↦
      update_all api rest
        (written (updated database) service database.spec.database_number progress)
]

abbrev then_run :
    (Progress → Progress × Option Error) → Progress × Option Error → Progress × Option Error
then_run next (progress, some e) = (progress, some e)
then_run next (progress, none) = next progress

unfoldable pub apply_changes : RedisApi → Changes → Progress → Progress × Option Error
unfolding delete_all create_all update_all
apply_changes api changes progress =
    then_run (update_all api changes.to_update)
      (then_run (create_all api changes.to_create) (delete_all api changes.to_delete progress))

abbrev answer_of : Bool → Progress × Option Error → Progress × Result Bool
answer_of complete (progress, some e) = (progress, err e)
answer_of complete (progress, none) = (progress, ok complete)

unfoldable pub ensure_databases_are_created : RedisApi → StagingSite → Progress × Result Bool
unfolding changes_for apply_changes
ensure_databases_are_created api site =
    let start : Progress = record { writes = []; site = site } in
    elim (changes_for api site) [
      | err e ↦ (start, err e)
      | ok changes ↦ answer_of (no_changes changes) (apply_changes api changes start)
    ]

-- `EnsureDatabasesAreReady`, of the databases that the API server lists.
abbrev pub is_failed : TaskState → Bool
is_failed TaskState.failed = true
is_failed _ = false

abbrev pub is_complete : TaskState → Bool
is_complete TaskState.complete = true
is_complete _ = false

abbrev failed_database : RedisDatabase → Error
failed_database database = controller_error (
    database_creation_error redis database.spec.environment_config
      (bytes "No free databases found in environment"))

all_ready : List RedisDatabase → Bool → Result Bool
all_ready [] ready = ok ready
all_ready (database ∷ list) ready = elim (is_failed database.state) [
  | true ↦ err (failed_database database)
  | false ↦ all_ready list (ready && is_complete database.state)
]

unfoldable pub ensure_databases_are_ready : RedisApi → Result Bool
unfolding all_ready
ensure_databases_are_ready api = api.list_for_site >>= λ list. all_ready list true
