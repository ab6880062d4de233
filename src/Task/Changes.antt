-- ===== src/Task/Changes.antt =====
-- The first half of `EnsureDatabasesAreCreated` of handlers/task/redis_handler.go: which databases
-- to delete, update and create.
pub mod Updates
use kube_stager.Base.{
  ℕ, Bool, true, false, not, ◌&&◌, Option, none, some, List, [], ◌∷◌, ◌++◌, Text, bytes, text_eq,
  is_empty, is_nil, pos, if◌then◌else◌, Assoc, lookup, insert, remove,
}
use kube_stager.Api.{
  ObjectMeta, StagingSite, StagingSiteService, StagingSiteServiceStatus, ServiceConfig, RedisConfig,
  RedisDatabase, RedisDatabaseSpec, EnvironmentConfig, TaskState, label_site, label_service,
  label_redis_environment,
}
use kube_stager.Names.{shorten_human_readable_value}
use kube_stager.Controller.{
  Result, ok, err, ◌>>=◌, Error, controller_error, database_creation_error, redis,
}
use kube_stager.Task.Allocation.{get_first_free_database_in_environment}
use kube_stager.Task.Database.{
  Write, deleted, created, updated, RedisApi, matches, update_from_expected, get_populated_database,
}

-- The databases that the site's services ask for, by the name of the service.
unfoldable pub expected_databases :
    RedisApi
    → StagingSite
    → Assoc StagingSiteService
    → Assoc RedisDatabase
    → Result (Assoc RedisDatabase)
unfolding get_populated_database
expected_databases api site [] expected = ok expected
expected_databases api site ((name, service) ∷ services) expected =
    elim (is_empty service.redis_environment) [
      | true ↦ expected_databases api site services expected
      | false ↦ api.get_service_config name >>= λ config.
          get_populated_database api site config service.redis_environment >>= λ database.
          expected_databases api site services (insert name database expected)
    ]

-- The three maps of the changes to make.
pub record Changes : Type 0 where
  pub to_delete : Assoc RedisDatabase
  pub to_update : Assoc RedisDatabase
  pub to_create : Assoc RedisDatabase

unfoldable pub first_free : RedisApi → List Write → EnvironmentConfig → Result ℕ
unfolding get_first_free_database_in_environment
first_free api writes config =
    get_first_free_database_in_environment (api.get_redis_config config.environment)
      (api.list_in_environment writes config.environment) config

-- The number that is searched for an updated database is assigned to the loop's variable
-- `expectedDatabase`, of which nothing is read again.
note_expected : RedisApi → RedisDatabase → RedisDatabase → Changes → Result Changes
unfolding first_free matches
note_expected api database expected changes =
    let service = database.spec.environment_config.service_name in
    let updated = update_from_expected database expected in
    let remaining = record changes { to_create = remove service changes.to_create } in
    if matches expected database
    then ok remaining
    else first_free api [] updated.spec.environment_config >>= λ _.
        ok (record remaining { to_update = insert service updated changes.to_update })

note_database : RedisApi → RedisDatabase → Changes → Result Changes
unfolding note_expected
note_database api database changes =
    let service = database.spec.environment_config.service_name in
    elim (lookup service changes.to_create) [
      | some expected ↦ note_expected api database expected changes
      | none ↦ ok (record changes { to_delete = insert service database changes.to_delete })
    ]

unfoldable pub note_databases : RedisApi → List RedisDatabase → Changes → Result Changes
unfolding note_database
note_databases api [] changes = ok changes
note_databases api (database ∷ list) changes =
    note_database api database changes >>= note_databases api list

abbrev pub no_changes : Changes → Bool
no_changes changes =
    is_nil changes.to_delete && (is_nil changes.to_create && is_nil changes.to_update)

unfoldable pub changes_for : RedisApi → StagingSite → Result Changes
unfolding expected_databases note_databases
changes_for api site = api.list_for_site >>= λ list.
    expected_databases api site site.spec.services [] >>= λ expected.
    note_databases api list (record { to_delete = []; to_update = []; to_create = expected })
