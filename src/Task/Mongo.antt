-- ===== src/Task/Mongo.antt =====
-- handlers/task/mongo_handler.go and apis/task/v1/mongodatabase_helpers.go.
use kube_stager.Base.{
  Bool, true, false, ◌&&◌, Option, none, some, List, [], ◌∷◌, Text, text_eq, is_empty, AreUnique,
  if◌then◌else◌, ◌≡◌,
}
use kube_stager.Names.{make_database_name, make_username}
use kube_stager.Api.{
  ObjectMeta, StagingSite, StagingSiteService, ServiceConfig, MongoDatabase, MongoDatabaseSpec,
  TaskState, label_site, label_service, label_mongo_environment,
}
use kube_stager.Controller.{
  Result, ok, ◌>>=◌, Error, controller_error, database_creation_error, mongo,
}
use kube_stager.Sync.{Write, Run, ensure_created, change_databases, all_complete_from}
use kube_stager.Sync.Compared.{AreDistinct}
use kube_stager.Sync.Desired.{IsDesired, change_databases-IsDesired}
use kube_stager.Jobs.{job_meta}
use kube_stager.Task.Database.{equal_maps, equal_configs}
use kube_stager.Task.Redis.{is_failed, is_complete}

-- The answers of the API server for the site.
pub record MongoApi : Type 0 where
  pub list_for_site : Result (List MongoDatabase)
  pub get_service_config : Text → Result ServiceConfig
  pub set_controller_reference : MongoDatabase → Result MongoDatabase
  pub md5_base36 : Text → Text
  pub accepts : Write MongoDatabase → Option Error

database_meta : (Text → Text) → StagingSite → ServiceConfig → Text → ObjectMeta
unfolding job_meta
database_meta md5_base36 site config environment = record (job_meta md5_base36 site config) {
  labels =
      (label_site, site.name)
      ∷ (label_service, config.name)
      ∷ (label_mongo_environment, environment)
      ∷ [];
}

unfoldable pub populate_fom_site :
    (Text → Text) → StagingSite → ServiceConfig → Text → MongoDatabase
unfolding database_meta make_database_name make_username
populate_fom_site md5_base36 site config environment = record {
  meta = database_meta md5_base36 site config environment;
  spec = record {
    environment_config = record {
      service_name = config.name;
      site_name = site.name;
      environment = environment;
    };
    database_name = make_database_name md5_base36 site config;
    username = make_username md5_base36 site config;
    password = site.spec.password;
  };
  state = TaskState.unset;
}

equal_specs : MongoDatabaseSpec → MongoDatabaseSpec → Bool
unfolding equal_configs
equal_specs a b =
    equal_configs a.environment_config b.environment_config
    && (text_eq a.database_name b.database_name
        && (text_eq a.username b.username && text_eq a.password b.password))

-- The receiver comes first.
unfoldable pub matches : MongoDatabase → MongoDatabase → Bool
unfolding equal_specs equal_maps
matches database other =
    equal_specs database.spec other.spec
    && (text_eq database.name other.name
        && (text_eq database.namespace other.namespace && equal_maps database.labels other.labels))

abbrev pub update_from_expected : MongoDatabase → MongoDatabase → MongoDatabase
update_from_expected database expected = record database {
  spec = expected.spec;
  meta = record database.meta {
    name = expected.name;
    namespace = expected.namespace;
    labels = expected.labels;
  };
}

unfoldable pub revised : MongoDatabase → MongoDatabase → Option MongoDatabase
unfolding matches
revised database expected =
    if matches expected database then none else some (update_from_expected database expected)

unfoldable pub get_populated_database :
    MongoApi → StagingSite → ServiceConfig → Text → Result MongoDatabase
unfolding populate_fom_site
get_populated_database api site config environment =
    api.set_controller_reference (populate_fom_site api.md5_base36 site config environment)

-- The database that a service asks for.
unfoldable pub wanted_database :
    MongoApi → StagingSite → Text → StagingSiteService → Result (Option MongoDatabase)
unfolding get_populated_database
wanted_database api site name service = elim (is_empty service.mongo_environment) [
  | true ↦ ok none
  | false ↦ api.get_service_config name >>= λ config.
      get_populated_database api site config service.mongo_environment >>= λ database.
      ok (some database)
]

abbrev pub service_of : MongoDatabase → Text
service_of database = database.spec.environment_config.service_name

unfoldable pub ensure_databases_are_created : MongoApi → StagingSite → Run MongoDatabase
unfolding ensure_created wanted_database change_databases revised
ensure_databases_are_created api site =
    ensure_created api.list_for_site (wanted_database api site) site.spec.services
      (change_databases service_of revised api.accepts)

mongo_failure : MongoDatabase → Error
mongo_failure database =
    controller_error (database_creation_error mongo database.spec.environment_config [])

unfoldable pub ensure_databases_are_ready : MongoApi → Result Bool
unfolding all_complete_from mongo_failure
ensure_databases_are_ready api = api.list_for_site >>= λ list.
    all_complete_from (λ database. is_failed database.state)
      (λ database. is_complete database.state) mongo_failure list true

module _ (api : MongoApi) (site : StagingSite) (list : List MongoDatabase) where
  -- A run that returns no error leaves for each service the mongo database that it asks for: the one
  -- it had, with what the site asks for if it differs, or a new one; a service that asks for none, or
  -- that the site does not have, is left with none.
  pub mongo_databases-IsDesired :
      (complete : Bool) (s : Text)
      → api.list_for_site ≡ ok list
      → AreUnique site.spec.services
      → AreDistinct service_of list
      → (ensure_databases_are_created api site).answer ≡ ok complete
      → IsDesired service_of revised
          (wanted_database api site)
          site.spec.services
          list
          (ensure_databases_are_created api site)
          s
  unfolding ensure_databases_are_created
  mongo_databases-IsDesired complete s listed unique distinct h =
      change_databases-IsDesired service_of revised (wanted_database api site) site.spec.services
        list api.list_for_site api.accepts complete s listed unique distinct h
