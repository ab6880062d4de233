-- ===== src/Jobs/Init.antt =====
-- handlers/job/db_init_job_handler.go and apis/job/v1/dbinitjob_helpers.go.
pub mod Created
use kube_stager.Base.{
  Bool, true, false, ◌&&◌, Option, none, some, List, [], ◌∷◌, ◌++◌, Text, bytes, is_empty, is_nil,
  pos, Assoc, lookup,
}
use kube_stager.Names.{make_database_name, make_username}
use kube_stager.Api.{
  StagingSite, StagingSiteService, ServiceConfig, DbInitJob, JobState, EnvironmentConfig,
}
use kube_stager.Controller.{
  Result, ok, err, ◌>>=◌, Error, message, controller_error, database_init_error,
}
use kube_stager.Sync.{
  Write, deleted, created, Run, Changes, ensure_created, changes_from, write_all, run_writes,
  all_complete_from,
}
use kube_stager.Jobs.{job_meta}

-- The answers of the API server for the site.
pub record InitApi : Type 0 where
  pub list_for_site : Result (List DbInitJob)
  pub get_service_config : Text → Result ServiceConfig
  pub set_controller_reference : DbInitJob → Result DbInitJob
  pub md5_base36 : Text → Text
  pub accepts : Write DbInitJob → Option Error

not_in_site : Text → Error
not_in_site service = message (bytes "service " ++ (service ++ bytes " is not in the site spec"))

init_job :
    (Text → Text) → StagingSite → ServiceConfig → Text → Text → StagingSiteService → DbInitJob
unfolding job_meta make_database_name make_username
init_job md5_base36 site config mysql_environment mongo_environment service = record {
  meta = job_meta md5_base36 site config;
  spec = record {
    site_name = site.name;
    service_name = config.name;
    mysql_environment = mysql_environment;
    mongo_environment = mongo_environment;
    db_init_source = service.db_init_source_environment_name;
    database_name = make_database_name md5_base36 site config;
    username = make_username md5_base36 site config;
    password = site.spec.password;
    deadline_seconds = pos 600;
  };
  status = record { state = JobState.unset; job_not_found_count = 0; deadline_timestamp = none };
}

unfoldable pub populate_fom_site :
    (Text → Text) → StagingSite → ServiceConfig → Text → Text → Result DbInitJob
unfolding init_job not_in_site
populate_fom_site md5_base36 site config mysql_environment mongo_environment =
    elim (lookup config.name site.spec.services) [
      | none ↦ err (not_in_site config.name)
      | some service ↦
          ok (init_job md5_base36 site config mysql_environment mongo_environment service)
    ]

unfoldable pub get_populated_job :
    InitApi → StagingSite → ServiceConfig → Text → Text → Result DbInitJob
unfolding populate_fom_site
get_populated_job api site config mysql_environment mongo_environment =
    populate_fom_site api.md5_base36 site config mysql_environment mongo_environment
    >>= api.set_controller_reference

-- The job that a service asks for: one with a database and a pod spec for its initialisation.
wanted_of_config :
    InitApi → StagingSite → StagingSiteService → ServiceConfig → Result (Option DbInitJob)
unfolding get_populated_job
wanted_of_config api site service config = elim (config.spec.db_init_pod_spec) [
  | none ↦ ok none
  | some _ ↦
      get_populated_job api site config service.mysql_environment service.mongo_environment
      >>= λ job. ok (some job)
]

unfoldable pub wanted_job :
    InitApi → StagingSite → Text → StagingSiteService → Result (Option DbInitJob)
unfolding wanted_of_config
wanted_job api site name service =
    elim (is_empty service.mysql_environment && is_empty service.mongo_environment) [
      | true ↦ ok none
      | false ↦ api.get_service_config name >>= wanted_of_config api site service
    ]

abbrev pub service_of : DbInitJob → Text
service_of job = job.spec.service_name

-- An existing job is kept as it is.
abbrev pub unrevised : DbInitJob → DbInitJob → Option DbInitJob
unrevised existing expected = none

unfoldable pub create_jobs : InitApi → List DbInitJob → Assoc DbInitJob → Run DbInitJob
unfolding changes_from write_all run_writes
create_jobs api list expected =
    let changes = changes_from service_of unrevised list expected in
    run_writes api.accepts
      (write_all deleted changes.to_delete ++ write_all created changes.to_create)
      (is_nil changes.to_delete && is_nil changes.to_create)

unfoldable pub ensure_jobs_are_created : InitApi → StagingSite → Run DbInitJob
unfolding ensure_created create_jobs wanted_job
ensure_jobs_are_created api site =
    ensure_created api.list_for_site (wanted_job api site) site.spec.services (create_jobs api)

abbrev pub is_failed : JobState → Bool
is_failed JobState.failed = true
is_failed _ = false

abbrev pub is_complete : JobState → Bool
is_complete JobState.complete = true
is_complete _ = false

init_failure : DbInitJob → Error
init_failure job =
    controller_error (database_init_error job.spec.site_name job.spec.service_name [])

unfoldable pub ensure_jobs_are_complete : InitApi → Result Bool
unfolding all_complete_from init_failure
ensure_jobs_are_complete api = api.list_for_site >>= λ list.
    all_complete_from (λ job. is_failed job.status.state) (λ job. is_complete job.status.state)
      init_failure list true
