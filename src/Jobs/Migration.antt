-- ===== src/Jobs/Migration.antt =====
-- handlers/job/db_migration_job_handler.go and apis/job/v1/dbmigrationjob_helpers.go.
pub mod Updated
pub mod Stale
use kube_stager.Base.{
  Bool, true, false, ◌&&◌, Option, none, some, List, [], ◌∷◌, ◌++◌, Text, bytes, text_eq, is_empty,
  is_nil, pos, Assoc, lookup, if◌then◌else◌,
}
use kube_stager.Api.{
  StagingSite, StagingSiteService, service_or_zero, ServiceConfig, DbMigrationJob, JobState,
}
use kube_stager.Controller.{
  Result, ok, err, ◌>>=◌, Error, message, controller_error, database_migration_error,
}
use kube_stager.Sync.{
  Write, deleted, updated, created, Run, Changes, ensure_created, changes_from, write_all,
  run_writes, all_complete_from,
}
use kube_stager.Jobs.{job_meta}
use kube_stager.Jobs.Init.{is_failed, is_complete}

-- The answers of the API server for the site.
pub record MigrationApi : Type 0 where
  pub list_for_site : Result (List DbMigrationJob)
  pub get_service_config : Text → Result ServiceConfig
  pub set_controller_reference : DbMigrationJob → Result DbMigrationJob
  pub md5_base36 : Text → Text
  pub accepts : Write DbMigrationJob → Option Error

migration_job : (Text → Text) → StagingSite → ServiceConfig → DbMigrationJob
unfolding job_meta
migration_job md5_base36 site config = record {
  meta = job_meta md5_base36 site config;
  spec = record {
    site_name = site.name;
    service_name = config.name;
    image_tag = (service_or_zero (lookup config.name site.spec.services)).image_tag;
    deadline_seconds = pos 600;
  };
  status = record {
    state = JobState.unset;
    job_not_found_count = 0;
    last_migrated_image_tag = [];
    deadline_timestamp = none;
  };
}

unfoldable pub populate_fom_site :
    (Text → Text) → StagingSite → ServiceConfig → Result DbMigrationJob
unfolding migration_job
populate_fom_site md5_base36 site config = elim (config.spec.migration_job_pod_spec) [
  | none ↦ err (message (bytes "no migration pod spec specified in the service config"))
  | some _ ↦ ok (migration_job md5_base36 site config)
]

unfoldable pub get_populated_job :
    MigrationApi → StagingSite → ServiceConfig → Result DbMigrationJob
unfolding populate_fom_site
get_populated_job api site config =
    populate_fom_site api.md5_base36 site config >>= api.set_controller_reference

wanted_of_config : MigrationApi → StagingSite → ServiceConfig → Result (Option DbMigrationJob)
unfolding get_populated_job
wanted_of_config api site config = elim (config.spec.migration_job_pod_spec) [
  | none ↦ ok none
  | some _ ↦ get_populated_job api site config >>= λ job. ok (some job)
]

-- The job that a service asks for: one with a database and a pod spec for its migration.
unfoldable pub wanted_job :
    MigrationApi → StagingSite → Text → StagingSiteService → Result (Option DbMigrationJob)
unfolding wanted_of_config
wanted_job api site name service =
    elim (is_empty service.mysql_environment && is_empty service.mongo_environment) [
      | true ↦ ok none
      | false ↦ api.get_service_config name >>= wanted_of_config api site
    ]

abbrev pub service_of : DbMigrationJob → Text
service_of job = job.spec.service_name

unfoldable pub matches : DbMigrationJob → DbMigrationJob → Bool
matches job other =
    text_eq job.spec.site_name other.spec.site_name
    && (text_eq job.spec.service_name other.spec.service_name
        && text_eq job.spec.image_tag other.spec.image_tag)

abbrev pub update_from : DbMigrationJob → DbMigrationJob → DbMigrationJob
update_from job other = record job { spec = other.spec }

unfoldable pub revised : DbMigrationJob → DbMigrationJob → Option DbMigrationJob
unfolding matches
revised existing expected =
    if matches existing expected then none else some (update_from existing expected)

-- The updates do not count for the completeness.
unfoldable pub create_jobs :
    MigrationApi → List DbMigrationJob → Assoc DbMigrationJob → Run DbMigrationJob
unfolding changes_from write_all run_writes revised
create_jobs api list expected =
    let changes = changes_from service_of revised list expected in
    run_writes api.accepts
      (write_all deleted changes.to_delete
        ++ (write_all updated changes.to_update ++ write_all created changes.to_create))
      (is_nil changes.to_delete && is_nil changes.to_create)

-- A site that is not enabled asks for no jobs.
abbrev pub asking_services : StagingSite → Assoc StagingSiteService
asking_services site = if site.status.enabled then site.spec.services else []

unfoldable pub ensure_jobs_are_created : MigrationApi → StagingSite → Run DbMigrationJob
unfolding ensure_created create_jobs wanted_job
ensure_jobs_are_created api site =
    ensure_created api.list_for_site (wanted_job api site) (asking_services site) (create_jobs api)

unfoldable pub migration_failure : DbMigrationJob → Error
migration_failure job =
    controller_error (database_migration_error job.spec.site_name job.spec.service_name [])

unfoldable pub ensure_jobs_are_complete : MigrationApi → Result Bool
unfolding all_complete_from migration_failure
ensure_jobs_are_complete api = api.list_for_site >>= λ list.
    all_complete_from (λ job. is_failed job.status.state) (λ job. is_complete job.status.state)
      migration_failure list true
