-- ===== src/Examples/MigrationJobs.antt =====
-- Runs of a database migration job.
use kube_stager.Base.{◌≡◌, refl, none, some, List, [], ◌∷◌, bytes, Text, arith, pos, ℕ}
use kube_stager.Api.{DbMigrationJob, JobState, pending, running, failed}
use kube_stager.Controller.{ok, err, api_error, JobCondition, BatchJob}
use kube_stager.DbMigration.{DbMigrationApi}
use kube_stager.DbMigration.Restart.{next, stale_misses_fail}
use kube_stager.DbMigration.Launch.{Cluster, reconciled}
use kube_stager.Examples.{
  digest, meta_of, batch_api, job_config, batch_job, finished_condition, suspended_condition,
}

abbrev migration_job_of : Text → ℕ → JobState → DbMigrationJob
migration_job_of tag misses state = record {
  meta = meta_of (bytes "demo-shop");
  spec = record {
    site_name = bytes "demo";
    service_name = bytes "shop";
    image_tag = tag;
    deadline_seconds = pos 600;
  };
  status = record {
    state = state;
    job_not_found_count = misses;
    last_migrated_image_tag = bytes "v1";
    deadline_timestamp = some (pos 2000);
  };
}

abbrev migration_job : JobState → DbMigrationJob
migration_job state = migration_job_of (bytes "v1") 0 state

abbrev migration_api : DbMigrationJob → List BatchJob → DbMigrationApi
migration_api job jobs = record {
  batch = batch_api;
  now = pos 1000;
  md5_base36 = digest;
  migration_job_config = job_config;
  get_job = ok job;
  list_jobs = ok jobs;
  delete_all_of = ok tt;
  update_status = λ _. none;
}

abbrev broken_api : DbMigrationApi
broken_api = record (migration_api (migration_job running) []) { list_jobs = err (api_error 500) }

-- A failed job with six misses is given the tag v2, is started with a new batch job, and fails at
-- the first miss.
migration_stale_example :
    (next (migration_api (migration_job failed) []) (
      next (migration_api (migration_job failed) []) (
        next
          (migration_api (migration_job failed) [])
          (migration_job_of (bytes "v2") 6 failed)))).status.state
    ≡ failed
unfolding kube_stager.DbMigration.do_reconcile
migration_stale_example =
    stale_misses_fail (migration_api (migration_job failed) [])
      (migration_api (migration_job failed) []) (migration_api (migration_job failed) [])
      (migration_job_of (bytes "v2") 6 failed) [] (λ _. refl) (λ _. refl) (omega arith)
      (omega arith) (λ e. ground arith) refl refl refl (λ e. ground arith)

abbrev two_conditions : List JobCondition
two_conditions = suspended_condition ∷ finished_condition ∷ []

abbrev outcome_api : DbMigrationApi
outcome_api = migration_api (migration_job running) (batch_job two_conditions ∷ [])

abbrev fresh : Cluster
fresh = record { job = migration_job pending; batch_jobs = [] }

abbrev launched : Cluster
launched = reconciled (migration_api (migration_job pending) []) fresh
