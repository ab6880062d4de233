-- ===== src/Jobs/Migration/Updated.antt =====
-- What `EnsureJobsAreCreated` of handlers/job/db_migration_job_handler.go brings about.
use kube_stager.Base.{Bool, List, ◌++◌, Text, Assoc, lookup, AreUnique, ◌≡◌, ap, ◌∙◌}
use kube_stager.Api.{StagingSite, DbMigrationJob}
use kube_stager.Controller.{ok}
use kube_stager.Sync.{deleted, updated, created, changes_from, write_all}
use kube_stager.Sync.Desired.{IsDesired, ensure_created-IsDesired}
use kube_stager.Sync.Compared.{find_service, AreDistinct}
use kube_stager.Sync.Refined.{stored, target, run_writes-done, updates_first-target}
use kube_stager.Jobs.Migration.{
  MigrationApi, wanted_job, service_of, revised, create_jobs, ensure_jobs_are_created,
  asking_services,
}

module _ (api : MigrationApi) (site : StagingSite) (list : List DbMigrationJob) where
  create_jobs-target :
      (expected : Assoc DbMigrationJob) (complete : Bool) (s : Text)
      → AreDistinct service_of list
      → AreUnique expected
      → (create_jobs api list expected).answer ≡ ok complete
      → stored (create_jobs api list expected).writes (find_service service_of list) s
        ≡ target service_of revised (find_service service_of list s) (lookup s expected)
  unfolding create_jobs
  create_jobs-target expected complete s distinct unique h =
      let changes = changes_from service_of revised list expected in
      let (all_written, same) =
        run_writes-done api.accepts
          (write_all deleted changes.to_delete
            ++ (write_all updated changes.to_update ++ write_all created changes.to_create))
          _ complete h in
      ap (λ writes. stored writes (find_service service_of list) s) all_written
      ∙ updates_first-target service_of revised list expected s distinct unique

  -- A run that returns no error leaves for each service of an enabled site that asks for a migration
  -- job the one that it had, with the spec asked for if the site, the service or the image tag differ,
  -- or a new one where it had none; any other service, and any service of a site that is not enabled,
  -- is left with none.
  pub migration_jobs-IsDesired :
      (complete : Bool) (s : Text)
      → api.list_for_site ≡ ok list
      → AreUnique (asking_services site)
      → AreDistinct service_of list
      → (ensure_jobs_are_created api site).answer ≡ ok complete
      → IsDesired service_of revised
          (wanted_job api site)
          (asking_services site)
          list
          (ensure_jobs_are_created api site)
          s
  unfolding ensure_jobs_are_created
  migration_jobs-IsDesired complete s listed unique distinct h =
      ensure_created-IsDesired service_of revised (wanted_job api site) (asking_services site) list
        api.list_for_site (create_jobs api) complete s
        (λ expected unique'. create_jobs-target expected complete s distinct unique') listed unique
        h
