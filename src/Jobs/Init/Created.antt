-- ===== src/Jobs/Init/Created.antt =====
-- What `EnsureJobsAreCreated` of handlers/job/db_init_job_handler.go brings about.
use kube_stager.Base.{Bool, List, ◌++◌, Text, Assoc, lookup, AreUnique, ◌≡◌, refl, ap, ◌∙◌}
use kube_stager.Api.{StagingSite, DbInitJob}
use kube_stager.Controller.{ok}
use kube_stager.Sync.{deleted, created, changes_from, write_all}
use kube_stager.Sync.Desired.{IsDesired, ensure_created-IsDesired}
use kube_stager.Sync.Compared.{find_service, AreDistinct}
use kube_stager.Sync.Refined.{stored, target, run_writes-done, no_updates-target}
use kube_stager.Jobs.Init.{
  InitApi, wanted_job, service_of, unrevised, create_jobs, ensure_jobs_are_created,
}

module _ (api : InitApi) (site : StagingSite) (list : List DbInitJob) where
  create_jobs-target :
      (expected : Assoc DbInitJob) (complete : Bool) (s : Text)
      → AreDistinct service_of list
      → AreUnique expected
      → (create_jobs api list expected).answer ≡ ok complete
      → stored (create_jobs api list expected).writes (find_service service_of list) s
        ≡ target service_of unrevised (find_service service_of list s) (lookup s expected)
  unfolding create_jobs
  create_jobs-target expected complete s distinct unique h =
      let changes = changes_from service_of unrevised list expected in
      let (all_written, same) =
        run_writes-done api.accepts
          (write_all deleted changes.to_delete ++ write_all created changes.to_create) _ complete
          h in
      ap (λ writes. stored writes (find_service service_of list) s) all_written
      ∙ no_updates-target service_of unrevised list expected s (λ x y. refl) distinct unique

  -- A run that returns no error leaves for each service the init job that it had, if the service still
  -- asks for one, and a new one where it had none; a service that asks for none, or that the site
  -- does not have, is left with none.
  pub created_jobs-IsDesired :
      (complete : Bool) (s : Text)
      → api.list_for_site ≡ ok list
      → AreUnique site.spec.services
      → AreDistinct service_of list
      → (ensure_jobs_are_created api site).answer ≡ ok complete
      → IsDesired service_of unrevised
          (wanted_job api site)
          site.spec.services
          list
          (ensure_jobs_are_created api site)
          s
  unfolding ensure_jobs_are_created
  created_jobs-IsDesired complete s listed unique distinct h =
      ensure_created-IsDesired service_of unrevised (wanted_job api site) site.spec.services list
        api.list_for_site (create_jobs api) complete s
        (λ expected unique'. create_jobs-target expected complete s distinct unique') listed unique
        h
