-- ===== src/Site/Stages/Passing.antt =====
-- The stages of controllers/site/stagingsite_controller.go up to one of them, where the handlers of those
-- before find their parts complete.
use kube_stager.Base.{◌≡◌, refl, Bool, true, false, arith, ◌||◌, ◌∙◌, All}
use kube_stager.Api.{StagingSite}
use kube_stager.Site.Saving.{SiteApi, Handlers}
use kube_stager.Site.Stages.{
  with_initialisation, with_migrations, is_created, ensure_databases_are_created,
  ensure_databases_are_initialised, ensure_database_migration_jobs_are_created, run_stages,
  run_configs, run_initialisation, run_migrations, run_workloads,
}
use kube_stager.Site.Stages.Progress.{
  IsSatisfied, IsUnchanged, created_site, finished_site, ensure_databases_are_created-satisfied,
  ensure_databases_are_initialised-satisfied, ensure_migrations-satisfied,
}

abbrev pub HasDatabases : Handlers → Type 0
HasDatabases handlers =
    All IsSatisfied handlers.databases_created × All IsSatisfied handlers.databases_ready

abbrev pub IsInitialised : Handlers → Type 0
IsInitialised handlers =
    HasDatabases handlers
    × IsUnchanged handlers.configs
    × IsSatisfied handlers.init_jobs_created
    × IsSatisfied handlers.init_jobs_complete

abbrev pub IsMigrated : Handlers → Type 0
IsMigrated handlers =
    IsInitialised handlers
    × IsSatisfied handlers.migration_jobs_created
    × IsSatisfied handlers.migration_jobs_complete

module _ (api : SiteApi) where
  -- What is left of the stages once those before have passed.
  pub run_stages-configs :
      (site : StagingSite)
      → HasDatabases api.handlers
      → (changed : Bool) × (run_stages api site ≡ run_configs api changed (created_site site))
  unfolding run_stages
  run_stages-configs site (created, ready) =
      let updated = ensure_databases_are_created api.handlers site in
      let (same, fine) = ensure_databases_are_created-satisfied api.handlers site created ready in
      (false || updated.changed, ground (arith, same, fine))

  run_configs-unchanged :
      (changed : Bool) (site : StagingSite)
      → IsUnchanged api.handlers.configs
      → site.status.configs_are_created ≡ true
      → is_created site ≡ true
      → run_configs api changed site ≡ run_initialisation api (changed || false) site
  unfolding run_configs
  run_configs-unchanged changed site unchanged h created = ground (arith, unchanged site)

  run_initialisation-satisfied :
      (changed : Bool) (site : StagingSite)
      → IsSatisfied api.handlers.init_jobs_created
      → IsSatisfied api.handlers.init_jobs_complete
      → (changed' : Bool) × (run_initialisation api changed site
          ≡ run_migrations api changed' (with_initialisation site true))
  unfolding run_initialisation
  run_initialisation-satisfied changed site created complete =
      let updated = ensure_databases_are_initialised api.handlers site in
      let (same, fine) =
        ensure_databases_are_initialised-satisfied api.handlers site created complete in
      (changed || updated.changed, ground (arith, same, fine))

  run_migrations-satisfied :
      (changed : Bool) (site : StagingSite)
      → IsSatisfied api.handlers.migration_jobs_created
      → IsSatisfied api.handlers.migration_jobs_complete
      → (changed' : Bool) × (run_migrations api changed site
          ≡ run_workloads api changed' (with_migrations site true))
  unfolding run_migrations
  run_migrations-satisfied changed site created complete =
      let updated = ensure_database_migration_jobs_are_created api.handlers site in
      let (same, fine) = ensure_migrations-satisfied api.handlers site created complete in
      (changed || updated.changed, ground (arith, same, fine))

  pub run_stages-initialisation :
      (site : StagingSite)
      → site.status.configs_are_created ≡ true
      → HasDatabases api.handlers
      → IsUnchanged api.handlers.configs
      → (changed : Bool) × (run_stages api site
          ≡ run_initialisation api changed (created_site site))
  run_stages-initialisation site h has unchanged =
      let (changed, same) = run_stages-configs site has in
      (changed || false, same ∙ run_configs-unchanged changed (created_site site) unchanged h refl)

  pub run_stages-migrations :
      (site : StagingSite)
      → site.status.configs_are_created ≡ true
      → IsInitialised api.handlers
      → (changed : Bool) × (run_stages api site ≡ run_migrations api changed (created_site site))
  run_stages-migrations site h (has, unchanged, created, complete) =
      let (changed, same) = run_stages-initialisation site h has unchanged in
      let (changed', rest) =
        run_initialisation-satisfied changed (created_site site) created complete in
      (changed', same ∙ rest)

  pub run_stages-workloads :
      (site : StagingSite)
      → site.status.configs_are_created ≡ true
      → IsMigrated api.handlers
      → (changed : Bool) × (run_stages api site ≡ run_workloads api changed (finished_site site))
  run_stages-workloads site h (initialised, created, complete) =
      let (changed, same) = run_stages-migrations site h initialised in
      let (changed', rest) =
        run_migrations-satisfied changed (created_site site) created complete in
      (changed', same ∙ rest)
