-- ===== src/Site/Stages/Failing.antt =====
-- The stages of controllers/site/stagingsite_controller.go where the handler of one of them fails with
-- an error of the program.
use kube_stager.Base.{
  ◌≡◌, refl, Bool, true, false, some, List, [], ◌∷◌, ◌++◌, arith, ◌||◌, ◌∙◌, All,
}
use kube_stager.Api.{StagingSite}
use kube_stager.Controller.{err, done, ControllerError, controller_error}
use kube_stager.Site.Saving.{SiteApi, Handler, Handlers, SiteOutcome, save_site}
use kube_stager.Site.Stages.{
  run_checks, with_creation, with_initialisation, with_migrations, is_created,
  ensure_databases_are_created, ensure_databases_are_initialised,
  ensure_database_migration_jobs_are_created, run_stages, run_configs, run_initialisation,
  run_migrations, run_workloads, run_networking,
}
use kube_stager.Site.Stages.Progress.{
  IsSatisfied, IsUnchanged, created_site, finished_site, run_checks-creation,
}
use kube_stager.Site.Stages.Passing.{
  HasDatabases, IsInitialised, IsMigrated, run_stages-configs, run_stages-initialisation,
  run_stages-migrations, run_stages-workloads,
}

-- The stages that call handlers, in their order.
pub data Stage : Type 0 where
  databases configs initialisation migrations workloads networking : Stage

-- The site as it is where the handler of a stage is called.
abbrev pub site_at : Stage → StagingSite → StagingSite
site_at databases site = created_site site
site_at configs site = created_site site
site_at initialisation site = created_site site
site_at migrations site = finished_site site
site_at workloads site = finished_site site
site_at networking site = finished_site site

module _ (e : ControllerError) where
  -- The handler fails, and leaves the site as it is.
  abbrev pub IsFailing : Handler → Type 0
  IsFailing handler = (site : StagingSite) → handler site ≡ (site, err (controller_error e))

  -- The handlers of the stages before one find their parts complete, and its own fails.
  abbrev pub FailsAt : Stage → Handlers → Type 0
  FailsAt databases handlers =
      All IsSatisfied handlers.databases_created
      × ((ready rest : List Handler) × (failing : Handler) × (handlers.databases_ready
            ≡ ready ++ (failing ∷ rest))
          × All IsSatisfied ready
          × IsFailing failing)
  FailsAt configs handlers = HasDatabases handlers × IsFailing handlers.configs
  FailsAt initialisation handlers =
      HasDatabases handlers
      × IsUnchanged handlers.configs
      × IsSatisfied handlers.init_jobs_created
      × IsFailing handlers.init_jobs_complete
  FailsAt migrations handlers =
      IsInitialised handlers
      × IsSatisfied handlers.migration_jobs_created
      × IsFailing handlers.migration_jobs_complete
  FailsAt workloads handlers = IsMigrated handlers × IsFailing handlers.workloads
  FailsAt networking handlers =
      IsMigrated handlers × IsUnchanged handlers.workloads × IsFailing handlers.networking

  module _ (api : SiteApi) where
    -- The stages end in a save with the error, and with some flag of a change.
    Fails : StagingSite → SiteOutcome → Type 0
    Fails site outcome =
        (changed : Bool) × (outcome ≡ save_site api changed site done (some (controller_error e)))

    run_checks-failing :
        (ready rest : List Handler) (failing : Handler) (site : StagingSite)
        → All IsSatisfied ready
        → IsFailing failing
        → is_created site ≡ true
        → run_checks is_created with_creation (ready ++ (failing ∷ rest)) site
          ≡ (site, some (controller_error e))
    unfolding run_checks
    run_checks-failing [] rest failing site satisfied fails h = ground (arith, fails site)
    run_checks-failing (handler ∷ ready) rest failing site satisfied fails h =
        ground
          (arith, satisfied.0 site, run_checks-failing ready rest failing site satisfied.1 fails h)

    run_stages-databases :
        (site : StagingSite)
        → FailsAt databases api.handlers
        → Fails (created_site site) (run_stages api site)
    unfolding Fails run_stages ensure_databases_are_created
    run_stages-databases site (created, (ready, rest, failing, split, satisfied, fails)) = (
      false,
      ground (
        arith,
        split,
        run_checks-creation api.handlers.databases_created (with_creation site true) created refl,
        run_checks-failing ready rest failing (created_site site) satisfied fails refl,
      ),
    )

    run_configs-failing :
        (changed : Bool) (site : StagingSite)
        → IsFailing api.handlers.configs
        → Fails site (run_configs api changed site)
    unfolding Fails run_configs
    run_configs-failing changed site fails = (changed || false, ground (arith, fails site))

    run_initialisation-failing :
        (changed : Bool) (site : StagingSite)
        → IsSatisfied api.handlers.init_jobs_created
        → IsFailing api.handlers.init_jobs_complete
        → Fails (with_initialisation site true) (run_initialisation api changed site)
    unfolding Fails run_initialisation ensure_databases_are_initialised run_checks
    run_initialisation-failing changed site created fails = (
      changed || false,
      ground
          (arith, created (with_initialisation site true), fails (with_initialisation site true)),
    )

    run_migrations-failing :
        (changed : Bool) (site : StagingSite)
        → IsSatisfied api.handlers.migration_jobs_created
        → IsFailing api.handlers.migration_jobs_complete
        → Fails (with_migrations site true) (run_migrations api changed site)
    unfolding Fails run_migrations ensure_database_migration_jobs_are_created run_checks
    run_migrations-failing changed site created fails = (
      changed || false,
      ground (arith, created (with_migrations site true), fails (with_migrations site true)),
    )

    run_workloads-failing :
        (changed : Bool) (site : StagingSite)
        → IsFailing api.handlers.workloads
        → Fails site (run_workloads api changed site)
    unfolding Fails run_workloads
    run_workloads-failing changed site fails = (changed || false, ground (arith, fails site))

    run_networking-failing :
        (changed : Bool) (site : StagingSite)
        → IsUnchanged api.handlers.workloads
        → IsFailing api.handlers.networking
        → Fails site (run_workloads api changed site)
    unfolding Fails run_workloads run_networking
    run_networking-failing changed site unchanged fails =
        ((changed || false) || false, ground (arith, unchanged site, fails site))

    -- Where the handler of a stage fails, the stages end in a save of the site as it is there, with the
    -- error.
    pub run_stages-failing :
        (stage : Stage) (site : StagingSite)
        → site.status.configs_are_created ≡ true
        → FailsAt stage api.handlers
        → (changed : Bool) × (run_stages api site
            ≡ save_site api changed (site_at stage site) done (some (controller_error e)))
    unfolding Fails
    run_stages-failing databases site h fails = run_stages-databases site fails
    run_stages-failing configs site h (has, fails) =
        let (changed, same) = run_stages-configs api site has in
        let (changed', rest) = run_configs-failing changed (created_site site) fails in
        (changed', same ∙ rest)
    run_stages-failing initialisation site h (has, unchanged, created, fails) =
        let (changed, same) = run_stages-initialisation api site h has unchanged in
        let (changed', rest) =
          run_initialisation-failing changed (created_site site) created fails in
        (changed', same ∙ rest)
    run_stages-failing migrations site h (initialised, created, fails) =
        let (changed, same) = run_stages-migrations api site h initialised in
        let (changed', rest) = run_migrations-failing changed (created_site site) created fails in
        (changed', same ∙ rest)
    run_stages-failing workloads site h (migrated, fails) =
        let (changed, same) = run_stages-workloads api site h migrated in
        let (changed', rest) = run_workloads-failing changed (finished_site site) fails in
        (changed', same ∙ rest)
    run_stages-failing networking site h (migrated, unchanged, fails) =
        let (changed, same) = run_stages-workloads api site h migrated in
        let (changed', rest) =
          run_networking-failing changed (finished_site site) unchanged fails in
        (changed', same ∙ rest)
