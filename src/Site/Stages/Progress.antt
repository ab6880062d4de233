-- ===== src/Site/Stages/Progress.antt =====
-- A reconciliation where every handler of controllers/site/stagingsite_controller.go has done its part.
use kube_stager.Base.{◌≡◌, refl, Bool, true, false, none, some, List, [], ◌∷◌, arith, ◌||◌, All}
use kube_stager.Api.{StagingSite, StagingSiteState}
use kube_stager.Controller.{ok}
use kube_stager.Site.Schedule.{is_due}
use kube_stager.Site.Saving.{
  SiteApi, Handler, Handlers, SiteOutcome, with_state, is_complete, all_created,
}
use kube_stager.Site.Stages.{
  run_checks, with_creation, with_initialisation, with_migrations, is_created,
  ensure_databases_are_created, ensure_databases_are_initialised,
  ensure_database_migration_jobs_are_created, run_stages, run_configs, run_initialisation,
  run_migrations, run_workloads, run_networking, complete_site,
}

-- The handler finds its part complete, and leaves the site as it is.
abbrev pub IsSatisfied : Handler → Type 0
IsSatisfied handler = (site : StagingSite) → handler site ≡ (site, ok true)

-- The handler finds nothing to change.
abbrev pub IsUnchanged : Handler → Type 0
IsUnchanged handler = (site : StagingSite) → handler site ≡ (site, ok false)

pub run_checks-creation :
    (handlers : List Handler) (site : StagingSite)
    → All IsSatisfied handlers
    → is_created site ≡ true
    → run_checks is_created with_creation handlers site ≡ (site, none)
unfolding run_checks
run_checks-creation [] site satisfied h = refl
run_checks-creation (handler ∷ handlers) site satisfied h =
    ground (arith, satisfied.0 site, run_checks-creation handlers site satisfied.1 h)

abbrev pub created_site : StagingSite → StagingSite
created_site site = with_initialisation (with_creation site true) true

abbrev pub finished_site : StagingSite → StagingSite
finished_site site = with_migrations (created_site site) true

pub ensure_databases_are_created-satisfied :
    (handlers : Handlers) (site : StagingSite)
    → All IsSatisfied handlers.databases_created
    → All IsSatisfied handlers.databases_ready
    → ((ensure_databases_are_created handlers site).site ≡ created_site site)
      × ((ensure_databases_are_created handlers site).error ≡ none)
unfolding ensure_databases_are_created
ensure_databases_are_created-satisfied handlers site created ready = ground (
  arith,
  run_checks-creation handlers.databases_created (with_creation site true) created refl,
  run_checks-creation handlers.databases_ready (created_site site) ready refl,
)

pub ensure_databases_are_initialised-satisfied :
    (handlers : Handlers) (site : StagingSite)
    → IsSatisfied handlers.init_jobs_created
    → IsSatisfied handlers.init_jobs_complete
    → ((ensure_databases_are_initialised handlers site).site ≡ with_initialisation site true)
      × ((ensure_databases_are_initialised handlers site).error ≡ none)
unfolding ensure_databases_are_initialised run_checks
ensure_databases_are_initialised-satisfied handlers site created complete =
    ground
      (arith, created (with_initialisation site true), complete (with_initialisation site true))

pub ensure_migrations-satisfied :
    (handlers : Handlers) (site : StagingSite)
    → IsSatisfied handlers.migration_jobs_created
    → IsSatisfied handlers.migration_jobs_complete
    → ((ensure_database_migration_jobs_are_created handlers site).site ≡ with_migrations site true)
      × ((ensure_database_migration_jobs_are_created handlers site).error ≡ none)
unfolding ensure_database_migration_jobs_are_created run_checks
ensure_migrations-satisfied handlers site created complete =
    ground (arith, created (with_migrations site true), complete (with_migrations site true))

-- What each handler of the site answers.
pub record AllSatisfied (handlers : Handlers) : Type 0 where
  pub databases_created_satisfied : All IsSatisfied handlers.databases_created
  pub databases_ready_satisfied : All IsSatisfied handlers.databases_ready
  pub init_created_satisfied : IsSatisfied handlers.init_jobs_created
  pub init_complete_satisfied : IsSatisfied handlers.init_jobs_complete
  pub migration_created_satisfied : IsSatisfied handlers.migration_jobs_created
  pub migration_complete_satisfied : IsSatisfied handlers.migration_jobs_complete
  pub configs_unchanged : IsUnchanged handlers.configs
  pub workloads_unchanged : IsUnchanged handlers.workloads
  pub networking_unchanged : IsUnchanged handlers.networking

module _ (api : SiteApi) (satisfied : AllSatisfied api.handlers) where
  run_workloads-unchanged :
      (changed : Bool) (site : StagingSite)
      → run_workloads api changed site ≡ complete_site api ((changed || false) || false) site
  unfolding run_workloads run_networking
  run_workloads-unchanged changed site =
      ground (arith, satisfied.workloads_unchanged site, satisfied.networking_unchanged site)

  -- The stages run to their end, with some flag of a change.
  Completes : StagingSite → SiteOutcome → Type 0
  Completes site outcome = (changed : Bool) × (outcome ≡ complete_site api changed site)

  run_migrations-Completes :
      (changed : Bool) (site : StagingSite)
      → Completes (with_migrations site true) (run_migrations api changed site)
  unfolding Completes run_migrations
  run_migrations-Completes changed site =
      let updated = ensure_database_migration_jobs_are_created api.handlers site in
      let (same, fine) =
        ensure_migrations-satisfied api.handlers site satisfied.migration_created_satisfied
          satisfied.migration_complete_satisfied in
      (
        ((changed || updated.changed) || false) || false,
        ground (
          arith,
          same,
          fine,
          run_workloads-unchanged (changed || updated.changed) (with_migrations site true),
        ),
      )

  run_initialisation-Completes :
      (changed : Bool) (site : StagingSite)
      → Completes
          (with_migrations (with_initialisation site true) true)
          (run_initialisation api changed site)
  unfolding Completes run_initialisation
  run_initialisation-Completes changed site =
      let updated = ensure_databases_are_initialised api.handlers site in
      let (same, fine) =
        ensure_databases_are_initialised-satisfied api.handlers site
          satisfied.init_created_satisfied satisfied.init_complete_satisfied in
      let (changed', e) =
        run_migrations-Completes (changed || updated.changed) (with_initialisation site true) in
      (changed', ground (arith, same, fine, e))

  run_configs-Completes :
      (changed : Bool) (site : StagingSite)
      → site.status.configs_are_created ≡ true
      → is_created site ≡ true
      → Completes
          (with_migrations (with_initialisation site true) true)
          (run_configs api changed site)
  unfolding Completes run_configs
  run_configs-Completes changed site configs created =
      let (changed', e) = run_initialisation-Completes (changed || false) site in
      (changed', ground (arith, satisfied.configs_unchanged site, e))

  pub run_stages-Completes :
      (site : StagingSite)
      → site.status.configs_are_created ≡ true
      → (changed : Bool) × (run_stages api site ≡ complete_site api changed (finished_site site))
  unfolding Completes run_stages
  run_stages-Completes site configs =
      let updated = ensure_databases_are_created api.handlers site in
      let (same, fine) =
        ensure_databases_are_created-satisfied api.handlers site
          satisfied.databases_created_satisfied satisfied.databases_ready_satisfied in
      let (changed', e) =
        run_configs-Completes (false || updated.changed) (created_site site) configs refl in
      (changed', ground (arith, same, fine, e))

  -- The last save, where no backup is due.
  pub complete_site-written :
      (changed : Bool) (site : StagingSite)
      → is_due api.now site.status.next_backup_time ≡ false
      → is_complete site.status.state ≡ false
      → all_created site ≡ true
      → api.update_status (with_state site StagingSiteState.complete) ≡ none
      → ((complete_site api changed site).status_written
          ≡ some (with_state site StagingSiteState.complete))
        × ((complete_site api changed site).error ≡ none)
  unfolding complete_site
  complete_site-written changed site due fresh created updates = ground arith
