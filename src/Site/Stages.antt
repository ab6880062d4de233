-- ===== src/Site/Stages.antt =====
-- The stages of `doReconcile` of controllers/site/stagingsite_controller.go: databases, configs, init
-- jobs, migrations, workloads, networking and the backup. A stage runs if those before it are complete.
pub mod Saves
pub mod Gates
pub mod Progress
pub mod Passing
pub mod Failing
use kube_stager.Base.{
  Bool, true, false, not, ◌&&◌, ◌||◌, Option, none, some, List, [], ◌∷◌, if◌then◌else◌,
}
use kube_stager.Api.{StagingSite, StagingSiteState}
use kube_stager.Controller.{Result, ok, err, Error, done}
use kube_stager.Site.Schedule.{
  get_next_backup_time_for_site, get_ctrl_result_with_recheck_interval, is_due,
}
use kube_stager.Site.Status.{Updated, set_status}
use kube_stager.Site.Saving.{
  Handler, Handlers, SiteApi, SiteOutcome, with_state, is_complete, save_site,
}

abbrev xor : Bool → Bool → Bool
xor true b = not b
xor false b = b

-- The flags of the status that tell which stages are complete.
abbrev pub with_creation : StagingSite → Bool → StagingSite
with_creation site b = set_status site (record site.status { database_creation_complete = b })

abbrev pub with_initialisation : StagingSite → Bool → StagingSite
with_initialisation site b =
    set_status site (record site.status { database_initialisation_complete = b })

abbrev pub with_migrations : StagingSite → Bool → StagingSite
with_migrations site b = set_status site (record site.status { database_migrations_complete = b })

-- Runs the handlers, and keeps the flag only while each of them answers that its part is complete.
pub run_checks :
    (StagingSite → Bool)
    → (StagingSite → Bool → StagingSite)
    → List Handler
    → StagingSite
    → StagingSite × Option Error
run_checks flag set_flag [] site = (site, none)
run_checks flag set_flag (handler ∷ handlers) site =
    let (site', answer) = handler site in
    elim answer [
      | err e ↦ (site', some e)
      | ok complete ↦ run_checks flag set_flag handlers (set_flag site' (flag site' && complete))
    ]

-- The status has changed if the flag has; a stage that fails reports no change.
abbrev compared : (StagingSite → Bool) → Bool → StagingSite × Option Error → Updated
compared flag original (site, none) = record {
  site = site;
  changed = xor original (flag site);
  error = none;
}
compared flag original (site, some e) = record { site = site; changed = false; error = some e }

abbrev pub is_created : StagingSite → Bool
is_created site = site.status.database_creation_complete

abbrev pub is_initialised : StagingSite → Bool
is_initialised site = site.status.database_initialisation_complete

abbrev pub is_migrated : StagingSite → Bool
is_migrated site = site.status.database_migrations_complete

-- Between its two loops the source sets the flag of the initialisation.
abbrev then_ready : Handlers → StagingSite × Option Error → StagingSite × Option Error
then_ready handlers (site, some e) = (site, some e)
then_ready handlers (site, none) =
    run_checks is_created with_creation handlers.databases_ready (with_initialisation site true)

unfoldable pub ensure_databases_are_created : Handlers → StagingSite → Updated
unfolding run_checks
ensure_databases_are_created handlers site = compared is_created (is_created site) (
    then_ready handlers
      (run_checks is_created with_creation handlers.databases_created (with_creation site true)))

unfoldable pub ensure_databases_are_initialised : Handlers → StagingSite → Updated
unfolding run_checks
ensure_databases_are_initialised handlers site = compared is_initialised (is_initialised site) (
    run_checks is_initialised with_initialisation
      (handlers.init_jobs_created ∷ handlers.init_jobs_complete ∷ [])
      (with_initialisation site true))

unfoldable pub ensure_database_migration_jobs_are_created : Handlers → StagingSite → Updated
unfolding run_checks
ensure_database_migration_jobs_are_created handlers site = compared is_migrated (is_migrated site) (
    run_checks is_migrated with_migrations
      (handlers.migration_jobs_created ∷ handlers.migration_jobs_complete ∷ [])
      (with_migrations site true))

abbrev relayed : StagingSite × Result Bool → Updated
relayed (site, ok changed) = record { site = site; changed = changed; error = none }
relayed (site, err e) = record { site = site; changed = false; error = some e }

abbrev pub ensure_configs_are_up_to_date : Handlers → StagingSite → Updated
ensure_configs_are_up_to_date handlers site = relayed (handlers.configs site)

abbrev pub ensure_workload_objects_are_up_to_date : Handlers → StagingSite → Updated
ensure_workload_objects_are_up_to_date handlers site = relayed (handlers.workloads site)

abbrev pub ensure_networking_objects_are_up_to_date : Handlers → StagingSite → Updated
ensure_networking_objects_are_up_to_date handlers site = relayed (handlers.networking site)

-- Schedules a backup job and sets the time of the next one.
unfoldable pub handle_backup : SiteApi → StagingSite → Updated
handle_backup api site = elim (api.create_backup site) [
  | err e ↦ record { site = site; changed = false; error = some e }
  | ok _ ↦ elim (get_next_backup_time_for_site api.clock site) [
    | err e ↦ record {
      site = set_status site (record site.status { next_backup_time = none });
      changed = true;
      error = some e;
    }
    | ok time ↦ record {
      site = set_status site (record site.status { next_backup_time = time });
      changed = true;
      error = none;
    }
  ]
]

-- The last save, with the error of the backup if there is one.
save_checked : SiteApi → Updated → SiteOutcome
unfolding save_site get_ctrl_result_with_recheck_interval
save_checked api updated =
    save_site api updated.changed updated.site
      (get_ctrl_result_with_recheck_interval api.now updated.site) updated.error

-- A stage that fails ends the reconciliation; else the next one runs.
abbrev pub after_stage : SiteApi → Bool → Updated → (Bool → StagingSite → SiteOutcome) → SiteOutcome
after_stage api changed updated next = elim updated.error [
  | some e ↦ save_site api (changed || updated.changed) updated.site done (some e)
  | none ↦ next (changed || updated.changed) updated.site
]

-- Where a gate is closed the reconciliation waits.
abbrev pub gate : SiteApi → Bool → Bool → StagingSite → SiteOutcome → SiteOutcome
gate api is_open changed site next = if is_open then next else save_site api changed site done none

-- The backup that is due, and the last save.
save_backed_up : SiteApi → Bool → Updated → SiteOutcome
unfolding save_checked
save_backed_up api changed updated =
    save_checked api (record updated { changed = changed || updated.changed })

unfoldable pub complete_site : SiteApi → Bool → StagingSite → SiteOutcome
unfolding save_checked save_backed_up handle_backup
complete_site api changed site =
    let completed = with_state site StagingSiteState.complete in
    let changed' = changed || not (is_complete site.status.state) in
    if is_due api.now site.status.next_backup_time
    then save_backed_up api changed' (handle_backup api completed)
    else save_checked api (record { site = completed; changed = changed'; error = none })

unfoldable pub run_networking : SiteApi → Bool → StagingSite → SiteOutcome
unfolding complete_site
run_networking api changed site =
    after_stage api changed (ensure_networking_objects_are_up_to_date api.handlers site)
      (complete_site api)

unfoldable pub run_workloads : SiteApi → Bool → StagingSite → SiteOutcome
unfolding run_networking
run_workloads api changed site =
    after_stage api changed (ensure_workload_objects_are_up_to_date api.handlers site)
      (run_networking api)

abbrev pub after_migrations : SiteApi → Bool → StagingSite → SiteOutcome
after_migrations api changed site =
    gate api (is_migrated site) changed site (run_workloads api changed site)

unfoldable pub run_migrations : SiteApi → Bool → StagingSite → SiteOutcome
unfolding ensure_database_migration_jobs_are_created run_workloads
run_migrations api changed site =
    after_stage api changed (ensure_database_migration_jobs_are_created api.handlers site)
      (after_migrations api)

abbrev pub after_initialisation : SiteApi → Bool → StagingSite → SiteOutcome
after_initialisation api changed site =
    gate api (is_initialised site) changed site (run_migrations api changed site)

unfoldable pub run_initialisation : SiteApi → Bool → StagingSite → SiteOutcome
unfolding ensure_databases_are_initialised run_migrations
run_initialisation api changed site =
    after_stage api changed (ensure_databases_are_initialised api.handlers site)
      (after_initialisation api)

abbrev pub after_configs : SiteApi → Bool → StagingSite → SiteOutcome
after_configs api changed site =
    gate api (site.status.configs_are_created && is_created site) changed site
      (run_initialisation api changed site)

unfoldable pub run_configs : SiteApi → Bool → StagingSite → SiteOutcome
unfolding run_initialisation
run_configs api changed site =
    after_stage api changed (ensure_configs_are_up_to_date api.handlers site) (after_configs api)

unfoldable pub run_stages : SiteApi → StagingSite → SiteOutcome
unfolding ensure_databases_are_created run_configs
run_stages api site =
    after_stage api false (ensure_databases_are_created api.handlers site) (run_configs api)
