-- ===== src/Site/Stages/Saves.antt =====
-- The outcomes of the stages of `doReconcile` (controllers/site/stagingsite_controller.go), as saves.
use kube_stager.Base.{
  inl, inr, refl, if◌then◌else◌, Bool, true, false, none, some, arith, Option-cases, ◌||◌, not,
  ◌&&◌,
}
use kube_stager.Api.{StagingSite, StagingSiteState}
use kube_stager.Controller.{done}
use kube_stager.Site.Schedule.{is_due, get_ctrl_result_with_recheck_interval}
use kube_stager.Site.Status.{Updated}
use kube_stager.Site.Saving.{SiteApi, SiteOutcome, with_state, is_complete}
use kube_stager.Site.Saving.Consistency.{IsSave}
use kube_stager.Site.Stages.{
  after_migrations, after_initialisation, after_configs, after_stage, gate, save_checked,
  save_backed_up, complete_site, handle_backup, run_networking, run_workloads, run_migrations,
  run_initialisation, run_configs, run_stages, is_migrated, is_initialised, is_created,
  ensure_networking_objects_are_up_to_date, ensure_workload_objects_are_up_to_date,
  ensure_database_migration_jobs_are_created, ensure_databases_are_initialised,
  ensure_configs_are_up_to_date, ensure_databases_are_created,
}

after_stage-IsSave :
    (api : SiteApi) (changed : Bool) (updated : Updated) (next : Bool → StagingSite → SiteOutcome)
    → ((b : Bool) (site : StagingSite) → IsSave api (next b site))
    → IsSave api (after_stage api changed updated next)
after_stage-IsSave api changed updated next follows = elim (Option-cases updated.error) [
  | inl e ↦
      let (b, site, result, error, same) = follows (changed || updated.changed) updated.site in
      (b, site, result, error, ground arith)
  | inr (x, e) ↦ (changed || updated.changed, updated.site, done, some x, ground arith)
]

gate-IsSave :
    (api : SiteApi) (is_open changed : Bool) (site : StagingSite) (next : SiteOutcome)
    → IsSave api next
    → IsSave api (gate api is_open changed site next)
gate-IsSave api true changed site next follows = follows
gate-IsSave api false changed site next follows = (changed, site, done, none, refl)

if-IsSave :
    (api : SiteApi) (b : Bool) (x y : SiteOutcome)
    → IsSave api x
    → IsSave api y
    → IsSave api (if b then x else y)
if-IsSave api true x y s t = s
if-IsSave api false x y s t = t

save_checked-IsSave : (api : SiteApi) (updated : Updated) → IsSave api (save_checked api updated)
unfolding save_checked
save_checked-IsSave api updated = (
  updated.changed,
  updated.site,
  get_ctrl_result_with_recheck_interval api.now updated.site,
  updated.error,
  refl,
)

complete_site-IsSave :
    (api : SiteApi) (changed : Bool) (site : StagingSite)
    → IsSave api (complete_site api changed site)
unfolding complete_site save_backed_up
complete_site-IsSave api changed site =
    let completed = with_state site StagingSiteState.complete in
    let changed' = changed || not (is_complete site.status.state) in
    let updated = handle_backup api completed in
    if-IsSave api (is_due api.now site.status.next_backup_time) _ _
      (save_checked-IsSave api (record updated { changed = changed' || updated.changed }))
      (save_checked-IsSave api (record { site = completed; changed = changed'; error = none }))

run_networking-IsSave :
    (api : SiteApi) (changed : Bool) (site : StagingSite)
    → IsSave api (run_networking api changed site)
unfolding run_networking
run_networking-IsSave api changed site =
    after_stage-IsSave api changed (ensure_networking_objects_are_up_to_date api.handlers site)
      (complete_site api) (complete_site-IsSave api)

run_workloads-IsSave :
    (api : SiteApi) (changed : Bool) (site : StagingSite)
    → IsSave api (run_workloads api changed site)
unfolding run_workloads
run_workloads-IsSave api changed site =
    after_stage-IsSave api changed (ensure_workload_objects_are_up_to_date api.handlers site)
      (run_networking api) (run_networking-IsSave api)

run_migrations-IsSave :
    (api : SiteApi) (changed : Bool) (site : StagingSite)
    → IsSave api (run_migrations api changed site)
unfolding run_migrations
run_migrations-IsSave api changed site =
    after_stage-IsSave api changed (ensure_database_migration_jobs_are_created api.handlers site)
      (after_migrations api)
      (λ b s.
        gate-IsSave api (is_migrated s) b s (run_workloads api b s) (run_workloads-IsSave api b s))

run_initialisation-IsSave :
    (api : SiteApi) (changed : Bool) (site : StagingSite)
    → IsSave api (run_initialisation api changed site)
unfolding run_initialisation
run_initialisation-IsSave api changed site =
    after_stage-IsSave api changed (ensure_databases_are_initialised api.handlers site)
      (after_initialisation api)
      (λ b s.
        gate-IsSave api (is_initialised s) b s (run_migrations api b s)
          (run_migrations-IsSave api b s))

run_configs-IsSave :
    (api : SiteApi) (changed : Bool) (site : StagingSite)
    → IsSave api (run_configs api changed site)
unfolding run_configs
run_configs-IsSave api changed site =
    after_stage-IsSave api changed (ensure_configs_are_up_to_date api.handlers site)
      (after_configs api)
      (λ b s.
        gate-IsSave api (s.status.configs_are_created && is_created s) b s
          (run_initialisation api b s) (run_initialisation-IsSave api b s))

pub run_stages-IsSave : (api : SiteApi) (site : StagingSite) → IsSave api (run_stages api site)
unfolding run_stages
run_stages-IsSave api site =
    after_stage-IsSave api false (ensure_databases_are_created api.handlers site) (run_configs api)
      (run_configs-IsSave api)
