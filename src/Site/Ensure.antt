-- ===== src/Site/Ensure.antt =====
-- `ensureStatusIsUpToDate` of controllers/site/stagingsite_controller.go: the steps, composed.
pub mod Window
pub mod Enabled
use kube_stager.Base.{Bool, true, false, ◌||◌, Option, none, some, List, [], if◌then◌else◌, Assoc}
use kube_stager.Api.{Time, StagingSite, ServiceConfig}
use kube_stager.Controller.{Result, ok, err, Error}
use kube_stager.Site.Status.{
  StatusApi, Updated, with_initial_state, last_spec_change, annotated, refresh_disable_at,
  refresh_delete_at, refresh_enabled, refresh_last_applied, load_configs, refresh_service_statuses,
  refresh_health, refresh_backup_time,
}
use kube_stager.Site.Backups.{refresh_backups}

-- From the backup window on.
ensure_backups : StatusApi → StagingSite → Bool → Updated
unfolding refresh_backup_time refresh_backups
ensure_backups api site changed =
    let updated = refresh_backup_time api.clock site changed site.spec.daily_backup_window_hour in
    elim updated.error [
      | some _ ↦ updated
      | none ↦ refresh_backups api updated.site updated.changed
    ]

-- From the service statuses on.
ensure_services : StatusApi → StagingSite → Bool → Assoc ServiceConfig → Updated
unfolding refresh_service_statuses refresh_health ensure_backups
ensure_services api site changed configs =
    let (site', services_changed) = refresh_service_statuses api site configs in
    ensure_backups api (refresh_health site') (changed || services_changed)

-- The steps on the times, which call no API.
unfoldable pub ensure_times : Time → Time → StagingSite → StagingSite × Bool
ensure_times now since site =
    let (site₁, c₁) = refresh_disable_at since site in
    let (site₂, c₂) = refresh_delete_at since site₁ in
    let (site₃, c₃) = refresh_enabled now site₂ in
    let (site₄, c₄) = refresh_last_applied since site₃ in (site₄, c₁ || (c₂ || (c₃ || c₄)))

ensure_since : StatusApi → Time → StagingSite → Updated
unfolding ensure_times ensure_services load_configs refresh_disable_at refresh_delete_at
    refresh_enabled refresh_last_applied
ensure_since api since site =
    let (site', changed) = ensure_times api.now since site in
    elim (load_configs api site'.spec.services []) [
      | err e ↦ record { site = site'; changed = false; error = some e }
      | ok configs ↦ ensure_services api site' changed configs
    ]

-- The annotation with the time of the last change of the spec, set to now.
write_annotation : StatusApi → StagingSite → Updated
write_annotation api site =
    let site' = annotated api site in
    elim (api.update_site site') [
      | ok _ ↦ record { site = site'; changed = true; error = none }
      | err e ↦ record { site = site'; changed = false; error = some e }
    ]

unfoldable pub ensure_status_is_up_to_date : StatusApi → StagingSite → Updated
unfolding last_spec_change ensure_since write_annotation
ensure_status_is_up_to_date api site =
    let site' = with_initial_state site in
    elim (last_spec_change api site') [
      | none ↦ write_annotation api site'
      | some since ↦ ensure_since api since site'
    ]
