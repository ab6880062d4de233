-- ===== src/Site/Ensure/Window.antt =====
-- A negative hour of the daily backup window, which the site's schema allows (its minimum is -1).
use kube_stager.Base.{
  ℕ, ◌≡◌, ◌≢◌, ◌⊎◌, inl, inr, Bool, true, none, some, [], ◌∙◌, ◌||◌, Option-cases, negsuc, arith,
  Assoc,
}
use kube_stager.Api.{Time, StagingSite, ServiceConfig}
use kube_stager.Controller.{Result-cases}
use kube_stager.Site.Status.{
  StatusApi, Updated, refresh_backup_time, set_status, refresh_service_statuses, refresh_health,
  refresh_disable_at, refresh_delete_at, refresh_enabled, refresh_last_applied, with_initial_state,
  last_spec_change, load_configs,
}
use kube_stager.Site.Backups.Scanning.{refresh-changed}
use kube_stager.Site.Ensure.{
  ensure_backups, ensure_services, ensure_since, ensure_times, ensure_status_is_up_to_date,
}

-- Either the status has changed, or there is an error: the reconciliation stops there.
abbrev pub IsUnsettled : Updated → Type 0
IsUnsettled updated = (updated.changed ≡ true) ⊎ (updated.error ≢ none)

ensure_backups-IsUnsettled :
    (api : StatusApi) (site : StagingSite) (changed : Bool) (n : ℕ)
    → site.spec.daily_backup_window_hour ≡ some (negsuc n)
    → (ensure_backups api site changed).changed ≡ true
unfolding ensure_backups refresh_backup_time
ensure_backups-IsUnsettled api site changed n h =
    ground (
      arith,
      refresh-changed api (set_status site (record site.status { next_backup_time = none })),
    )

ensure_services-IsUnsettled :
    (api : StatusApi) (site : StagingSite) (changed : Bool) (configs : Assoc ServiceConfig) (n : ℕ)
    → site.spec.daily_backup_window_hour ≡ some (negsuc n)
    → (ensure_services api site changed configs).changed ≡ true
unfolding ensure_services refresh_service_statuses refresh_health
ensure_services-IsUnsettled api site changed configs n h =
    let (site', services_changed) = refresh_service_statuses api site configs in
    ensure_backups-IsUnsettled api (refresh_health site') (changed || services_changed) n h

-- The spec is not touched by the steps on the times.
same-hour :
    (now since : Time) (site : StagingSite)
    → (ensure_times now since site).0.spec.daily_backup_window_hour
      ≡ site.spec.daily_backup_window_hour
unfolding ensure_times refresh_disable_at refresh_delete_at refresh_enabled refresh_last_applied
same-hour now since site = ground arith

initial-hour :
    (site : StagingSite)
    → (with_initial_state site).spec.daily_backup_window_hour ≡ site.spec.daily_backup_window_hour
initial-hour site = ground arith

ensure_since-IsUnsettled :
    (api : StatusApi) (since : Time) (site : StagingSite) (n : ℕ)
    → site.spec.daily_backup_window_hour ≡ some (negsuc n)
    → IsUnsettled (ensure_since api since site)
unfolding ensure_since
ensure_since-IsUnsettled api since site n h =
    let (site', changed) = ensure_times api.now since site in
    elim (Result-cases (load_configs api site'.spec.services [])) [
      | inl (configs, e) ↦ ground (
        arith,
        ensure_services-IsUnsettled api site' changed configs n (same-hour api.now since site ∙ h),
      )
      | inr (x, e) ↦ ground arith
    ]

-- With a negative hour, every update of the status reports a change or an error, whatever the status
-- already holds and whatever the API server answers.
pub negative_hour_never_settles :
    (api : StatusApi) (site : StagingSite) (n : ℕ)
    → site.spec.daily_backup_window_hour ≡ some (negsuc n)
    → IsUnsettled (ensure_status_is_up_to_date api site)
unfolding ensure_status_is_up_to_date
negative_hour_never_settles api site n h =
    elim (Option-cases (last_spec_change api (with_initial_state site))) [
      | inl e ↦ ground arith
      | inr (since, e) ↦ ground (
        arith,
        ensure_since-IsUnsettled api since (with_initial_state site) n (initial-hour site ∙ h),
      )
    ]
