-- ===== src/Site/Status.antt =====
-- `ensureStatusIsUpToDate` of controllers/site/stagingsite_controller.go, step by step in the order
-- of the source. A step returns the new site and whether the status has changed.
use kube_stager.Base.{
  ℕ, Bool, true, false, not, ◌&&◌, ◌||◌, Option, none, some, List, [], ◌∷◌, Text, bytes, is_empty,
  ◌==◌, if◌then◌else◌, is_some, ℤ, pos, negsuc, ◌+ℤ◌, ltb_ℤ, eq_ℤ, Assoc, lookup, insert, remove,
}
use kube_stager.Api.{
  Time, TimeInterval, StagingSite, StagingSiteService, StagingSiteState, StagingSiteServiceStatus,
  StagingSiteStatus, ServiceConfig, WorkloadHealth, Backup,
}
use kube_stager.Controller.{Result, ok, err, ◌>>=◌, Error}
use kube_stager.Names.{make_username, make_database_name}
use kube_stager.Site.Schedule.{Clock, to_duration, get_next_backup_time_for_site, utc_hour}

-- What the status update is answered: the clock, time.Format and time.Parse for RFC 3339, and the
-- API server.
pub record StatusApi : Type 0 where
  pub clock : Clock
  pub open clock use *
  pub md5_base36 : Text → Text
  pub format_time : Time → Text
  pub parse_time : Text → Option Time
  pub update_site : StagingSite → Result (Unit {0})
  pub get_service_config : Text → Result ServiceConfig
  pub list_backups : Result (List Backup)
  pub set_controller_reference : Result (Unit {0})
  pub update_backup : Backup → Result (Unit {0})
  pub delete_backup : Backup → Result (Unit {0})

-- The site, whether its status has changed, and the error.
pub record Updated : Type 0 where
  pub site : StagingSite
  pub changed : Bool
  pub error : Option Error

abbrev pub last_spec_change_at : Text
last_spec_change_at = bytes "operator.kube-stager.io/last-spec-change-at"

abbrev pub set_status : StagingSite → StagingSiteStatus → StagingSite
set_status site status = record site { status = status }

abbrev pub is_unset : StagingSiteState → Bool
is_unset StagingSiteState.unset = true
is_unset _ = false

abbrev pub with_initial_state : StagingSite → StagingSite
with_initial_state site =
    if is_unset site.status.state
    then set_status site (record site.status { state = StagingSiteState.pending })
    else site

-- m[k] of a map of strings: the empty string for a missing key.
abbrev pub text_or_empty : Option Text → Text
text_or_empty none = []
text_or_empty (some s) = s

-- The instant of the last change of the spec, if the annotation holds one.
unfoldable pub last_spec_change : StatusApi → StagingSite → Option Time
last_spec_change api site =
    let text = text_or_empty (lookup last_spec_change_at site.annotations) in
    if is_empty text then none else api.parse_time text

abbrev pub annotated : StatusApi → StagingSite → StagingSite
annotated api site = record site {
  meta = record site.meta {
    annotations = insert last_spec_change_at (api.format_time api.now) site.annotations;
  };
}

-- The time at which an interval after the change of the spec ends, and whether it is new.
abbrev pub is_time : Time → Option Time → Bool
is_time t none = false
is_time t (some u) = eq_ℤ u t

unfoldable pub end_of : TimeInterval → Time → Option Time → Option Time × Bool
end_of interval since current =
    let ends_at = since +ℤ to_duration interval in
    if interval.never
    then (none, is_some current)
    else if is_time ends_at current
    then (current, false)
    else (some ends_at, true)

unfoldable pub refresh_disable_at : Time → StagingSite → StagingSite × Bool
unfolding end_of
refresh_disable_at since site =
    let (t, changed) = end_of site.spec.disable_after since site.status.disable_at in
    (set_status site (record site.status { disable_at = t }), changed)

unfoldable pub refresh_delete_at : Time → StagingSite → StagingSite × Bool
unfolding end_of
refresh_delete_at since site =
    let (t, changed) = end_of site.spec.delete_after since site.status.delete_at in
    (set_status site (record site.status { delete_at = t }), changed)

abbrev pub is_after : Time → Option Time → Bool
is_after now none = true
is_after now (some t) = ltb_ℤ now t

-- `site.Spec.Enabled && (site.Status.DisableAt == nil || site.Status.DisableAt.After(r.Now()))`
abbrev pub expected_enabled : Time → StagingSite → Bool
expected_enabled now site = site.spec.enabled && is_after now site.status.disable_at

abbrev pub differ : Bool → Bool → Bool
differ true b = not b
differ false b = b

unfoldable pub refresh_enabled : Time → StagingSite → StagingSite × Bool
refresh_enabled now site =
    let expected = expected_enabled now site in
    if differ site.status.enabled expected
    then (
      set_status site (record site.status { enabled = expected; state = StagingSiteState.pending }),
      true,
    )
    else (site, false)

abbrev pub is_before : Option Time → Time → Bool
is_before none t = true
is_before (some u) t = ltb_ℤ u t

unfoldable pub refresh_last_applied : Time → StagingSite → StagingSite × Bool
refresh_last_applied since site =
    if is_before site.status.last_applied_configuration since
    then (set_status site (record site.status { last_applied_configuration = some since }), true)
    else (site, false)

-- The configs of the services in the spec, by their names.
unfoldable pub load_configs :
    StatusApi → Assoc StagingSiteService → Assoc ServiceConfig → Result (Assoc ServiceConfig)
load_configs api [] configs = ok configs
load_configs api ((name, _) ∷ services) configs = do
  config ← api.get_service_config name
  load_configs api services (insert config.name config configs)

abbrev pub fresh_service :
    StatusApi → StagingSite → ServiceConfig → StagingSiteServiceStatus → StagingSiteServiceStatus
fresh_service api site config status = record status {
  username = make_username api.md5_base36 site config;
  db_name = make_database_name api.md5_base36 site config;
}

-- The statuses that stay, the configs that have none yet, and whether a status was dropped.
unfoldable pub refresh_services :
    StatusApi
    → StagingSite
    → Assoc StagingSiteServiceStatus
    → Assoc ServiceConfig
    → Assoc StagingSiteServiceStatus × Assoc ServiceConfig × Bool
refresh_services api site [] configs = ([], configs, false)
refresh_services api site ((name, status) ∷ services) configs = elim (lookup name configs) [
  | some config ↦
      let (kept, unused, dropped) = refresh_services api site services (remove name configs) in
      ((name, fresh_service api site config status) ∷ kept, unused, dropped)
  | none ↦
      let (kept, unused, dropped) = refresh_services api site services configs in
      (kept, unused, true)
]

unfoldable pub new_service : StatusApi → StagingSite → ServiceConfig → StagingSiteServiceStatus
new_service api site config = record {
  username = make_username api.md5_base36 site config;
  db_name = make_database_name api.md5_base36 site config;
  redis_database_number = 0;
  ready_replicas = pos 0;
}

unfoldable pub add_services :
    StatusApi
    → StagingSite
    → Assoc ServiceConfig
    → Assoc StagingSiteServiceStatus
    → Assoc StagingSiteServiceStatus
unfolding new_service
add_services api site [] services = services
add_services api site ((name, config) ∷ configs) services =
    add_services api site configs (insert name (new_service api site config) services)

abbrev pub is_nonempty {ℓ} : {A : Type ℓ} → List A → Bool
is_nonempty [] = false
is_nonempty (_ ∷ _) = true

unfoldable pub refresh_service_statuses :
    StatusApi → StagingSite → Assoc ServiceConfig → StagingSite × Bool
unfolding refresh_services add_services
refresh_service_statuses api site configs =
    let (kept, unused, dropped) = refresh_services api site site.status.services configs in
    (
      set_status site (record site.status { services = add_services api site unused kept }),
      dropped || is_nonempty unused,
    )

abbrev pub initial_health : WorkloadHealth → WorkloadHealth
initial_health WorkloadHealth.unset = WorkloadHealth.incomplete
initial_health health = health

unfoldable pub refresh_health : StagingSite → StagingSite
refresh_health site =
    set_status site
      (record site.status { workload_health = initial_health site.status.workload_health })

-- `site.Status.NextBackupTime.UTC().Hour() != int(*site.Spec.DailyBackupWindowHour)`
abbrev pub is_hour : ℤ → ℕ → Bool
is_hour (pos h) n = h == n
is_hour (negsuc h) n = false

abbrev pub in_window : ℤ → Option Time → Bool
in_window h none = false
in_window h (some t) = is_hour h (utc_hour t)

-- The new time of the next backup. An error leaves the time nil.
unfoldable pub new_backup_time : StagingSite → Bool → Result (Option Time) → Updated
new_backup_time site changed (ok t) = record {
  site = set_status site (record site.status { next_backup_time = t });
  changed = true;
  error = none;
}
new_backup_time site changed (err e) = record {
  site = set_status site (record site.status { next_backup_time = none });
  changed = changed;
  error = some e;
}

unfoldable pub refresh_backup_time : Clock → StagingSite → Bool → Option ℤ → Updated
unfolding new_backup_time get_next_backup_time_for_site
refresh_backup_time clock site changed (some h) =
    if in_window h site.status.next_backup_time
    then record { site = site; changed = changed; error = none }
    else new_backup_time site changed (get_next_backup_time_for_site clock site)
refresh_backup_time clock site changed none =
    if is_some site.status.next_backup_time
    then record {
      site = set_status site (record site.status { next_backup_time = none });
      changed = true;
      error = none;
    }
    else record { site = site; changed = changed; error = none }
