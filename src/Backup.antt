-- ===== src/Backup.antt =====
-- controllers/job/backup_controller.go: the reconciler of backup jobs. Logging, metrics and Sentry are
-- left out.
pub mod Reconcile
use kube_stager.Base.{
  Bool, true, false, not, ◌&&◌, ◌||◌, Option, none, some, List, [], ◌∷◌, ◌++◌, Text, bytes,
  if◌then◌else◌, is_some, pos, ltb_ℤ, Assoc, lookup, insert, length, ltb, ◌==◌,
}
use kube_stager.Api.{
  Time, JobState, Backup, BackupStatus, BackupStatusDetail, StagingSite, StagingSiteServiceStatus,
  ServiceConfig, is_final, label_type, label_job_name, label_site, label_service,
}
use kube_stager.Pods.{set_extra_env_vars_on_pod_spec}
use kube_stager.Controller.{
  Result, ok, err, ◌>>=◌, ◌>>◌, Error, not_found, message, nil_dereference, done, requeue_now,
  Outcome, return, save_status_updates_if_object_changed, BatchJob, BatchApi, JobConfig, verdict,
  finished, broken, fix_restart_policy,
}
use kube_stager.Names.{shorten_human_readable_value}

-- What the reconciler is answered: the clock, the API server, and the project's configuration.
pub record BackupApi : Type 0 where
  pub batch : BatchApi
  pub open batch use *
  pub now : Time
  pub md5_base36 : Text → Text
  pub backup_job_config : JobConfig
  pub get_backup : Result Backup
  pub get_batch_job : Text → Result BatchJob
  pub update_status : Backup → Option Error

abbrev pub is_unset : JobState → Bool
is_unset JobState.unset = true
is_unset _ = false

abbrev pub is_failed : JobState → Bool
is_failed JobState.failed = true
is_failed _ = false

abbrev pub is_complete : JobState → Bool
is_complete JobState.complete = true
is_complete _ = false

abbrev pub with_detail : Backup → BackupStatusDetail → Backup
with_detail job detail = record job { status = record job.status { detail = detail } }

abbrev pub with_state : Backup → JobState → Backup
with_state job state = with_detail job (record job.status.detail { state = state })

abbrev pub with_service : Backup → Text → BackupStatusDetail → Backup
with_service job name detail = record job {
  status = record job.status { services = insert name detail job.status.services };
}

-- A missing service reads as the zero status.
abbrev detail_or_zero : Option BackupStatusDetail → BackupStatusDetail
detail_or_zero none = record {
  state = JobState.unset;
  job_started_at = none;
  job_finished_at = none;
}
detail_or_zero (some detail) = detail

abbrev pub service_status : Backup → Text → BackupStatusDetail
service_status job name = detail_or_zero (lookup name job.status.services)

-- A status with no state gets Pending.
unfoldable pub ensure_status_is_initialised : Backup → Backup × Bool
ensure_status_is_initialised job =
    if is_unset job.status.state then (with_state job JobState.pending, true) else (job, false)

abbrev starts_before : Time → Option Time → Bool
starts_before t none = true
starts_before t (some started) = ltb_ℤ t started

unfoldable pub update_job_started_at_if_needed : Backup → Time → Backup × Bool
update_job_started_at_if_needed job t =
    if starts_before t job.status.job_started_at
    then (with_detail job (record job.status.detail { job_started_at = some t }), true)
    else (job, false)

get_batch_job_name : BackupApi → Text → Text → Text
unfolding shorten_human_readable_value
get_batch_job_name api service job =
    shorten_human_readable_value api.md5_base36 (bytes "backup-" ++ (service ++ (b'-' ∷ job)))
      (pos 50)

-- The services of the site that have a backup pod spec; a new one is noted as pending.
unfoldable pub load_services_for_site :
    BackupApi
    → Backup
    → Assoc StagingSiteServiceStatus
    → Bool
    → Backup × Bool × Result (Assoc ServiceConfig)
load_services_for_site api job [] changed = (job, changed, ok [])
load_services_for_site api job ((name, _) ∷ services) changed = elim (api.get_service_config name) [
  | err e ↦ (job, changed, err e)
  | ok config ↦ elim config.spec.backup_pod_spec [
    | none ↦ load_services_for_site api job services changed
    | some _ ↦
        let is_new = is_unset (service_status job name).state in
        let noted : Backup =
          if is_new
          then with_service job name (record (service_status job name) { state = JobState.pending })
          else job in
        let (job', changed', loaded) =
          load_services_for_site api noted services (changed || is_new) in
        (job', changed', loaded >>= λ rest. ok (insert name config rest))
  ]
]

get_new_backup_job : BackupApi → Backup → StagingSite → ServiceConfig → Result BatchJob
unfolding set_extra_env_vars_on_pod_spec fix_restart_policy get_batch_job_name
get_new_backup_job api job site config = elim config.spec.backup_pod_spec [
  | none ↦ err nil_dereference
  | some spec ↦ do
    pod_spec ← api.render site config spec
    let batch_job : BatchJob = record {
      name = get_batch_job_name api config.name job.name;
      namespace = job.namespace;
      labels =
          (label_type, bytes "backup")
          ∷ (label_job_name, job.name)
          ∷ (label_site, job.site_name)
          ∷ (label_service, config.name)
          ∷ [];
      controller = job.name;
      active_deadline_seconds = api.backup_job_config.deadline_seconds;
      backoff_limit = api.backup_job_config.backoff_limit;
      ttl_seconds_after_finished = api.backup_job_config.ttl_seconds;
      pod_spec = set_extra_env_vars_on_pod_spec (fix_restart_policy pod_spec) site config;
      creation_timestamp = api.now;
      conditions = [];
    }
    api.set_controller_reference
    ok batch_job
]

-- The variables of the loop over the services.
pub record Pass : Type 0 where
  pub job : Backup
  pub changed : Bool
  pub all_finished : Bool
  pub last_finished_at : Option Time

abbrev pub is_later : Time → Option Time → Bool
is_later t none = true
is_later t (some last) = ltb_ℤ last t

-- A service that is in a final state.
note_complete_service : Option Time → Pass → Pass × Option Error
note_complete_service none pass = (record pass { changed = false }, some nil_dereference)
note_complete_service (some t) pass =
    if is_later t pass.last_finished_at
    then (record pass { last_finished_at = some t; changed = true }, none)
    else (pass, none)

unfoldable pub note_final_service : BackupStatusDetail → Pass → Pass × Option Error
unfolding note_complete_service
note_final_service detail pass =
    if is_failed detail.state
    then (record pass { job = with_state pass.job JobState.failed; changed = true }, none)
    else note_complete_service detail.job_finished_at pass

-- A service with no batch job yet. The status of the service is stored only after the creation.
unfoldable pub start_service :
    BackupApi → StagingSite → Text → ServiceConfig → Pass → Pass × Option Error
unfolding get_new_backup_job update_job_started_at_if_needed
start_service api site name config pass = elim (get_new_backup_job api pass.job site config) [
  | err e ↦ (pass, some e)
  | ok batch_job ↦
      let job = with_state (update_job_started_at_if_needed pass.job api.now).0 JobState.running in
      let detail : BackupStatusDetail = record {
        state = JobState.running;
        job_started_at = some api.now;
        job_finished_at = none;
      } in
      elim (api.create batch_job) [
        | err e ↦ (record pass { job = job; changed = true }, some e)
        | ok _ ↦ (
          record pass { job = with_service job name detail; changed = true; all_finished = false },
          none,
        )
      ]
]
