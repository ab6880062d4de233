-- ===== src/Backup/Reconcile.antt =====
-- The loop over the services and `doReconcile` of controllers/job/backup_controller.go.
pub mod Steps
pub mod Completion
use kube_stager.Base.{
  Bool, true, false, not, ◌&&◌, ◌||◌, Option, none, some, List, [], ◌∷◌, Text, if◌then◌else◌,
  is_some, Assoc,
}
use kube_stager.Api.{
  Time, JobState, Backup, BackupStatusDetail, StagingSite, ServiceConfig, is_final,
}
use kube_stager.Controller.{
  Result, ok, err, Error, not_found, nil_dereference, done, requeue_now, Outcome, return,
  save_status_updates_if_object_changed, BatchJob, verdict, Verdict, finished, broken,
}
use kube_stager.Backup.{
  BackupApi, Pass, with_state, with_service, with_detail, service_status, is_failed, is_later,
  ensure_status_is_initialised, update_job_started_at_if_needed, get_batch_job_name,
  load_services_for_site, note_final_service, start_service,
}

-- `isChanged || r.updateJobStartedAtIfNeeded(...)`: after a change the start of the job stays.
note_start : BatchJob → Pass → Pass
unfolding update_job_started_at_if_needed
note_start batch_job pass =
    let (job, changed) = update_job_started_at_if_needed pass.job batch_job.creation_timestamp in
    if pass.changed then pass else record pass { job = job; changed = changed }

abbrev later : Time → Option Time → Option Time
later t last = if is_later t last then some t else last

-- What the conditions of the batch job say; a broken one fails the backup.
judge_service : Text → BackupStatusDetail → Option Verdict → Pass → Pass
judge_service name detail (some (finished t)) pass =
    let detail' = record detail { state = JobState.complete; job_finished_at = some t } in
    record pass {
      job = with_service pass.job name detail';
      changed = true;
      last_finished_at = later t pass.last_finished_at;
    }
judge_service name detail (some (broken _)) pass = record pass {
  job =
      with_service (with_state pass.job JobState.failed) name
        (record detail { state = JobState.failed });
  changed = true;
  all_finished = false;
}
judge_service name detail none pass = record pass {
  job = with_service pass.job name detail;
  all_finished = false;
}

-- A service whose batch job exists.
follow_service : Text → BatchJob → Pass → Pass
unfolding note_start judge_service verdict
follow_service name batch_job pass =
    let detail = service_status pass.job name in
    judge_service name (record detail { job_started_at = some batch_job.creation_timestamp })
      (verdict batch_job.conditions) (note_start batch_job pass)

unfoldable pub process_service :
    BackupApi → StagingSite → Text → ServiceConfig → Pass → Pass × Option Error
unfolding note_final_service start_service follow_service is_final get_batch_job_name
process_service api site name config pass =
    if is_final (service_status pass.job name).state
    then note_final_service (service_status pass.job name) pass
    else elim (api.get_batch_job (get_batch_job_name api name pass.job.name)) [
      | ok batch_job ↦ (follow_service name batch_job pass, none)
      | err not_found ↦ start_service api site name config pass
      | err e ↦ (pass, some e)
    ]

unfoldable pub process_services :
    BackupApi → StagingSite → Assoc ServiceConfig → Pass → Pass × Option Error
unfolding process_service
process_services api site [] pass = (pass, none)
process_services api site ((name, config) ∷ services) pass =
    let (pass', error) = process_service api site name config pass in
    elim error [ some e ↦ (pass', some e) | none ↦ process_services api site services pass' ]

-- The backup, whether its status has changed, and the error.
abbrev pub Processed : Type 0
Processed = Backup × Bool × Option Error

-- No service of the site has a backup.
complete_empty : Time → Backup → Processed
unfolding update_job_started_at_if_needed
complete_empty now job =
    let started = (update_job_started_at_if_needed (with_state job JobState.complete) now).0 in
    let finished_at =
      if is_some started.status.job_finished_at then started.status.job_finished_at else some now in
    (
      with_detail started (record started.status.detail { job_finished_at = finished_at }),
      true,
      none,
    )

-- The end of the loop: the job is complete if every service has finished and none has failed.
complete_if_finished : Pass × Option Error → Processed
complete_if_finished (pass, some e) = (pass.job, pass.changed, some e)
complete_if_finished (pass, none) =
    if not (is_failed pass.job.status.state) && pass.all_finished
    then (
      with_detail pass.job (record pass.job.status.detail {
        state = JobState.complete;
        job_finished_at =
            if is_some pass.last_finished_at
            then pass.last_finished_at
            else pass.job.status.job_finished_at;
      }),
      true,
      none,
    )
    else (pass.job, pass.changed, none)

process_loaded : BackupApi → StagingSite → Backup × Bool × Result (Assoc ServiceConfig) → Processed
unfolding complete_empty complete_if_finished process_services
process_loaded api site (job, changed, err e) = (job, changed, some e)
process_loaded api site (job, changed, ok []) = complete_empty api.now job
process_loaded api site (job, changed, ok (service ∷ services)) = complete_if_finished (
    process_services api site (service ∷ services)
      (record { job = job; changed = changed; all_finished = true; last_finished_at = none }))

unfoldable pub ensure_jobs_are_up_to_date : BackupApi → Backup → Processed
unfolding process_loaded load_services_for_site
ensure_jobs_are_up_to_date api job = elim (api.get_site job.site_name) [
  | err e ↦ (job, false, some e)
  | ok site ↦ process_loaded api site (load_services_for_site api job site.status.services false)
]

save : BackupApi → Processed → Outcome Backup
unfolding save_status_updates_if_object_changed
save api (job, changed, error) =
    save_status_updates_if_object_changed changed api.update_status job done error

-- A job in a final state is only logged as skipped: the reconciliation goes on.
reconcile_job : BackupApi → Backup → Outcome Backup
unfolding ensure_status_is_initialised ensure_jobs_are_up_to_date save
reconcile_job api job =
    let (job', initialised) = ensure_status_is_initialised job in
    if initialised
    then save_status_updates_if_object_changed true api.update_status job' requeue_now none
    else save api (ensure_jobs_are_up_to_date api job')

unfoldable pub do_reconcile : BackupApi → Outcome Backup
unfolding reconcile_job
do_reconcile api = elim api.get_backup [
  | ok job ↦ reconcile_job api job
  | err not_found ↦ return done none
  | err e ↦ return done (some e)
]
