-- ===== src/Backup/Reconcile/Completion.antt =====
-- When `doReconcile` of controllers/job/backup_controller.go completes a backup.
use kube_stager.Base.{
  ◌≡◌, inl, inr, Bool, true, false, none, some, [], ◌∷◌, arith, ◌&&◌, ◌||◌, if◌then◌else◌, Assoc,
  Text, Option-cases, Bool-cases, All, not,
}
use kube_stager.Api.{Backup, StagingSiteServiceStatus, JobState, StagingSite, ServiceConfig}
use kube_stager.Controller.{Result, ok, Result-cases, save_status_updates_if_object_changed}
use kube_stager.Backup.{
  BackupApi, Pass, with_service, service_status, is_failed, is_complete,
  update_job_started_at_if_needed, note_final_service, note_complete_service, start_service,
  is_unset, load_services_for_site, ensure_status_is_initialised,
}
use kube_stager.Backup.Reconcile.Steps.{process_services-good}
use kube_stager.Backup.Reconcile.{
  process_service, process_services, follow_service, judge_service, note_start, process_loaded,
  complete_if_finished, do_reconcile, reconcile_job, ensure_jobs_are_up_to_date, save,
}

-- The loop itself never completes the backup.
process_service-incomplete :
    (api : BackupApi) (site : StagingSite) (name : Text) (config : ServiceConfig) (pass : Pass)
    → is_complete pass.job.status.state ≡ false
    → is_complete (process_service api site name config pass).0.job.status.state ≡ false
unfolding process_service note_final_service note_complete_service start_service follow_service
    judge_service note_start update_job_started_at_if_needed
process_service-incomplete api site name config pass h = ground arith

process_services-incomplete :
    (api : BackupApi) (site : StagingSite) (services : Assoc ServiceConfig) (pass : Pass)
    → is_complete pass.job.status.state ≡ false
    → is_complete (process_services api site services pass).0.job.status.state ≡ false
unfolding process_services
process_services-incomplete api site [] pass h = h
process_services-incomplete api site ((name, config) ∷ services) pass h =
    let step = process_service api site name config pass in
    let kept = process_service-incomplete api site name config pass h in
    elim (Option-cases step.1) [
      | inr (x, e) ↦ ground (arith, kept)
      | inl e ↦ ground (arith, process_services-incomplete api site services step.0 kept)
    ]

load_services-incomplete :
    (api : BackupApi) (job : Backup) (services : Assoc StagingSiteServiceStatus) (changed : Bool)
    → is_complete job.status.state ≡ false
    → is_complete (load_services_for_site api job services changed).0.status.state ≡ false
unfolding load_services_for_site
load_services-incomplete api job [] changed h = h
load_services-incomplete api job ((name, s) ∷ services) changed h =
    let is_new = is_unset (service_status job name).state in
    let noted : Backup =
      if is_new
      then with_service job name (record (service_status job name) { state = JobState.pending })
      else job in
    elim (Result-cases (api.get_service_config name)) [
      | inr (x, e) ↦ ground arith
      | inl (config, e) ↦ elim (Option-cases config.spec.backup_pod_spec) [
        | inl e' ↦ ground (arith, load_services-incomplete api job services changed h)
        | inr (spec, e') ↦
            ground (
              arith,
              load_services-incomplete api noted services (changed || is_new) (ground arith),
            )
      ]
    ]

abbrev pub loaded_of : Backup × Bool × Result (Assoc ServiceConfig) → Result (Assoc ServiceConfig)
loaded_of (job, changed, loaded) = loaded

-- The services that the site's backup is made of, as they are loaded.
abbrev pub loaded_services : BackupApi → Backup → StagingSite → Result (Assoc ServiceConfig)
loaded_services api job site = loaded_of (load_services_for_site api job site.status.services false)

-- Every one of the services is complete in the status of the backup.
abbrev pub AreComplete : Backup → Assoc ServiceConfig → Type 0
AreComplete job services = All (λ s. is_complete (service_status job s.0).state ≡ true) services

AreComplete-same :
    (job job' : Backup) (services : Assoc ServiceConfig)
    → job'.status.services ≡ job.status.services
    → AreComplete job services
    → AreComplete job' services
AreComplete-same job job' [] same complete = tt
AreComplete-same job job' (service ∷ services) same complete =
    (ground (arith, complete.0), AreComplete-same job job' services same complete.1)

process_loaded_complete :
    (api : BackupApi) (site : StagingSite) (job : Backup) (changed : Bool)
    (services : Assoc ServiceConfig)
    → is_complete job.status.state ≡ false
    → is_complete (process_loaded api site (job, changed, ok services)).0.status.state ≡ true
    → AreComplete (process_loaded api site (job, changed, ok services)).0 services
unfolding process_loaded complete_if_finished
process_loaded_complete api site job changed [] fresh h = tt
process_loaded_complete api site job changed (service ∷ services) fresh h =
    let start : Pass = record {
      job = job;
      changed = changed;
      all_finished = true;
      last_finished_at = none;
    } in
    let looped = process_services api site (service ∷ services) start in
    let incomplete = process_services-incomplete api site (service ∷ services) start fresh in
    elim (Option-cases looped.1) [
      | inr (x, e) ↦ ground arith
      | inl e ↦
          elim (Bool-cases (not (is_failed looped.0.job.status.state) && looped.0.all_finished)) [
            | inr e' ↦ ground arith
            | inl e' ↦
                let good =
                  process_services-good api site (service ∷ services) start e (ground arith)
                    (ground arith) in
                AreComplete-same looped.0.job
                  (process_loaded api site (job, changed, ok (service ∷ services))).0
                  (service ∷ services) (ground arith) good.complete_now
          ]
    ]

-- A backup that a reconciliation completes: each service of the site that has a backup pod spec, as
-- the reconciliation loads them, is complete in the status that is written.
pub complete_backup_has_complete_services :
    (api : BackupApi) (job w : Backup) (site : StagingSite) (services : Assoc ServiceConfig)
    → api.get_backup ≡ ok job
    → is_complete job.status.state ≡ false
    → api.get_site job.site_name ≡ ok site
    → loaded_services api job site ≡ ok services
    → (do_reconcile api).written ≡ some w
    → is_complete w.status.state ≡ true
    → AreComplete w services
unfolding do_reconcile reconcile_job ensure_status_is_initialised ensure_jobs_are_up_to_date save
    save_status_updates_if_object_changed
complete_backup_has_complete_services api job w site services got fresh found loaded written
      done_now =
    let (job', changed, loading) = load_services_for_site api job site.status.services false in
    let fresh' = load_services-incomplete api job site.status.services false fresh in
    let processed = process_loaded api site (job', changed, ok services) in
    let same : w ≡ processed.0 = ground arith in
    AreComplete-same processed.0 w services (ground (arith, same))
      (process_loaded_complete api site job' changed services fresh' (ground (arith, same)))
