-- ===== src/Backup/Reconcile/Steps.antt =====
-- The steps of the loop of processServiceInJob, controllers/job/backup_controller.go.
use kube_stager.Base.{
  ◌≡◌, inl, inr, true, false, Option, none, some, [], ◌∷◌, arith, Assoc, Text, lookup-insert,
  text_eq_iff, Option-cases, Bool-cases, All,
}
use kube_stager.Api.{JobState, StagingSite, ServiceConfig, is_final, BackupStatusDetail}
use kube_stager.Controller.{verdict, finished, broken, BatchJob, Result-cases, Verdict}
use kube_stager.Backup.{
  BackupApi, Pass, service_status, is_failed, is_complete, update_job_started_at_if_needed,
  note_final_service, note_complete_service, start_service, get_batch_job_name, get_new_backup_job,
}
use kube_stager.Backup.Reconcile.{
  process_service, process_services, follow_service, judge_service, note_start,
}

-- What a step of the loop that leaves all finished and nothing failed has found and done.
record GoodStep (before after : Pass) (name : Text) : Type 0 where
  pub finished_before : before.all_finished ≡ true
  pub not_failed_before : is_failed before.job.status.state ≡ false
  pub complete_now : is_complete (service_status after.job name).state ≡ true
  pub kept :
      (other : Text)
      → is_complete (service_status before.job other).state ≡ true
      → is_complete (service_status after.job other).state ≡ true

note_start-same :
    (batch_job : BatchJob) (pass : Pass)
    → ((note_start batch_job pass).job.status.state ≡ pass.job.status.state)
      × ((note_start batch_job pass).job.status.services ≡ pass.job.status.services)
      × ((note_start batch_job pass).all_finished ≡ pass.all_finished)
unfolding note_start update_job_started_at_if_needed
note_start-same batch_job pass = ground arith

judge_service-good :
    (name : Text) (detail : BackupStatusDetail) (v : Option Verdict) (pass : Pass)
    → (judge_service name detail v pass).all_finished ≡ true
    → is_failed (judge_service name detail v pass).job.status.state ≡ false
    → GoodStep pass (judge_service name detail v pass) name
unfolding judge_service
judge_service-good name detail (some (finished t)) pass all safe = record {
  finished_before = all;
  not_failed_before = safe;
  complete_now = ground (
    arith,
    lookup-insert name name (record detail { state = JobState.complete; job_finished_at = some t })
        pass.job.status.services,
    text_eq_iff name name,
  );
  kept = λ other h. ground (
    arith,
    lookup-insert name other (record detail { state = JobState.complete; job_finished_at = some t })
        pass.job.status.services,
  );
}
judge_service-good name detail (some (broken t)) pass all safe = ground arith
judge_service-good name detail none pass all safe = ground arith

follow_service-good :
    (name : Text) (batch_job : BatchJob) (pass : Pass)
    → (follow_service name batch_job pass).all_finished ≡ true
    → is_failed (follow_service name batch_job pass).job.status.state ≡ false
    → GoodStep pass (follow_service name batch_job pass) name
unfolding follow_service
follow_service-good name batch_job pass all safe =
    let (same_state, same_services, same_all) = note_start-same batch_job pass in
    let good =
      judge_service-good name
        (record (service_status pass.job name) {
          job_started_at = some batch_job.creation_timestamp;
        })
        (verdict batch_job.conditions) (note_start batch_job pass) all safe in
    record {
      finished_before = ground (arith, good.finished_before);
      not_failed_before = ground (arith, good.not_failed_before);
      complete_now = good.complete_now;
      kept = λ other h. good.kept other (ground arith);
    }

start_service-unfinished :
    (api : BackupApi) (site : StagingSite) (name : Text) (config : ServiceConfig) (pass : Pass)
    → (start_service api site name config pass).1 ≡ none
    → (start_service api site name config pass).0.all_finished ≡ false
unfolding start_service
start_service-unfinished api site name config pass h =
    elim (Result-cases (get_new_backup_job api pass.job site config)) [
      | inr (x, e) ↦ ground arith
      | inl (batch_job, e) ↦ elim (Result-cases (api.create batch_job)) [
        | inr (x, e') ↦ ground arith
        | inl (u, e') ↦ ground arith
      ]
    ]

note_final_service-good :
    (name : Text) (pass : Pass)
    → is_final (service_status pass.job name).state ≡ true
    → (note_final_service (service_status pass.job name) pass).1 ≡ none
    → (note_final_service (service_status pass.job name) pass).0.all_finished ≡ true
    → is_failed (note_final_service (service_status pass.job name) pass).0.job.status.state ≡ false
    → GoodStep pass (note_final_service (service_status pass.job name) pass).0 name
unfolding note_final_service note_complete_service is_final
note_final_service-good name pass final h all safe = record {
  finished_before = ground arith;
  not_failed_before = ground arith;
  complete_now = ground arith;
  kept = λ other h. ground arith;
}

process_service-good :
    (api : BackupApi) (site : StagingSite) (name : Text) (config : ServiceConfig) (pass : Pass)
    → (process_service api site name config pass).1 ≡ none
    → (process_service api site name config pass).0.all_finished ≡ true
    → is_failed (process_service api site name config pass).0.job.status.state ≡ false
    → GoodStep pass (process_service api site name config pass).0 name
unfolding process_service
process_service-good api site name config pass h all safe =
    elim (Bool-cases (is_final (service_status pass.job name).state)) [
      | inl e ↦ ground (arith, note_final_service-good name pass e)
      | inr e ↦
          elim (Result-cases (api.get_batch_job (get_batch_job_name api name pass.job.name))) [
            | inl (batch_job, e') ↦ ground (arith, follow_service-good name batch_job pass)
            | inr (x, e') ↦ ground (arith, start_service-unfinished api site name config pass)
          ]
    ]

-- Of a loop that leaves all finished and nothing failed.
pub record GoodLoop (before after : Pass) (services : Assoc ServiceConfig) : Type 0 where
  pub finished_before : before.all_finished ≡ true
  pub not_failed_before : is_failed before.job.status.state ≡ false
  pub complete_now : All (λ s. is_complete (service_status after.job s.0).state ≡ true) services
  pub kept :
      (other : Text)
      → is_complete (service_status before.job other).state ≡ true
      → is_complete (service_status after.job other).state ≡ true

pub process_services-good :
    (api : BackupApi) (site : StagingSite) (services : Assoc ServiceConfig) (pass : Pass)
    → (process_services api site services pass).1 ≡ none
    → (process_services api site services pass).0.all_finished ≡ true
    → is_failed (process_services api site services pass).0.job.status.state ≡ false
    → GoodLoop pass (process_services api site services pass).0 services
unfolding process_services
process_services-good api site [] pass h all safe = record {
  finished_before = all;
  not_failed_before = safe;
  complete_now = tt;
  kept = λ other k. k;
}
process_services-good api site ((name, config) ∷ services) pass h all safe =
    let step = process_service api site name config pass in
    elim (Option-cases step.1) [
      | inr (x, e) ↦ ground arith
      | inl e ↦
          let rest =
            process_services-good api site services step.0 (ground arith) (ground arith)
              (ground arith) in
          let good =
            process_service-good api site name config pass e rest.finished_before
              rest.not_failed_before in
          record {
            finished_before = good.finished_before;
            not_failed_before = good.not_failed_before;
            complete_now = ground (arith, rest.complete_now, rest.kept name good.complete_now);
            kept = λ other k. ground (arith, rest.kept other (good.kept other k));
          }
    ]
