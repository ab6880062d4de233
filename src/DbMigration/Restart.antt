-- ===== src/DbMigration/Restart.antt =====
-- A new image tag starts a database migration job again; what it does not reset.
use kube_stager.Base.{
  ◌+◌, ◌≤◌, ◌<◌, ◌≡◌, ◌≢◌, Option, none, some, List, length, arith, text_eq_iff, refl, inl, inr, ap,
  sym, ◌∙◌, List-cases, Option-cases,
}
use kube_stager.Api.{DbMigrationJob, running, failed, pending}
use kube_stager.Controller.{ok, BatchJob, u32, Result-cases}
use kube_stager.DbMigration.{
  DbMigrationApi, do_reconcile, with_state, restarted, create_job_if_needed, create_first_job,
  create_job,
}

-- What the API server stores after a reconciliation of `job`.
abbrev pub stored_or : DbMigrationJob → Option DbMigrationJob → DbMigrationJob
stored_or job none = job
stored_or job (some job') = job'

abbrev pub next : DbMigrationApi → DbMigrationJob → DbMigrationJob
next api job = stored_or job (do_reconcile (record api { get_job = ok job })).written

abbrev pub Accepts : DbMigrationApi → Type 0
Accepts api = (j : DbMigrationJob) → api.update_status j ≡ none

-- Whatever its state, a job whose image tag has changed becomes pending for the new tag, with a
-- deadline from now on and its count of misses as it was, once its batch jobs are deleted and where
-- updates are accepted.
pub new_tag_restarts :
    (api : DbMigrationApi) (job : DbMigrationJob)
    → job.spec.image_tag ≢ job.status.last_migrated_image_tag
    → api.delete_all_of ≡ ok tt
    → Accepts api
    → next api job ≡ restarted api job
unfolding do_reconcile
new_tag_restarts api job t d a = ground (
  arith,
  text_eq_iff job.spec.image_tag job.status.last_migrated_image_tag,
  a (restarted api job),
)

create_job_if_needed-runs :
    (api : DbMigrationApi) (job job' : DbMigrationJob) (batch_job : Option BatchJob)
    → create_job_if_needed api job ≡ ok (job', batch_job)
    → job' ≡ with_state job running
unfolding create_job_if_needed create_first_job
create_job_if_needed-runs api job job' batch_job h = elim (Result-cases api.list_jobs) [
  | inr (x, e) ↦ ground arith
  | inl (jobs, e) ↦ elim (List-cases jobs) [
    | inr (first, rest, e') ↦ ground arith
    | inl e' ↦ elim (Result-cases (api.get_service_config job.spec.service_name)) [
      | inr (x, e₁) ↦ ground arith
      | inl (config, e₁) ↦ elim (Result-cases (create_job api job config)) [
        | inr (x, e₂) ↦ ground arith
        | inl (made, e₂) ↦ elim (Result-cases (api.create made)) [
          | inr (x, e₃) ↦ ground arith
          | inl (u, e₃) ↦ ground arith
        ]
      ]
    ]
  ]
]

-- A pending job that has been started for its tag, and that a reconciliation brings to run, whether
-- it finds a batch job or creates one.
pending_runs :
    (api : DbMigrationApi) (job : DbMigrationJob)
    → job.spec.image_tag ≡ job.status.last_migrated_image_tag
    → job.status.state ≡ pending
    → (next api job).status.state ≡ running
    → next api job ≡ with_state job running
unfolding do_reconcile
pending_runs api job t s runs = elim (Result-cases (create_job_if_needed api job)) [
  | inr (x, e) ↦ ground (arith, text_eq_iff job.spec.image_tag job.status.last_migrated_image_tag)
  | inl ((job', batch_job), e) ↦ ground (
    arith,
    text_eq_iff job.spec.image_tag job.status.last_migrated_image_tag,
    create_job_if_needed-runs api job job' batch_job e,
    Option-cases (api.update_status (with_state job running)),
  )
]

-- The job after one more miss.
abbrev counted : DbMigrationJob → DbMigrationJob
counted job = record job {
  status = record job.status { job_not_found_count = u32 (job.status.job_not_found_count + 1) };
}

running_gives_up :
    (api : DbMigrationApi) (job : DbMigrationJob) (jobs : List BatchJob)
    → job.spec.image_tag ≡ job.status.last_migrated_image_tag
    → job.status.state ≡ running
    → 5 ≤ job.status.job_not_found_count
    → job.status.job_not_found_count < 4294967295
    → api.list_jobs ≡ ok jobs
    → length jobs ≢ 1
    → Accepts api
    → (next api job).status.state ≡ failed
unfolding do_reconcile
running_gives_up api job jobs t s low high l n a = ground (
  arith,
  text_eq_iff job.spec.image_tag job.status.last_migrated_image_tag,
  a (with_state (counted job) failed),
)

-- A job whose count of misses had reached five (as that of every job failed by misses has), and is
-- below the greatest of 32 bits, and whose image tag is not the last migrated one. A first
-- reconciliation restarts it, and can delete its batch jobs. If a second one then has it running,
-- with a batch job that it finds or creates, and a third lists none or several batch jobs, the job
-- fails at this first miss: it is not given the six misses in a row that a new job has. The first
-- and the third have their updates accepted.
pub stale_misses_fail :
    (api₁ api₂ api₃ : DbMigrationApi) (job : DbMigrationJob) (jobs : List BatchJob)
    → Accepts api₁
    → Accepts api₃
    → 5 ≤ job.status.job_not_found_count
    → job.status.job_not_found_count < 4294967295
    → job.spec.image_tag ≢ job.status.last_migrated_image_tag
    → api₁.delete_all_of ≡ ok tt
    → (next api₂ (next api₁ job)).status.state ≡ running
    → api₃.list_jobs ≡ ok jobs
    → length jobs ≢ 1
    → (next api₃ (next api₂ (next api₁ job))).status.state ≡ failed
stale_misses_fail api₁ api₂ api₃ job jobs a₁ a₃ low high t d runs l₃ n =
    let restart = new_tag_restarts api₁ job t d a₁ in
    let runs' = ap (λ j. (next api₂ j).status.state) (sym restart) ∙ runs in
    rw restart (
      rw (pending_runs api₂ (restarted api₁ job) refl refl runs') (
        running_gives_up api₃ (with_state (restarted api₁ job) running) jobs refl refl low high l₃ n
          a₃))
