-- ===== src/DbInit.antt =====
-- controllers/job/dbinitjob_controller.go: the reconciler of database initialisation jobs. Logging,
-- metrics and Sentry are left out; they change no object.
pub mod States
pub mod NotFound
pub mod Running
pub mod Launch
use kube_stager.Base.{
  ℕ, ◌+◌, ◌%◌, ◌^◌, Bool, true, false, not, ◌&&◌, ◌||◌, Option, none, some, List, [], ◌∷◌, ◌++◌,
  Text, bytes, text_eq, is_empty, ltb, if◌then◌else◌, is_some, ℤ, pos, ◌+ℤ◌, ◌*ℤ◌, wrap64, ltb_ℤ,
}
use kube_stager.Api.{
  Time, JobState, DbInitJob, PodSpec, ServiceConfig, pending, running, failed, complete, label_type,
  label_job_name, label_site, label_service,
}
use kube_stager.Pods.{set_extra_env_vars_on_pod_spec}
use kube_stager.Controller.{
  Result, ok, err, ◌>>=◌, ◌>>◌, Error, not_found, message, nil_dereference, done, requeue_now,
  Outcome, return, save_status_updates_if_object_changed, BatchJob, BatchApi, JobConfig, verdict,
  finished, broken, u32, deadline_after, db_init_max_job_failed_load_limit, fix_restart_policy,
}
use kube_stager.Names.{shorten_human_readable_value}

-- What the reconciler is answered: the clock, the API server, and the project's configuration.
pub record DbInitApi : Type 0 where
  pub batch : BatchApi
  pub open batch use *
  pub now : Time
  pub md5_base36 : Text → Text
  pub init_job_config : JobConfig
  pub get_job : Result DbInitJob
  pub list_jobs : Result (List BatchJob)
  pub get_mysql : Text → Result (Unit {0})
  pub get_mongo : Text → Result (Unit {0})
  pub update_status : DbInitJob → Option Error

abbrev pub with_state : DbInitJob → JobState → DbInitJob
with_state job state = record job { status = record job.status { state = state } }

-- The state of the job, whether its status has changed, and the error.
abbrev pub Processed : Type 0
Processed = DbInitJob × Bool × Option Error

-- `time.Now().After(job.Status.DeadlineTimestamp.Time)`, on a job still running. On a nil deadline
-- the reconciliation panics, and writes nothing.
check_deadline : Time → DbInitJob → Bool → Option Time → Processed
check_deadline now job changed none = (job, false, some nil_dereference)
check_deadline now job changed (some deadline) =
    if ltb_ℤ deadline now then (with_state job failed, true, none) else (job, changed, none)

process_listed_jobs : Time → DbInitJob → List BatchJob → Processed
unfolding check_deadline verdict
process_listed_jobs now job (batch_job ∷ []) =
    let changed = ltb 0 job.status.job_not_found_count in
    let job' : DbInitJob =
      if changed
      then record job { status = record job.status { job_not_found_count = 0 } }
      else job in
    elim (verdict batch_job.conditions) [
      | some (finished _) ↦ (with_state job' complete, true, none)
      | some (broken _) ↦ (with_state job' failed, true, none)
      | none ↦ check_deadline now job' changed job'.status.deadline_timestamp
    ]
process_listed_jobs now job _ =
    let count = u32 (job.status.job_not_found_count + 1) in
    let job' = record job { status = record job.status { job_not_found_count = count } } in
    (
      if ltb db_init_max_job_failed_load_limit count then with_state job' failed else job',
      true,
      none,
    )

unfoldable pub process_running_job : DbInitApi → DbInitJob → Processed
unfolding process_listed_jobs
process_running_job api job = elim api.list_jobs [
  | err e ↦ (job, false, some e)
  | ok jobs ↦ process_listed_jobs api.now job jobs
]

-- `getMysqlConfig` and `getMongoConfig`: no name, no config.
get_config : (Text → Result (Unit {0})) → Text → Result (Option (Unit {0}))
get_config get name = if is_empty name then ok none else (do get name; ok (some tt))

create_job : DbInitApi → DbInitJob → ServiceConfig → Result BatchJob
unfolding set_extra_env_vars_on_pod_spec fix_restart_policy shorten_human_readable_value
create_job api job service_config = elim service_config.spec.db_init_pod_spec [
  | none ↦ err (message (bytes "no db init pod spec specified in the service config"))
  | some spec ↦ do
    site ← api.get_site job.spec.site_name
    pod_spec ← api.render site service_config spec
    let batch_job : BatchJob = record {
      name = shorten_human_readable_value api.md5_base36 (bytes "dbinit-" ++ job.name) (pos 50);
      namespace = job.namespace;
      labels =
          (label_type, bytes "dbinit")
          ∷ (label_job_name, job.name)
          ∷ (label_site, job.spec.site_name)
          ∷ (label_service, job.spec.service_name)
          ∷ [];
      controller = job.name;
      active_deadline_seconds = api.init_job_config.deadline_seconds;
      backoff_limit = api.init_job_config.backoff_limit;
      ttl_seconds_after_finished = api.init_job_config.ttl_seconds;
      pod_spec = set_extra_env_vars_on_pod_spec (fix_restart_policy pod_spec) site service_config;
      creation_timestamp = api.now;
      conditions = [];
    }
    api.set_controller_reference
    ok batch_job
]

-- The new state of the job and the batch job that was created: `true, nil` in the source. An error
-- is `false, err`, and leaves the job as it was.
create_and_run : DbInitApi → DbInitJob → ServiceConfig → Result (DbInitJob × Option BatchJob)
unfolding create_job
create_and_run api job service_config = do
  batch_job ← create_job api job service_config
  api.create batch_job
  ok (with_state job running, some batch_job)

create_first_job : DbInitApi → DbInitJob → Result (DbInitJob × Option BatchJob)
unfolding get_config create_and_run
create_first_job api job = do
  mysql_config ← get_config api.get_mysql job.spec.mysql_environment
  mongo_config ← get_config api.get_mongo job.spec.mongo_environment
  if not (is_some mysql_config) && not (is_some mongo_config)
      then ok (with_state job failed, none)
      else do
        service_config ← api.get_service_config job.spec.service_name
        if is_some service_config.spec.db_init_pod_spec
            then create_and_run api job service_config
            else ok (with_state job failed, none)

unfoldable pub create_job_if_needed : DbInitApi → DbInitJob → Result (DbInitJob × Option BatchJob)
unfolding create_first_job
create_job_if_needed api job = do
  jobs ← api.list_jobs
  elim jobs [ [] ↦ create_first_job api job | _ ∷ _ ↦ ok (with_state job running, none) ]

save : DbInitApi → Processed → Outcome DbInitJob
unfolding save_status_updates_if_object_changed
save api (job, changed, error) =
    save_status_updates_if_object_changed changed api.update_status job done error

processed : DbInitJob → Result (DbInitJob × Option BatchJob) → Processed
processed job (ok (job', _)) = (job', true, none)
processed job (err e) = (job, false, some e)

dispatch : JobState → DbInitApi → DbInitJob → Outcome DbInitJob
unfolding save processed create_job_if_needed process_running_job
dispatch JobState.unset api job =
    save_status_updates_if_object_changed true api.update_status (with_state job pending)
      requeue_now none
dispatch JobState.pending api job = save api (processed job (create_job_if_needed api job))
dispatch JobState.failed api job = return done none
dispatch JobState.complete api job = return done none
dispatch JobState.running api job = save api (process_running_job api job)
dispatch (JobState.unknown state) api job =
    return done (some (message (bytes "unknown state: " ++ state)))

abbrev is_unset : JobState → Bool
is_unset JobState.unset = true
is_unset _ = false

reconcile_job : DbInitApi → DbInitJob → Outcome DbInitJob
unfolding dispatch
reconcile_job api job =
    if is_unset job.status.state || not (is_some job.status.deadline_timestamp)
    then save_status_updates_if_object_changed true api.update_status
        (record job {
          status = record job.status {
            state = pending;
            deadline_timestamp = some (deadline_after api.now job.spec.deadline_seconds);
          };
        })
        requeue_now none
    else dispatch job.status.state api job

unfoldable pub do_reconcile : DbInitApi → Outcome DbInitJob
unfolding reconcile_job
do_reconcile api = elim api.get_job [
  | ok job ↦ reconcile_job api job
  | err not_found ↦ return done none
  | err e ↦ return done (some e)
]

-- The batch job that a reconciliation creates, if any.
created_job : Result (DbInitJob × Option BatchJob) → Option BatchJob
created_job (ok (job, batch_job)) = batch_job
created_job (err e) = none

abbrev is_pending : JobState → Bool
is_pending JobState.pending = true
is_pending _ = false

unfoldable pub created : DbInitApi → DbInitJob → Option BatchJob
unfolding created_job create_job_if_needed
created api job =
    if is_some job.status.deadline_timestamp && is_pending job.status.state
    then created_job (create_job_if_needed api job)
    else none
