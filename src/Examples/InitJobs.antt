-- ===== src/Examples/InitJobs.antt =====
-- Runs of a database initialisation job.
use kube_stager.Base.{
  ◌≤◌, ◌≡◌, refl, none, some, List, [], ◌∷◌, bytes, length, arith, pos, ◌+◌, ltb_ℤ, if◌then◌else◌,
}
use kube_stager.Api.{DbInitJob, JobState, pending, running, failed, complete}
use kube_stager.Controller.{ok, err, api_error, job_complete, JobCondition, job_failed, BatchJob}
use kube_stager.DbInit.{DbInitApi, do_reconcile, with_state}
use kube_stager.DbInit.States.{Follows, written-Follows}
use kube_stager.DbInit.NotFound.{next, rounds, Missed, fails_after_six_misses}
use kube_stager.DbInit.Running.{running_outcome, found}
use kube_stager.DbInit.Launch.{
  at_most_one_batch_job, Cluster, reconciled, here, then_step, reconcile,
}
use kube_stager.Examples.{
  digest, meta_of, batch_api, job_config, batch_job, finished_condition, suspended_condition,
}

abbrev init_job : JobState → DbInitJob
init_job state = record {
  meta = meta_of (bytes "demo-shop");
  spec = record {
    site_name = bytes "demo";
    service_name = bytes "shop";
    mysql_environment = bytes "mysql-0";
    mongo_environment = [];
    db_init_source = bytes "master";
    database_name = bytes "demo_shop";
    username = bytes "demo";
    password = bytes "secret";
    deadline_seconds = pos 600;
  };
  status = record { state = state; job_not_found_count = 0; deadline_timestamp = some (pos 2000) };
}

abbrev init_api : DbInitJob → List BatchJob → DbInitApi
init_api job jobs = record {
  batch = batch_api;
  now = pos 1000;
  md5_base36 = digest;
  init_job_config = job_config;
  get_job = ok job;
  list_jobs = ok jobs;
  get_mysql = λ _. ok tt;
  get_mongo = λ _. ok tt;
  update_status = λ _. none;
}

-- The pending job finds no batch job, and runs after one is created.
init_follows_example :
    Follows (init_job pending) running
    × ((init_job running).spec ≡ (init_job pending).spec)
    × ((init_job running).meta ≡ (init_job pending).meta)
unfolding do_reconcile
init_follows_example =
    written-Follows (init_api (init_job pending) []) (init_job pending) (init_job running) refl refl

abbrev broken_api : DbInitApi
broken_api = record (init_api (init_job running) []) { list_jobs = err (api_error 500) }

-- Five misses, and a sixth.
init_misses_example :
    Missed (0 + 5) (rounds 5 (init_api (init_job running) []) (init_job running))
    × (0 + 5 ≡ 5
        → (next
            (init_api (init_job running) [])
            (rounds 5 (init_api (init_job running) []) (init_job running))).status.state
          ≡ failed)
init_misses_example =
    fails_after_six_misses (init_api (init_job running) []) [] refl (λ h. ground arith) (λ _. refl)
      5 0 (init_job running) (omega arith) (refl, refl, λ h. ground arith)

abbrev two_conditions : List JobCondition
two_conditions = suspended_condition ∷ finished_condition ∷ []

abbrev outcome_api : DbInitApi
outcome_api = init_api (init_job running) (batch_job two_conditions ∷ [])

-- A batch job that was suspended and then completed.
init_outcome_example :
    (two_conditions ≡ suspended_condition ∷ finished_condition ∷ []
      → finished_condition.kind ≡ job_complete
      → next outcome_api (init_job running) ≡ with_state (found (init_job running)) complete)
    × (two_conditions ≡ suspended_condition ∷ finished_condition ∷ []
        → finished_condition.kind ≡ job_failed
        → next outcome_api (init_job running) ≡ with_state (found (init_job running)) failed)
    × (two_conditions ≡ suspended_condition ∷ []
        → next outcome_api (init_job running) ≡ (
            if ltb_ℤ (pos 2000) (pos 1000)
            then with_state (found (init_job running)) failed
            else found (init_job running)))
init_outcome_example =
    running_outcome outcome_api (init_job running) (pos 2000) (batch_job two_conditions) refl
      (λ _. refl) refl refl (suspended_condition ∷ []) [] finished_condition (refl, tt) refl

abbrev fresh : Cluster
fresh = record { job = init_job pending; batch_jobs = [] }

abbrev launched : Cluster
launched = reconciled (init_api (init_job pending) []) fresh

-- A reconciliation creates a batch job, and another one follows.
init_one_example : length (reconciled (init_api (init_job pending) []) launched).batch_jobs ≤ 1
init_one_example = at_most_one_batch_job {c = fresh} (omega arith) (
    then_step (then_step here (reconcile (init_api (init_job pending) []) fresh))
      (reconcile (init_api (init_job pending) []) launched))
