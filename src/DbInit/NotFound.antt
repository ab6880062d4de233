-- ===== src/DbInit/NotFound.antt =====
-- How a running database initialisation job ends: by its batch job's conditions, by its deadline, or
-- by reconciliations that do not find exactly one batch job.
use native.Mathlib.Nat.{add-zero}
use kube_stager.Base.{
  ℕ, zero, suc, ◌+◌, ◌≤◌, ◌<◌, ◌≡◌, ◌≢◌, Option, none, some, List, length, arith,
}
use kube_stager.Api.{DbInitJob, running, failed}
use kube_stager.Controller.{ok, BatchJob, u32}
use kube_stager.DbInit.{DbInitApi, do_reconcile, with_state}

-- What the API server stores after a reconciliation of `job`.
abbrev pub stored_or : DbInitJob → Option DbInitJob → DbInitJob
stored_or job none = job
stored_or job (some job') = job'

abbrev pub next : DbInitApi → DbInitJob → DbInitJob
next api job = stored_or job (do_reconcile (record api { get_job = ok job })).written

-- The stored job after a number of reconciliations that are answered alike.
pub rounds : ℕ → DbInitApi → DbInitJob → DbInitJob
rounds zero api job = job
rounds (suc n) api job = rounds n api (next api job)

-- A running job that has missed its batch job `c` times in a row.
abbrev pub Missed : ℕ → DbInitJob → Type 0
Missed c job =
    (job.status.state ≡ running)
    × (job.status.job_not_found_count ≡ c)
    × (job.status.deadline_timestamp ≢ none)

-- The job after one more miss.
abbrev counted : DbInitJob → DbInitJob
counted job = record job {
  status = record job.status { job_not_found_count = u32 (job.status.job_not_found_count + 1) };
}

-- The list of batch jobs has none, or more than one.
abbrev IsNotOne : List BatchJob → Type 0
IsNotOne jobs = length jobs ≢ 1

suc-add-eq : (c k : ℕ) → suc c + k ≡ c + suc k
suc-add-eq c k = omega arith

module _ (api : DbInitApi) (jobs : List BatchJob) (listed : api.list_jobs ≡ ok jobs)
    (not_one : IsNotOne jobs) (accepts : (j : DbInitJob) → api.update_status j ≡ none) where
  next-Missed : (c : ℕ) (job : DbInitJob) → c < 5 → Missed c job → Missed (suc c) (next api job)
  unfolding do_reconcile
  next-Missed c job h m = ground (arith, accepts (counted job), listed, not_one)

  next_gives_up : (job : DbInitJob) → Missed 5 job → (next api job).status.state ≡ failed
  unfolding do_reconcile
  next_gives_up job m = ground (arith, accepts (with_state (counted job) failed), listed, not_one)

  still-Missed :
      (k c : ℕ) (job : DbInitJob) → c + k ≤ 5 → Missed c job → Missed (c + k) (rounds k api job)
  unfolding rounds
  still-Missed zero c job h m = rw add-zero m
  still-Missed (suc k) c job h m =
      rw (← suc-add-eq c k)
        (still-Missed k (suc c) (next api job) (omega arith) (next-Missed c job (omega arith) m))

  -- A running job that has missed its batch job `c` times in a row, and goes on missing it (the list
  -- has none or several, and updates are accepted): after `k` more reconciliations with `c + k` at
  -- most 5 it is still running with count `c + k`, and with `c + k` equal to 5 the one after that
  -- fails it.
  pub fails_after_six_misses :
      (k c : ℕ) (job : DbInitJob)
      → c + k ≤ 5
      → Missed c job
      → Missed (c + k) (rounds k api job)
        × (c + k ≡ 5 → (next api (rounds k api job)).status.state ≡ failed)
  fails_after_six_misses k c job h m =
      let missed = still-Missed k c job h m in
      (missed, λ e. next_gives_up (rounds k api job) (rw e at missed))
