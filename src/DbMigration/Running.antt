-- ===== src/DbMigration/Running.antt =====
-- A running database migration job that finds its one batch job.
use kube_stager.Base.{
  ◌≡◌, none, some, List, [], ◌∷◌, ◌++◌, arith, text_eq, true, ltb_ℤ, All, if◌then◌else◌,
}
use kube_stager.Api.{Time, DbMigrationJob, running, failed, complete}
use kube_stager.Controller.{
  ok, BatchJob, JobCondition, verdict, finished, broken, Undecided, verdict-append,
  verdict-Undecided, job_complete, job_failed, condition_true,
}
use kube_stager.DbMigration.{DbMigrationApi, do_reconcile, with_state}
use kube_stager.DbMigration.Restart.{next}

-- The job with its count of misses reset.
abbrev pub found : DbMigrationJob → DbMigrationJob
found job = record job { status = record job.status { job_not_found_count = 0 } }

module _ (api : DbMigrationApi) (job : DbMigrationJob) (deadline : Time) (batch_job : BatchJob)
    (listed : api.list_jobs ≡ ok (batch_job ∷ []))
    (accepts : (j : DbMigrationJob) → api.update_status j ≡ none)
    (migrated : text_eq job.spec.image_tag job.status.last_migrated_image_tag ≡ true)
    (is_running : job.status.state ≡ running)
    (has_deadline : job.status.deadline_timestamp ≡ some deadline) where
  next_finished :
      (t : Time)
      → verdict batch_job.conditions ≡ some (finished t)
      → next api job ≡ with_state (found job) complete
  unfolding do_reconcile
  next_finished t v =
      ground (arith, accepts (with_state (found job) complete), accepts (with_state job complete))

  next_broken :
      (t : Time)
      → verdict batch_job.conditions ≡ some (broken t)
      → next api job ≡ with_state (found job) failed
  unfolding do_reconcile
  next_broken t v =
      ground (arith, accepts (with_state (found job) failed), accepts (with_state job failed))

  next_undecided :
      verdict batch_job.conditions ≡ none
      → next api job ≡ (if ltb_ℤ deadline api.now then with_state (found job) failed else found job)
  unfolding do_reconcile
  next_undecided v = ground (
    arith,
    accepts (with_state (found job) failed),
    accepts (with_state job failed),
    accepts (found job),
  )

  -- A running job for the migrated image tag that finds exactly one batch job, where updates are accepted, has its count of
  -- misses reset, and follows the first of the conditions that is true and of type Complete or
  -- Failed: it becomes Complete or Failed by that one, whatever its deadline. Where no condition
  -- decides, it fails if its deadline is past, and else goes on running.
  pub migration_outcome :
      (pre post : List JobCondition) (v : JobCondition)
      → All Undecided pre
      → v.status ≡ condition_true
      → (batch_job.conditions ≡ pre ++ (v ∷ post)
          → v.kind ≡ job_complete
          → next api job ≡ with_state (found job) complete)
        × (batch_job.conditions ≡ pre ++ (v ∷ post)
            → v.kind ≡ job_failed
            → next api job ≡ with_state (found job) failed)
        × (batch_job.conditions ≡ pre
            → next api job
              ≡ (if ltb_ℤ deadline api.now then with_state (found job) failed else found job))
  migration_outcome pre post v undecided is_true = (
    (λ e k.
        next_finished v.last_transition_time
          (rw e (ground (arith, verdict-append pre v post undecided)))),
    (λ e k.
        next_broken v.last_transition_time
          (rw e (ground (arith, verdict-append pre v post undecided)))),
    (λ e. next_undecided (rw e (verdict-Undecided pre undecided))),
  )
