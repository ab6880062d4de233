-- ===== src/DbInit/States.antt =====
-- The states that a database initialisation job goes through.
use kube_stager.Base.{◌≡◌, ◌⊎◌, true, none, some, arith}
use kube_stager.Api.{Time, JobState, DbInitJob, is_final, unset, pending, running, failed, complete}
use kube_stager.Controller.{Error, ok, done, return}
use kube_stager.DbInit.{DbInitApi, do_reconcile}

-- The state that may follow that of a job, and when.
pub data Follows (job : DbInitJob) : JobState → Type 0 where
  initialise :
      (job.status.state ≡ unset) ⊎ (job.status.deadline_timestamp ≡ none) → Follows job pending
  launch : job.status.state ≡ pending → Follows job running
  refuse : job.status.state ≡ pending → Follows job failed
  wait : job.status.state ≡ running → Follows job running
  finish : job.status.state ≡ running → Follows job complete
  break_off : job.status.state ≡ running → Follows job failed

ruleset followers = (initialise, launch, refuse, wait, finish, break_off)

-- A reconciliation that writes a job changes its status only, and moves its state along one edge:
-- none or no deadline to Pending, Pending to Running or Failed, Running to Running, Complete or
-- Failed.
pub written-Follows :
    (api : DbInitApi) (job job' : DbInitJob)
    → api.get_job ≡ ok job
    → (do_reconcile api).written ≡ some job'
    → Follows job job'.status.state × (job'.spec ≡ job.spec) × (job'.meta ≡ job.meta)
unfolding do_reconcile
written-Follows api job job' g w = (grind (arith, followers), ground arith, ground arith)

-- A job in a final state that has a deadline is left alone: nothing is written, nothing requeued,
-- no error returned, whatever the API server would answer.
pub final_absorbing :
    (api : DbInitApi) (job : DbInitJob) (deadline : Time)
    → api.get_job ≡ ok job
    → job.status.deadline_timestamp ≡ some deadline
    → is_final job.status.state ≡ true
    → do_reconcile api ≡ return done none
unfolding do_reconcile is_final
final_absorbing api job deadline g d f = ground arith

-- A reconciliation that returns an error has written nothing.
pub error_writes_nothing :
    (api : DbInitApi) (e : Error)
    → (do_reconcile api).error ≡ some e
    → (do_reconcile api).written ≡ none
unfolding do_reconcile
error_writes_nothing api e h = ground arith
