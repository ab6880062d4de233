-- ===== src/DbMigration/States.antt =====
-- The states that a database migration job goes through.
use kube_stager.Base.{◌≡◌, ◌≢◌, true, none, some, arith, text_eq_iff}
use kube_stager.Api.{JobState, DbMigrationJob, is_final, pending, running, failed, complete}
use kube_stager.Controller.{Error, ok, done, return}
use kube_stager.DbMigration.{DbMigrationApi, do_reconcile}

-- The state that may follow that of a job, and when. `restart` is a change of the image tag.
pub data Follows (job : DbMigrationJob) : JobState → Type 0 where
  restart : job.spec.image_tag ≢ job.status.last_migrated_image_tag → Follows job pending
  launch : job.status.state ≡ pending → Follows job running
  wait : job.status.state ≡ running → Follows job running
  finish : job.status.state ≡ running → Follows job complete
  break_off : job.status.state ≡ running → Follows job failed

ruleset followers = (restart, launch, wait, finish, break_off)

-- A reconciliation that writes a job changes its status only, records the spec's image tag as the
-- last migrated one, and moves its state along one edge: any state to Pending where the image tag
-- has changed, Pending to Running, and Running to Running, Complete or Failed.
pub migration_written-Follows :
    (api : DbMigrationApi) (job job' : DbMigrationJob)
    → api.get_job ≡ ok job
    → (do_reconcile api).written ≡ some job'
    → Follows job job'.status.state
      × (job'.spec ≡ job.spec)
      × (job'.meta ≡ job.meta)
      × (job'.status.last_migrated_image_tag ≡ job.spec.image_tag)
unfolding do_reconcile
migration_written-Follows api job job' g w =
    let tags = text_eq_iff job.spec.image_tag job.status.last_migrated_image_tag in
    (grind (arith, followers), ground arith, ground arith, ground arith)

-- A job in a final state whose image tag has been migrated is left alone: nothing is written,
-- nothing requeued, no error returned, whatever the API server would answer.
pub migrated_absorbing :
    (api : DbMigrationApi) (job : DbMigrationJob)
    → api.get_job ≡ ok job
    → job.spec.image_tag ≡ job.status.last_migrated_image_tag
    → is_final job.status.state ≡ true
    → do_reconcile api ≡ return done none
unfolding do_reconcile is_final
migrated_absorbing api job g t f =
    ground (arith, text_eq_iff job.spec.image_tag job.status.last_migrated_image_tag)

-- A reconciliation that returns an error has written nothing.
pub failure_writes_nothing :
    (api : DbMigrationApi) (e : Error)
    → (do_reconcile api).error ≡ some e
    → (do_reconcile api).written ≡ none
unfolding do_reconcile
failure_writes_nothing api e h = ground arith
