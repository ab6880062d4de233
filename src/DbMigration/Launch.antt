-- ===== src/DbMigration/Launch.antt =====
-- The batch job of a database migration job: when it is created, and how many there are.
use kube_stager.Base.{
  ◌≤◌, text_eq_iff, ◌≡◌, ◌⊎◌, Option, none, some, List, [], ◌∷◌, bytes, lookup, length, arith,
}
use kube_stager.Api.{DbMigrationJob, pending, label_job_name, label_type}
use kube_stager.Controller.{Result, ok, err, BatchJob}
use kube_stager.DbMigration.{DbMigrationApi, do_reconcile, created}
use kube_stager.DbMigration.Restart.{stored_or}

-- A batch job is created only for a pending job that has been started for its image tag and has no
-- batch job yet. It stands in the job's namespace, and has the two labels by which the controller
-- lists the job's batch jobs and deletes them.
pub created_only_if_started :
    (api : DbMigrationApi) (job : DbMigrationJob) (batch_job : BatchJob)
    → created api job ≡ some batch_job
    → (job.status.state ≡ pending)
      × (job.spec.image_tag ≡ job.status.last_migrated_image_tag)
      × (api.list_jobs ≡ ok [])
      × (batch_job.namespace ≡ job.namespace)
      × (lookup label_job_name batch_job.labels ≡ some job.name)
      × (lookup label_type batch_job.labels ≡ some (bytes "dbmigration"))
unfolding created
created_only_if_started api job batch_job h =
    let tags = text_eq_iff job.spec.image_tag job.status.last_migrated_image_tag in
    (ground arith, ground arith, ground arith, ground arith, ground arith, ground arith)

-- The job and the batch jobs that carry its labels, as the API server has them.
pub record Cluster : Type 0 where
  pub job : DbMigrationJob
  pub batch_jobs : List BatchJob

abbrev list_of : Result (List BatchJob) → List BatchJob → Result (List BatchJob)
list_of (err e) batch_jobs = err e
list_of (ok _) batch_jobs = ok batch_jobs

-- Any call may fail; a list that is answered is the cluster's.
abbrev pub answered : DbMigrationApi → Cluster → DbMigrationApi
answered api c = record api { get_job = ok c.job; list_jobs = list_of api.list_jobs c.batch_jobs }

abbrev with_created : Option BatchJob → List BatchJob → List BatchJob
with_created none batch_jobs = batch_jobs
with_created (some batch_job) batch_jobs = batch_job ∷ batch_jobs

abbrev pub reconciled : DbMigrationApi → Cluster → Cluster
reconciled api c = record {
  job = stored_or c.job (do_reconcile (answered api c)).written;
  batch_jobs = with_created (created (answered api c) c.job) c.batch_jobs;
}

-- Reconciliations, and what the cluster does to the batch jobs: it changes their conditions, and
-- deletes them.
pub data Step : Cluster → Cluster → Type 0 where
  reconcile : (api : DbMigrationApi) (c : Cluster) → Step c (reconciled api c)
  progress :
      (c : Cluster) (batch_jobs : List BatchJob)
      → length batch_jobs ≤ length c.batch_jobs
      → Step c (record c { batch_jobs = batch_jobs })

pub data Reach (c : Cluster) : Cluster → Type 0 where
  here : Reach c c
  then_step : {d e : Cluster} → Reach c d → Step d e → Reach c e

created_or_kept :
    (api : DbMigrationApi) (c : Cluster)
    → (created (answered api c) c.job ≡ none) ⊎ (c.batch_jobs ≡ [])
unfolding created
created_or_kept api c = ground arith

Step-at_most_one : {c d : Cluster} → Step c d → length c.batch_jobs ≤ 1 → length d.batch_jobs ≤ 1
Step-at_most_one (reconcile api c) h = ground (arith, created_or_kept api c)
Step-at_most_one (progress c batch_jobs k) h = omega arith

-- However reconciliations with any failures of the API server, and changes and deletions of batch
-- jobs, follow one another: from at most one batch job, there is never more than one.
pub at_most_one_migration :
    {c d : Cluster} → length c.batch_jobs ≤ 1 → Reach c d → length d.batch_jobs ≤ 1
at_most_one_migration h here = h
at_most_one_migration h (then_step r s) = Step-at_most_one s (at_most_one_migration h r)
