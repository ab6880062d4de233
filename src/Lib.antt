-- ===== src/Lib.antt =====
-- Verification library of kube-stager, a Kubernetes operator that keeps staging sites: each site
-- is a StagingSite object, from which the operator makes databases, jobs, config maps, workloads
-- and ingresses, and which it backs up, disables and deletes in time.
--
-- The parts of the program and their files:
-- - Base: numbers, integers of Go (int64 with its wrap-around), texts as lists of bytes, maps of
--   strings as association lists, and the lemmas that the other files share.
-- - Api: the objects of apis/ with the fields that the modelled code reads or writes.
-- - Names: helpers/string_helper.go and apis/helpers.go. `shorten_human_readable_value` is
--   ShortenHumanReadableValue, and so on: every function keeps its name.
-- - Controller: helpers/errors, controllers/helpers.go, and what the job controllers share about
--   batch jobs.
-- - DbInit, DbMigration: controllers/job/dbinitjob_controller.go and dbmigrationjob_controller.go.
--   The state is the job object; `do_reconcile` is doReconcile, `create_job_if_needed`,
--   `process_running_job` and `create_job` are the methods of these names.
-- - Backup: controllers/job/backup_controller.go. Backup.Reconcile.process_services is the loop of
--   processServiceInJob, whose variables are the record Pass.
-- - Pods: helpers/pod/spec.go.
-- - Sync: what the handlers of jobs and databases share. Each compares the objects that exist with
--   those that the site asks for (the maps toCreate, toUpdate and toDelete), and then writes the
--   differences; Sync.Desired and Sync.Refined see the objects as a store from names to objects.
-- - Task: handlers/task and apis/task/v1/*_helpers.go. Task.Mysql and Task.Mongo stand on Sync;
--   Task.Allocation is getFirstFreeDatabaseInEnvironment, Task.Changes and Task.Redis are the two
--   halves of EnsureDatabasesAreCreated of the redis handler, with the writes so far as explicit
--   state.
-- - Jobs: handlers/job and apis/job/v1/*_helpers.go. Jobs.Init and Jobs.Migration stand on Sync,
--   Jobs.Final is backup_handler.go.
-- - Database: controllers/task and handlers/database. Database.Controllers is the reconciliation
--   of the three kinds of databases, Database.Mysql, Database.Mongo and Database.Redis are their
--   handlers; the state of a server is what its driver is asked and told.
-- - Resources: handlers/site, for config maps, deployments, services and ingresses, on Sync.
-- - Templates: helpers/template.go and handlers/template/site.go.
-- - Webhook: handlers/webhook and apis/site/v1/stagingsite_webhook.go. Webhook.Labels and
--   Webhook.Admission admit a site, Webhook.Defaults is Default, Webhook.Deletion has the four
--   handlers of deletions, Webhook.Configs and Webhook.Backups those of service configs and
--   backups.
-- - Site: controllers/site/stagingsite_controller.go. Site.Schedule has the times, Site.Status,
--   Site.Backups and Site.Ensure ensureStatusIsUpToDate, Site.Stages the stages of doReconcile
--   from the databases to the networking, Site.Saving SaveStatusUpdatesIfObjectChanged, and
--   Site.Reconcile the deletion and doReconcile itself.
-- - Examples: small objects on which the statements are run.
--
-- How they interact: the site controller calls the handlers, which create the objects of the job
-- and database controllers, and reads the states that these have reached. In the model of the site
-- the handlers are arguments of its reconciliation (record Handlers), and may change the status of
-- the site that they are given. The answers of the API server, the clock, the rendering of
-- templates and the digest base36.Md5Base36 are fields of a record for each controller; a
-- statement holds for all answers unless it names a hypothesis on them. A reconciliation returns
-- what the source returns, and the object that the API server has taken. Maps are lists in an
-- order of iteration, and statements are made for every order.
--
-- The webhooks and the two kinds of controllers meet in the stored objects only: the labels that
-- Webhook.Labels writes on a site are what Webhook.Deletion selects by, and the states that
-- Database.Controllers and the job controllers write are what the handlers of Task and Jobs judge.
-- The servers of databases and their drivers, the reading of YAML, the decoder of the webhooks,
-- JSON and the generator of passwords are arguments.
--
-- Bounds: a Go int and a time.Duration are integers with wrap64, a uint32 is a natural number with
-- its remainder written out; an instant is an integer of nanoseconds and does not wrap. Loops are
-- recursion on lists; the loop over the days up to the next backup runs on fuel, which is
-- `rounds_to` of Site.Schedule: one round more than there are days from the start to now. The
-- decimal digits of a number are computed on the number itself as fuel, since each digit divides
-- by ten.
--
-- Not modelled: the loop over the pages of a list (helpers/kubernetes), GetKeysFromStringBoolMap,
-- generated code, metrics, logging, flags and the wiring of main.go.
pub mod Base
pub mod Names
pub mod Api
pub mod Pods
pub mod Controller
pub mod DbInit
pub mod DbMigration
pub mod Backup
pub mod Task
pub mod Sync
pub mod Jobs
pub mod Database
pub mod Templates
pub mod Webhook
pub mod Resources
pub mod Site
mod Examples
