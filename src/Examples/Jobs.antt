-- ===== src/Examples/Jobs.antt =====
-- The jobs and databases of a small site.
use kube_stager.Base.{
  Bool, Option, some, is_some, lookup, text_eq, if◌then◌else◌, Among, true, false, none, [], ◌∷◌,
  bytes, pos, ◌/◌, length, decimal, insert, remove, has_key, arith, ◌≡◌, ◌≢◌, refl, Assoc,
}
use kube_stager.Api.{StagingSite, DbInitJob, DbMigrationJob, JobState, BackupType}
use kube_stager.Controller.{Result, ok, err}
use kube_stager.Sync.{expected_from, updated}
use kube_stager.Sync.Compared.{find_service}
use kube_stager.Sync.Desired.{IsDesired}
use kube_stager.Jobs.Init
use kube_stager.Jobs.Init.{InitApi}
use kube_stager.Jobs.Init.Created.{created_jobs-IsDesired}
use kube_stager.Jobs.Migration
use kube_stager.Jobs.Migration.{MigrationApi}
use kube_stager.Jobs.Migration.Updated.{migration_jobs-IsDesired}
use kube_stager.Jobs.Migration.Stale.{AreCovered, after_updates, updated_jobs_count_as_complete}
use kube_stager.Jobs.Final.{make_backup_name}
use kube_stager.Jobs.Final.Named.{scheduled_names_differ}
use kube_stager.Task.Mysql
use kube_stager.Task.Mysql.{MysqlApi, mysql_databases-IsDesired}
use kube_stager.Examples.{digest, demo, meta_of, shop_config, shop_service}

-- A site with a service that wants a mysql database, and so an init job and a migration job.
abbrev with_mysql : StagingSite
with_mysql = record demo {
  spec = record demo.spec {
    services =
        (
          bytes "shop",
          record shop_service { mysql_environment = bytes "mysql-0"; image_tag = bytes "v2" },
        )
        ∷ [];
  };
}

-- An init job of a service that the site no longer has.
abbrev old_init_job : DbInitJob
old_init_job = record {
  meta = meta_of (bytes "demo-cart");
  spec = record {
    site_name = bytes "demo";
    service_name = bytes "cart";
    mysql_environment = bytes "mysql-0";
    mongo_environment = [];
    db_init_source = bytes "master";
    database_name = bytes "demo_cart";
    username = bytes "demo_cart";
    password = bytes "secret";
    deadline_seconds = pos 600;
  };
  status = record { state = JobState.complete; job_not_found_count = 0; deadline_timestamp = none };
}

abbrev init_api : InitApi
init_api = record {
  list_for_site = ok (old_init_job ∷ []);
  get_service_config = λ _. ok shop_config;
  set_controller_reference = λ job. ok job;
  md5_base36 = digest;
  accepts = λ _. none;
}

-- A migration job for an earlier image tag.
abbrev old_migration_job : DbMigrationJob
old_migration_job = record {
  meta = meta_of (bytes "demo-sh-op");
  spec = record {
    site_name = bytes "demo";
    service_name = bytes "shop";
    image_tag = bytes "v1";
    deadline_seconds = pos 600;
  };
  status = record {
    state = JobState.complete;
    job_not_found_count = 0;
    last_migrated_image_tag = bytes "v1";
    deadline_timestamp = none;
  };
}

abbrev migration_api : MigrationApi
migration_api = record {
  list_for_site = ok (old_migration_job ∷ []);
  get_service_config = λ _. ok shop_config;
  set_controller_reference = λ job. ok job;
  md5_base36 = digest;
  accepts = λ _. none;
}

abbrev mysql_api : MysqlApi
mysql_api = record {
  list_for_site = ok [];
  get_service_config = λ _. ok shop_config;
  set_controller_reference = λ database. ok database;
  md5_base36 = digest;
  accepts = λ _. none;
}

-- The job of the service that is gone is deleted, and another created.
init_jobs_example :
    IsDesired Init.service_of Init.unrevised
      (Init.wanted_job init_api with_mysql)
      with_mysql.spec.services
      (old_init_job ∷ [])
      (Init.ensure_jobs_are_created init_api with_mysql)
      (bytes "cart")
unfolding Init.ensure_jobs_are_created has_key insert
init_jobs_example =
    created_jobs-IsDesired init_api with_mysql (old_init_job ∷ []) false (bytes "cart") refl
      (refl, tt) (tt, tt) refl

-- One second apart.
scheduled_example :
    (make_backup_name digest (bytes "demo") BackupType.scheduled (pos 1600000000000000000)
        ≡ make_backup_name digest (bytes "demo") BackupType.scheduled (pos 1600000001000000000)
      → 1600000000000000000 / 1000000000 ≡ 1600000001000000000 / 1000000000)
    × (make_backup_name digest (bytes "demo") BackupType.scheduled (pos 1600000000000000000)
        ≢ make_backup_name digest (bytes "demo") BackupType.final (pos 0))
unfolding decimal
scheduled_example =
    scheduled_names_differ digest (bytes "demo") 1600000000000000000 1600000001000000000 (pos 0)
      (omega arith) (omega arith)

-- The migration job is updated to the new image tag.
migration_jobs_example :
    IsDesired Migration.service_of Migration.revised
      (Migration.wanted_job migration_api with_mysql)
      (Migration.asking_services with_mysql)
      (old_migration_job ∷ [])
      (Migration.ensure_jobs_are_created migration_api with_mysql)
      (bytes "shop")
unfolding Migration.ensure_jobs_are_created has_key insert remove
migration_jobs_example =
    migration_jobs-IsDesired migration_api with_mysql (old_migration_job ∷ []) true (bytes "shop")
      refl (refl, tt) (tt, tt) refl

-- A database is created.
mysql_databases_example :
    IsDesired Mysql.service_of Mysql.revised
      (Mysql.wanted_database mysql_api with_mysql)
      with_mysql.spec.services
      []
      (Mysql.ensure_databases_are_created mysql_api with_mysql)
      (bytes "shop")
unfolding Mysql.ensure_databases_are_created has_key insert
mysql_databases_example =
    mysql_databases-IsDesired mysql_api with_mysql [] false (bytes "shop") refl (refl, tt) tt refl

abbrev expected_or_nil : Result (Assoc DbMigrationJob) → Assoc DbMigrationJob
expected_or_nil (ok expected) = expected
expected_or_nil (err _) = []

abbrev expected_migrations : Assoc DbMigrationJob
expected_migrations = expected_or_nil (
    expected_from (Migration.wanted_job migration_api with_mysql)
      (Migration.asking_services with_mysql) [])

abbrev new_migration_job : DbMigrationJob
new_migration_job = record old_migration_job {
  spec = record old_migration_job.spec { image_tag = bytes "v2" };
}

abbrev job_or : DbMigrationJob → Option DbMigrationJob → DbMigrationJob
job_or other none = other
job_or other (some job) = job

abbrev wanted_migration : DbMigrationJob
wanted_migration = job_or old_migration_job (lookup (bytes "shop") expected_migrations)

is_some_if :
    (b : Bool) (x y : DbMigrationJob)
    → is_some (if b then some x else none) ≡ is_some (if b then some y else none)
is_some_if true x y = refl
is_some_if false x y = refl

covered_here : AreCovered (old_migration_job ∷ []) expected_migrations
unfolding find_service expected_from insert Migration.wanted_job
covered_here s = is_some_if (text_eq (bytes "shop") s) old_migration_job wanted_migration

-- The job for the new tag has just been written, and both methods are content.
stale_example :
    ((Migration.ensure_jobs_are_created migration_api with_mysql).answer ≡ ok true)
    × Among
        (updated (bytes "shop") new_migration_job)
        (Migration.ensure_jobs_are_created migration_api with_mysql).writes
    × (Migration.ensure_jobs_are_complete (record migration_api {
      list_for_site = ok (after_updates expected_migrations (old_migration_job ∷ []));
    })
        ≡ ok true)
    × (bytes "v2" ≢ bytes "v1")
unfolding expected_from Migration.wanted_job insert find_service
stale_example =
    updated_jobs_count_as_complete (old_migration_job ∷ []) expected_migrations migration_api
      with_mysql (bytes "shop") old_migration_job wanted_migration refl refl (tt, tt) covered_here
      (refl, tt) refl refl refl refl (λ write. refl)

stale_run : length (Migration.ensure_jobs_are_created migration_api with_mysql).writes ≡ 1
unfolding Migration.ensure_jobs_are_created insert remove
stale_run = refl
