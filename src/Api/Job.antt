-- ===== src/Api/Job.antt =====
-- apis/job/v1: the jobs that the site controller hands to the job controllers.
use kube_stager.Base.{ℕ, Bool, true, false, Option, Text, ℤ, Assoc}
use kube_stager.Api.Meta.{Time, ObjectMeta}

-- A `JobState` is a string: `unset` is the empty one, `unknown` any that no constant names.
pub data JobState : Type 0 where
  unset pending running failed complete : JobState
  unknown : Text → JobState

-- `IsFinal` of common_types.go.
unfoldable pub is_final : JobState → Bool
is_final failed = true
is_final complete = true
is_final _ = false

-- `job_not_found_count` is a uint32.
pub record DbInitJobStatus : Type 0 where
  pub state : JobState
  pub job_not_found_count : ℕ
  pub deadline_timestamp : Option Time

pub record DbInitJobSpec : Type 0 where
  pub site_name : Text
  pub service_name : Text
  pub mysql_environment : Text
  pub mongo_environment : Text
  pub db_init_source : Text
  pub database_name : Text
  pub username : Text
  pub password : Text
  pub deadline_seconds : ℤ

pub record DbInitJob : Type 0 where
  pub meta : ObjectMeta
  pub open meta use *
  pub spec : DbInitJobSpec
  pub status : DbInitJobStatus

pub record DbMigrationJobStatus : Type 0 where
  pub state : JobState
  pub job_not_found_count : ℕ
  pub last_migrated_image_tag : Text
  pub deadline_timestamp : Option Time

pub record DbMigrationJobSpec : Type 0 where
  pub site_name : Text
  pub service_name : Text
  pub image_tag : Text
  pub deadline_seconds : ℤ

pub record DbMigrationJob : Type 0 where
  pub meta : ObjectMeta
  pub open meta use *
  pub spec : DbMigrationJobSpec
  pub status : DbMigrationJobStatus

pub data BackupType : Type 0 where
  manual scheduled final : BackupType
  other : Text → BackupType

pub record BackupStatusDetail : Type 0 where
  pub state : JobState
  pub job_started_at : Option Time
  pub job_finished_at : Option Time

pub record BackupStatus : Type 0 where
  pub detail : BackupStatusDetail
  pub open detail use *
  pub services : Assoc BackupStatusDetail

pub record Backup : Type 0 where
  pub meta : ObjectMeta
  pub open meta use *
  pub site_name : Text
  pub backup_type : BackupType
  pub status : BackupStatus
