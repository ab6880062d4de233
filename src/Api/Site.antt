-- ===== src/Api/Site.antt =====
-- apis/site/v1/stagingsite_types.go.
use kube_stager.Base.{ℕ, Bool, false, Option, none, some, [], Text, ℤ, pos, Assoc}
use kube_stager.Api.Meta.{Time, ObjectMeta}

-- Days, hours and minutes are Go `int`s.
pub record TimeInterval : Type 0 where
  pub never : Bool
  pub days : ℤ
  pub hours : ℤ
  pub minutes : ℤ

pub record StagingSiteService : Type 0 where
  pub image_tag : Text
  pub replicas : ℤ
  -- The resource requirements, as text.
  pub resource_overrides : Assoc Text
  pub mysql_environment : Text
  pub mongo_environment : Text
  pub redis_environment : Text
  pub include_in_backups : Bool
  pub db_init_source_environment_name : Text
  pub extra_envs : Assoc Text
  pub custom_template_values : Assoc Text

-- A service that the site's map does not have reads as the zero value.
abbrev pub zero_service : StagingSiteService
zero_service = record {
  image_tag = [];
  replicas = pos 0;
  resource_overrides = [];
  mysql_environment = [];
  mongo_environment = [];
  redis_environment = [];
  include_in_backups = false;
  db_init_source_environment_name = [];
  extra_envs = [];
  custom_template_values = [];
}

abbrev pub service_or_zero : Option StagingSiteService → StagingSiteService
service_or_zero none = zero_service
service_or_zero (some service) = service

pub record StagingSiteSpec : Type 0 where
  pub domain_prefix : Text
  pub db_name : Text
  pub username : Text
  pub password : Text
  pub enabled : Bool
  pub disable_after : TimeInterval
  pub delete_after : TimeInterval
  pub backup_before_delete : Bool
  pub daily_backup_window_hour : Option ℤ
  pub services : Assoc StagingSiteService
  pub include_all_services : Bool

-- `unset` is the empty string, which is the state of a new object.
pub data StagingSiteState : Type 0 where
  unset pending complete failed : StagingSiteState

pub data WorkloadHealth : Type 0 where
  unset healthy unhealthy incomplete : WorkloadHealth

-- Of the deployment's status the count that decides the health; the rest is copied unread.
pub record StagingSiteServiceStatus : Type 0 where
  pub username : Text
  pub db_name : Text
  pub redis_database_number : ℕ
  pub ready_replicas : ℤ

-- A missing service reads as the zero status.
abbrev pub status_or_zero : Option StagingSiteServiceStatus → StagingSiteServiceStatus
status_or_zero none = record {
  username = [];
  db_name = [];
  redis_database_number = 0;
  ready_replicas = pos 0;
}
status_or_zero (some status) = status

pub record StagingSiteStatus : Type 0 where
  pub database_creation_complete : Bool
  pub database_initialisation_complete : Bool
  pub database_migrations_complete : Bool
  pub configs_are_created : Bool
  pub networking_objects_are_created : Bool
  pub workloads_are_created : Bool
  pub last_applied_configuration : Option Time
  pub disable_at : Option Time
  pub delete_at : Option Time
  pub enabled : Bool
  pub state : StagingSiteState
  pub workload_health : WorkloadHealth
  pub error_message : Text
  pub services : Assoc StagingSiteServiceStatus
  pub last_backup_time : Option Time
  pub next_backup_time : Option Time

pub record StagingSite : Type 0 where
  pub meta : ObjectMeta
  pub open meta use *
  pub spec : StagingSiteSpec
  pub status : StagingSiteStatus
