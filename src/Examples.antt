-- ===== src/Examples.antt =====
-- Small objects and answers of the API server, on which the statements of the development are run.
mod Names
mod InitJobs
mod MigrationJobs
mod Sites
mod Times
mod Databases
mod Backups
mod Webhooks
mod Texts
mod Jobs
mod Servers
mod Resources
use kube_stager.Base.{
  Bool, true, false, Option, none, some, List, [], ◌∷◌, Text, bytes, pos, ◌≤◌, length, arith, ◌≡◌,
  Assoc,
}
use kube_stager.Api.{
  ObjectMeta, StagingSite, StagingSiteSpec, StagingSiteStatus, StagingSiteService, StagingSiteState,
  WorkloadHealth, TimeInterval, ServiceConfig, ServiceConfigSpec, PodSpec, DbInitJob,
  DbMigrationJob, JobState, Time,
}
use kube_stager.Controller.{
  ok, BatchApi, JobConfig, BatchJob, JobCondition, job_complete, other_condition, condition_true,
}

-- A digest that stands for base36.Md5Base36.
abbrev pub digest : Text → Text
digest s = bytes "0123456789abcdefghijklmno"

pub digest_long : (s : Text) → 10 ≤ length (digest s)
digest_long s = omega arith

abbrev pub meta_of : Text → ObjectMeta
meta_of name = record {
  name = name;
  namespace = bytes "staging";
  labels = [];
  annotations = [];
  finalizers = [];
  deletion_timestamp = none;
  creation_timestamp = pos 0;
  controller = none;
}

abbrev pub pod : PodSpec
pod = record { containers = []; restart_policy = bytes "Always"; manifest = bytes "image" }

abbrev pub shop_config : ServiceConfig
shop_config = record {
  meta = meta_of (bytes "shop");
  spec = record {
    short_name = bytes "sh-op";
    config_maps = [];
    custom_template_values = [];
    deployment_pod_spec = pod;
    db_init_pod_spec = some pod;
    migration_job_pod_spec = some pod;
    backup_pod_spec = some pod;
    service_spec = none;
    ingress_spec = none;
    ingress_annotations = [];
    default_mongo_environment = [];
    default_mysql_environment = [];
    default_redis_environment = [];
  };
}

abbrev pub never : TimeInterval
never = record { never = true; days = pos 0; hours = pos 0; minutes = pos 0 }

abbrev pub shop_service : StagingSiteService
shop_service = record {
  image_tag = bytes "v1";
  replicas = pos 1;
  resource_overrides = [];
  mysql_environment = [];
  mongo_environment = [];
  redis_environment = bytes "redis-0";
  include_in_backups = true;
  db_init_source_environment_name = bytes "master";
  extra_envs = [];
  custom_template_values = [];
}

abbrev pub site_spec : StagingSiteSpec
site_spec = record {
  domain_prefix = bytes "demo";
  db_name = bytes "demo";
  username = bytes "demo-user";
  password = bytes "secret";
  enabled = true;
  disable_after = never;
  delete_after = never;
  backup_before_delete = true;
  daily_backup_window_hour = none;
  services = [];
  include_all_services = false;
}

abbrev pub site_status : StagingSiteStatus
site_status = record {
  database_creation_complete = false;
  database_initialisation_complete = false;
  database_migrations_complete = false;
  configs_are_created = true;
  networking_objects_are_created = true;
  workloads_are_created = true;
  last_applied_configuration = some (pos 0);
  disable_at = none;
  delete_at = none;
  enabled = true;
  state = StagingSiteState.pending;
  workload_health = WorkloadHealth.incomplete;
  error_message = [];
  services = [];
  last_backup_time = none;
  next_backup_time = none;
}

abbrev pub demo : StagingSite
demo = record { meta = meta_of (bytes "demo"); spec = site_spec; status = site_status }

abbrev pub batch_api : BatchApi
batch_api = record {
  get_site = λ _. ok demo;
  get_service_config = λ _. ok shop_config;
  render = λ _ _ spec. ok spec;
  set_controller_reference = ok tt;
  create = λ _. ok tt;
}

abbrev pub job_config : JobConfig
job_config = record { backoff_limit = pos 2; deadline_seconds = pos 600; ttl_seconds = pos 60 }

abbrev pub batch_job : List JobCondition → BatchJob
batch_job conditions = record {
  name = bytes "dbinit-demo";
  namespace = bytes "staging";
  labels = [];
  controller = bytes "demo";
  active_deadline_seconds = pos 600;
  backoff_limit = pos 2;
  ttl_seconds_after_finished = pos 60;
  pod_spec = pod;
  creation_timestamp = pos 5;
  conditions = conditions;
}

abbrev pub finished_condition : JobCondition
finished_condition = record {
  kind = job_complete;
  status = condition_true;
  last_transition_time = pos 9;
}

abbrev pub suspended_condition : JobCondition
suspended_condition = record {
  kind = other_condition;
  status = condition_true;
  last_transition_time = pos 7;
}
