-- ===== src/Api/Config.antt =====
-- apis/config/v1: service configs and database environments.
use kube_stager.Base.{ℕ, Bool, Option, List, Text, Assoc}
use kube_stager.Api.Meta.{ObjectMeta}

-- A container of a pod: its name, its environment, and its resources as text.
pub record EnvVar : Type 0 where
  pub name : Text
  pub value : Text

pub record Container : Type 0 where
  pub name : Text
  pub env : List EnvVar
  pub resources : Text

-- A pod spec: what the operator reads and writes, and the rest as text.
pub record PodSpec : Type 0 where
  pub containers : List Container
  pub restart_policy : Text
  pub manifest : Text

pub record ServiceConfigSpec : Type 0 where
  pub short_name : Text
  pub config_maps : Assoc (Assoc Text)
  pub custom_template_values : Assoc Text
  pub deployment_pod_spec : PodSpec
  pub db_init_pod_spec : Option PodSpec
  pub migration_job_pod_spec : Option PodSpec
  pub backup_pod_spec : Option PodSpec
  -- The specs of the service and of the ingress, as text.
  pub service_spec : Option Text
  pub ingress_spec : Option Text
  pub ingress_annotations : Assoc Text
  pub default_mongo_environment : Text
  pub default_mysql_environment : Text
  pub default_redis_environment : Text

pub record ServiceConfig : Type 0 where
  pub meta : ObjectMeta
  pub open meta use *
  pub spec : ServiceConfigSpec

-- Ports are uint16s.
pub record MysqlConfig : Type 0 where
  pub meta : ObjectMeta
  pub open meta use *
  pub host : Text
  pub username : Text
  pub password : Text
  pub port : ℕ

pub record MongoConfig : Type 0 where
  pub meta : ObjectMeta
  pub open meta use *
  pub host1 : Text
  pub host2 : Text
  pub host3 : Text
  pub username : Text
  pub password : Text
  pub port : ℕ

-- `available_database_count` is a uint32.
pub record RedisConfig : Type 0 where
  pub meta : ObjectMeta
  pub open meta use *
  pub host : Text
  pub available_database_count : ℕ
  pub port : ℕ
  pub is_tls_enabled : Option Bool
  pub password : Text
