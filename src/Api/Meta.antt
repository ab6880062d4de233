-- ===== src/Api/Meta.antt =====
-- The metadata that every object has, and the instants that it mentions.
use kube_stager.Base.{Option, List, Text, bytes, ℤ, Assoc}

-- An instant, in nanoseconds from the start of 1970.
abbrev pub Time : Type 0
Time = ℤ

pub record ObjectMeta : Type 0 where
  pub name : Text
  pub namespace : Text
  pub labels : Assoc Text
  pub annotations : Assoc Text
  pub finalizers : List Text
  pub deletion_timestamp : Option Time
  pub creation_timestamp : Time
  -- The controller among the owner references.
  pub controller : Option Text

-- The keys of helpers/labels/constants.go.
abbrev pub label_site : Text
label_site = bytes "operator.kube-stager.io/site"

abbrev pub label_service : Text
label_service = bytes "operator.kube-stager.io/service"

abbrev pub label_redis_environment : Text
label_redis_environment = bytes "operator.kube-stager.io/redis-environment"

abbrev pub label_mysql_environment : Text
label_mysql_environment = bytes "operator.kube-stager.io/mysql-environment"

abbrev pub label_type : Text
label_type = bytes "operator.kube-stager.io/type"

abbrev pub label_job_name : Text
label_job_name = bytes "operator.kube-stager.io/job-name"

abbrev pub mongo_environments_prefix : Text
mongo_environments_prefix = bytes "mongo.environments.operator.kube-stager.io/"

abbrev pub mysql_environments_prefix : Text
mysql_environments_prefix = bytes "mysql.environments.operator.kube-stager.io/"

abbrev pub redis_environments_prefix : Text
redis_environments_prefix = bytes "redis.environments.operator.kube-stager.io/"

abbrev pub services_prefix : Text
services_prefix = bytes "services.operator.kube-stager.io/"

abbrev pub label_mongo_environment : Text
label_mongo_environment = bytes "operator.kube-stager.io/mongo-environment"
