-- ===== src/Api/Task.antt =====
-- apis/task/v1: the databases that the site controller hands to the database controllers.
use kube_stager.Base.{ℕ, Text}
use kube_stager.Api.Meta.{ObjectMeta}

pub record EnvironmentConfig : Type 0 where
  pub service_name : Text
  pub site_name : Text
  pub environment : Text

-- `unset` is the empty string.
pub data TaskState : Type 0 where
  unset pending failed complete : TaskState

pub record MysqlDatabaseSpec : Type 0 where
  pub environment_config : EnvironmentConfig
  pub database_name : Text
  pub username : Text
  pub password : Text

pub record MysqlDatabase : Type 0 where
  pub meta : ObjectMeta
  pub open meta use *
  pub spec : MysqlDatabaseSpec
  pub state : TaskState

pub record MongoDatabaseSpec : Type 0 where
  pub environment_config : EnvironmentConfig
  pub database_name : Text
  pub username : Text
  pub password : Text

pub record MongoDatabase : Type 0 where
  pub meta : ObjectMeta
  pub open meta use *
  pub spec : MongoDatabaseSpec
  pub state : TaskState

-- `database_number` is a uint32.
pub record RedisDatabaseSpec : Type 0 where
  pub environment_config : EnvironmentConfig
  pub database_number : ℕ

pub record RedisDatabase : Type 0 where
  pub meta : ObjectMeta
  pub open meta use *
  pub spec : RedisDatabaseSpec
  pub state : TaskState
