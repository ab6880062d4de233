-- ===== src/Task/Database.antt =====
-- The redis databases of apis/task/v1/redisdatabase_helpers.go, and the API server that
-- handlers/task/redis_handler.go calls.
use kube_stager.Base.{
  Bool, true, false, ◌&&◌, Option, none, some, List, [], ◌∷◌, ◌++◌, Text, text_eq, pos, Assoc,
  lookup,
}
use kube_stager.Api.{
  StagingSite, ServiceConfig, RedisConfig, RedisDatabase, EnvironmentConfig, TaskState, label_site,
  label_service, label_redis_environment,
}
use kube_stager.Names.{shorten_human_readable_value}
use kube_stager.Controller.{Result, Error}

pub data Write : Type 0 where
  deleted created updated : RedisDatabase → Write

-- The answers of the API server. What an environment holds may depend on the writes so far.
pub record RedisApi : Type 0 where
  pub list_for_site : Result (List RedisDatabase)
  pub get_service_config : Text → Result ServiceConfig
  pub set_controller_reference : RedisDatabase → Result RedisDatabase
  pub get_redis_config : Text → Result RedisConfig
  pub list_in_environment : List Write → Text → Result (List RedisDatabase)
  pub md5_base36 : Text → Text
  pub accepts : Write → Option Error

-- reflect.DeepEqual of two maps of strings.
abbrev is_value : Option Text → Text → Bool
is_value none w = false
is_value (some v) w = text_eq v w

is_within : Assoc Text → Assoc Text → Bool
is_within [] m = true
is_within ((k, v) ∷ l) m = is_value (lookup k m) v && is_within l m

unfoldable pub equal_maps : Assoc Text → Assoc Text → Bool
unfolding is_within
equal_maps l m = is_within l m && is_within m l

unfoldable pub equal_configs : EnvironmentConfig → EnvironmentConfig → Bool
equal_configs a b =
    text_eq a.service_name b.service_name
    && (text_eq a.site_name b.site_name && text_eq a.environment b.environment)

-- The receiver comes first.
unfoldable pub matches : RedisDatabase → RedisDatabase → Bool
unfolding equal_configs equal_maps
matches database other =
    equal_configs database.spec.environment_config other.spec.environment_config
    && (text_eq database.name other.name
        && (text_eq database.namespace other.namespace && equal_maps database.labels other.labels))

abbrev pub update_from_expected : RedisDatabase → RedisDatabase → RedisDatabase
update_from_expected database expected = record database {
  spec = expected.spec;
  meta = record database.meta {
    name = expected.name;
    namespace = expected.namespace;
    labels = expected.labels;
  };
}

unfoldable pub populate_fom_site :
    (Text → Text) → StagingSite → ServiceConfig → Text → RedisDatabase
unfolding shorten_human_readable_value
populate_fom_site md5_base36 site config environment = record {
  meta = record {
    name =
        shorten_human_readable_value md5_base36 site.name (pos 50)
        ++ (b'-' ∷ config.spec.short_name);
    namespace = site.namespace;
    labels =
        (label_site, site.name)
        ∷ (label_service, config.name)
        ∷ (label_redis_environment, environment)
        ∷ [];
    annotations = [];
    finalizers = [];
    deletion_timestamp = none;
    creation_timestamp = pos 0;
    controller = none;
  };
  spec = record {
    environment_config = record {
      service_name = config.name;
      site_name = site.name;
      environment = environment;
    };
    database_number = 0;
  };
  state = TaskState.unset;
}

unfoldable pub get_populated_database :
    RedisApi → StagingSite → ServiceConfig → Text → Result RedisDatabase
unfolding populate_fom_site
get_populated_database api site config environment =
    api.set_controller_reference (populate_fom_site api.md5_base36 site config environment)
