-- ===== src/Templates/Values.antt =====
-- The values of the template variables of a site: handlers/template/site.go.
pub mod Custom
use kube_stager.Base.{
  ℕ, Bool, true, false, Option, none, some, List, [], ◌∷◌, ◌++◌, Text, bytes, is_empty, decimal,
  pos, or_else, if◌then◌else◌, Assoc, lookup, insert,
}
use kube_stager.Names.{make_configmap_name, make_service_url}
use kube_stager.Api.{
  ObjectMeta, StagingSite, StagingSiteService, StagingSiteServiceStatus, ServiceConfig, MysqlConfig,
  MongoConfig, RedisConfig, service_or_zero, status_or_zero,
}
use kube_stager.Controller.{Result, ok, err, ◌>>=◌}

pub record SiteTemplateHandler : Type 0 where
  pub site : StagingSite
  pub site_service_spec : StagingSiteService
  pub site_service_status : StagingSiteServiceStatus
  pub current_service_config : ServiceConfig
  pub service_configs : Assoc ServiceConfig
  pub mysql_configs : Assoc MysqlConfig
  pub mongo_configs : Assoc MongoConfig
  pub redis_configs : Assoc RedisConfig

abbrev pub new_site : StagingSite → ServiceConfig → SiteTemplateHandler
new_site site config = record {
  site = site;
  site_service_spec = service_or_zero (lookup config.name site.spec.services);
  site_service_status = status_or_zero (lookup config.name site.status.services);
  current_service_config = config;
  service_configs = [];
  mysql_configs = [];
  mongo_configs = [];
  redis_configs = [];
}

-- The lists of the API server, by namespace.
pub record ConfigReader : Type 0 where
  pub list_mongo : Text → Result (List MongoConfig)
  pub list_mysql : Text → Result (List MysqlConfig)
  pub list_redis : Text → Result (List RedisConfig)
  pub list_services : Text → Result (List ServiceConfig)

-- The loop `configs[config.Name] = config`.
unfoldable pub by_name : {C : Type 0} → (C → Text) → List C → Assoc C → Assoc C
by_name name_of [] configs = configs
by_name name_of (config ∷ list) configs =
    by_name name_of list (insert (name_of config) config configs)

unfoldable pub list_mongo_configs_in_namespace : ConfigReader → Text → Result (Assoc MongoConfig)
unfolding by_name
list_mongo_configs_in_namespace reader namespace =
    reader.list_mongo namespace >>= λ list. ok (by_name (λ c. c.name) list [])

unfoldable pub list_mysql_configs_in_namespace : ConfigReader → Text → Result (Assoc MysqlConfig)
unfolding by_name
list_mysql_configs_in_namespace reader namespace =
    reader.list_mysql namespace >>= λ list. ok (by_name (λ c. c.name) list [])

unfoldable pub list_redis_configs_in_namespace : ConfigReader → Text → Result (Assoc RedisConfig)
unfolding by_name
list_redis_configs_in_namespace reader namespace =
    reader.list_redis namespace >>= λ list. ok (by_name (λ c. c.name) list [])

unfoldable pub load_service_configs :
    ConfigReader → SiteTemplateHandler → Result SiteTemplateHandler
unfolding by_name
load_service_configs reader handler = reader.list_services handler.site.namespace >>= λ list.
    ok (record handler { service_configs = by_name (λ c. c.name) list [] })

-- The handler that an error leaves behind is not used.
unfoldable pub load_configs : ConfigReader → SiteTemplateHandler → Result SiteTemplateHandler
unfolding list_mongo_configs_in_namespace list_mysql_configs_in_namespace
    list_redis_configs_in_namespace load_service_configs
load_configs reader handler =
    list_mongo_configs_in_namespace reader handler.site.namespace >>= λ mongo.
    list_mysql_configs_in_namespace reader handler.site.namespace >>= λ mysql.
    list_redis_configs_in_namespace reader handler.site.namespace >>= λ redis.
    load_service_configs reader
      (record handler { mongo_configs = mongo; mysql_configs = mysql; redis_configs = redis })

abbrev pub set_service_config : Text → ServiceConfig → SiteTemplateHandler → SiteTemplateHandler
set_service_config name config handler = record handler {
  service_configs = insert name config handler.service_configs;
}

-- The zero values that a missing config reads as.
abbrev no_meta : ObjectMeta
no_meta = record {
  name = [];
  namespace = [];
  labels = [];
  annotations = [];
  finalizers = [];
  deletion_timestamp = none;
  creation_timestamp = pos 0;
  controller = none;
}

abbrev mysql_or_zero : Option MysqlConfig → MysqlConfig
mysql_or_zero none = record { meta = no_meta; host = []; username = []; password = []; port = 0 }
mysql_or_zero (some config) = config

abbrev mongo_or_zero : Option MongoConfig → MongoConfig
mongo_or_zero none = record {
  meta = no_meta;
  host1 = [];
  host2 = [];
  host3 = [];
  username = [];
  password = [];
  port = 0;
}
mongo_or_zero (some config) = config

abbrev redis_or_zero : Option RedisConfig → RedisConfig
redis_or_zero none = record {
  meta = no_meta;
  host = [];
  available_database_count = 0;
  port = 0;
  is_tls_enabled = none;
  password = [];
}
redis_or_zero (some config) = config

mysql_values : MysqlConfig → Assoc Text
unfolding decimal
mysql_values config =
    (bytes "database.mysql.host", config.host)
    ∷ (bytes "database.mysql.port", decimal config.port)
    ∷ []

-- The environment of the site, or else the default one of the service; no values without either.
unfoldable pub get_mysql_config_template_values : Assoc MysqlConfig → Text → Text → Assoc Text
unfolding mysql_values
get_mysql_config_template_values configs site_environment default_environment =
    let name = or_else site_environment default_environment in
    if is_empty name then [] else mysql_values (mysql_or_zero (lookup name configs))

mongo_values : MongoConfig → Assoc Text
unfolding decimal
mongo_values config =
    (bytes "database.mongo.host1", config.host1)
    ∷ (bytes "database.mongo.host2", config.host2)
    ∷ (bytes "database.mongo.host3", config.host3)
    ∷ (bytes "database.mongo.port", decimal config.port)
    ∷ []

unfoldable pub get_mongo_config_template_values : Assoc MongoConfig → Text → Text → Assoc Text
unfolding mongo_values
get_mongo_config_template_values configs site_environment default_environment =
    let name = or_else site_environment default_environment in
    if is_empty name then [] else mongo_values (mongo_or_zero (lookup name configs))

abbrev scheme : Option Bool → Text
scheme (some true) = bytes "tls"
scheme _ = bytes "tcp"

redis_values : RedisConfig → Assoc Text
unfolding decimal
redis_values config =
    (bytes "database.redis.scheme", scheme config.is_tls_enabled)
    ∷ (bytes "database.redis.host", config.host)
    ∷ (bytes "database.redis.port", decimal config.port)
    ∷ (bytes "database.redis.password", config.password)
    ∷ []

unfoldable pub get_redis_config_template_values : Assoc RedisConfig → Text → Text → Assoc Text
unfolding redis_values
get_redis_config_template_values configs site_environment default_environment =
    let name = or_else site_environment default_environment in
    if is_empty name then [] else redis_values (redis_or_zero (lookup name configs))

unfoldable pub get_common_database_config_template_values :
    StagingSite → StagingSiteServiceStatus → StagingSiteService → Assoc Text
unfolding decimal
get_common_database_config_template_values site status service =
    (bytes "database.username", status.username)
    ∷ (bytes "database.name", status.db_name)
    ∷ (bytes "database.password", site.spec.password)
    ∷ (bytes "database.redis.database", decimal status.redis_database_number)
    ∷ (bytes "database.initSource", service.db_init_source_environment_name)
    ∷ []

-- The loop `result[prefix+k] = v`.
unfoldable pub set_values : Text → Assoc Text → Assoc Text → Assoc Text
set_values prefix [] result = result
set_values prefix ((k, v) ∷ values) result =
    set_values prefix values (insert (prefix ++ k) v result)

module _ (md5_base36 : Text → Text) (handler : SiteTemplateHandler) where
  unfoldable pub set_configmap_names : {V : Type 0} → Assoc V → Assoc Text → Assoc Text
  unfolding make_configmap_name
  set_configmap_names [] result = result
  set_configmap_names ((name, _) ∷ maps) result = set_configmap_names maps (
      insert (bytes "site.configmap." ++ name)
        (make_configmap_name md5_base36 handler.site handler.current_service_config name) result)

  -- The values of the databases of a service, behind a prefix.
  unfoldable pub set_database_values :
      Text → StagingSiteServiceStatus → StagingSiteService → ServiceConfig → Assoc Text → Assoc Text
  unfolding get_common_database_config_template_values get_mysql_config_template_values
      get_mongo_config_template_values get_redis_config_template_values set_values
  set_database_values prefix status service config result =
      set_values prefix
        (get_redis_config_template_values handler.redis_configs service.redis_environment
          config.spec.default_redis_environment)
        (set_values prefix
          (get_mongo_config_template_values handler.mongo_configs service.mongo_environment
            config.spec.default_mongo_environment)
          (set_values prefix
            (get_mysql_config_template_values handler.mysql_configs service.mysql_environment
              config.spec.default_mysql_environment)
            (set_values prefix
              (get_common_database_config_template_values handler.site status service) result)))

  abbrev service_prefix : Text → Text
  service_prefix name = bytes "service." ++ (name ++ bytes ".")

  set_service_values : Text → ServiceConfig → Assoc Text → Assoc Text
  unfolding set_database_values make_service_url
  set_service_values name config result =
      set_database_values (service_prefix name)
        (status_or_zero (lookup name handler.site.status.services))
        (service_or_zero (lookup name handler.site.spec.services)) config
        (insert (bytes "service." ++ (name ++ bytes ".clusterUrl"))
          (make_service_url md5_base36 handler.site config.spec.short_name) result)

  unfoldable pub set_services_values : Assoc ServiceConfig → Assoc Text → Assoc Text
  unfolding set_service_values
  set_services_values [] result = result
  set_services_values ((name, config) ∷ configs) result =
      set_services_values configs (set_service_values name config result)

  -- The values before those of the services, in two parts.
  unfoldable pub own_values : Assoc Text
  unfolding set_database_values set_configmap_names
  own_values = set_configmap_names handler.current_service_config.spec.config_maps (
      set_database_values [] handler.site_service_status handler.site_service_spec
        handler.current_service_config
        ((bytes "site.name", handler.site.name)
          ∷ (bytes "site.domainPrefix", handler.site.spec.domain_prefix)
          ∷ (bytes "site.imageTag", handler.site_service_spec.image_tag)
          ∷ []))

  unfoldable pub get_template_values : Assoc Text
  unfolding own_values set_services_values set_values
  get_template_values = set_services_values handler.service_configs (
      set_values (bytes "site.custom.") handler.site_service_spec.custom_template_values (
        set_values (bytes "site.custom.") handler.current_service_config.spec.custom_template_values
          own_values))
