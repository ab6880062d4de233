-- ===== src/Templates/Values/Custom.antt =====
-- The precedence of the custom values in `GetTemplateValues` of handlers/template/site.go.
use kube_stager.Base.{
  AreUnique, first_of, false, none, [], ◌∷◌, ◌++◌, Text, bytes, text_eq, text_eq_iff, is_empty,
  has_prefix, has_prefix_of_eq, text_eq-append, or_else, Assoc, lookup, insert, lookup-insert,
  has_key, All, arith, ◌≡◌, refl, ◌∙◌, inl, inr, Bool-cases, Option-cases,
}
use kube_stager.Names.{make_service_url}
use kube_stager.Api.{
  ServiceConfig, StagingSiteService, StagingSiteServiceStatus, MysqlConfig, MongoConfig,
  RedisConfig, service_or_zero, status_or_zero,
}
use kube_stager.Templates.Values.{
  SiteTemplateHandler, set_values, set_configmap_names, set_database_values, set_services_values,
  own_values, get_template_values, get_mysql_config_template_values,
  get_mongo_config_template_values, get_redis_config_template_values,
  get_common_database_config_template_values, service_prefix,
}

-- The keys behind the prefix are not this one.
AreApart : Text → Text → Assoc Text → Type 0
AreApart prefix key values = All (λ entry. text_eq (prefix ++ entry.0) key ≡ false) values

set_values-apart :
    (prefix key : Text) (values result : Assoc Text)
    → AreApart prefix key values
    → lookup key (set_values prefix values result) ≡ lookup key result
unfolding set_values AreApart
set_values-apart prefix key [] result h = refl
set_values-apart prefix key ((k, v) ∷ values) result h = ground (
  arith,
  set_values-apart prefix key values (insert (prefix ++ k) v result) h.1,
  lookup-insert (prefix ++ k) key v result,
  h.0,
)

AreApart-prefix :
    (prefix key : Text) (values : Assoc Text)
    → has_prefix prefix key ≡ false
    → AreApart prefix key values
unfolding AreApart
AreApart-prefix prefix key [] h = tt
AreApart-prefix prefix key ((k, v) ∷ values) h =
    (ground (arith, has_prefix_of_eq prefix k key), AreApart-prefix prefix key values h)

set_values-prefixed :
    (prefix key : Text) (values result : Assoc Text)
    → AreUnique values
    → lookup (prefix ++ key) (set_values prefix values result)
      ≡ first_of (lookup key values) (lookup (prefix ++ key) result)
unfolding set_values has_key
set_values-prefixed prefix key [] result h = refl
set_values-prefixed prefix key ((k, v) ∷ values) result h = ground (
  arith,
  set_values-prefixed prefix key values (insert (prefix ++ k) v result) h.1,
  lookup-insert (prefix ++ k) (prefix ++ key) v result,
  text_eq-append prefix k key,
  text_eq_iff k key,
  h.0,
  Option-cases (lookup key values),
)

-- No value of a database has a key that begins with "site.".
module _ (name : Text) where
  custom : Text
  custom = bytes "site.custom." ++ name

  mysql-apart :
      (configs : Assoc MysqlConfig) (site_environment default_environment : Text)
      → AreApart [] custom
          (get_mysql_config_template_values configs site_environment default_environment)
  unfolding AreApart custom get_mysql_config_template_values
  mysql-apart configs site default = elim (Bool-cases (is_empty (or_else site default))) [
    | inl e ↦ rw e tt
    | inr e ↦ rw e (refl, (refl, tt))
  ]

  mongo-apart :
      (configs : Assoc MongoConfig) (site_environment default_environment : Text)
      → AreApart [] custom
          (get_mongo_config_template_values configs site_environment default_environment)
  unfolding AreApart custom get_mongo_config_template_values
  mongo-apart configs site default = elim (Bool-cases (is_empty (or_else site default))) [
    | inl e ↦ rw e tt
    | inr e ↦ rw e (refl, (refl, (refl, (refl, tt))))
  ]

  redis-apart :
      (configs : Assoc RedisConfig) (site_environment default_environment : Text)
      → AreApart [] custom
          (get_redis_config_template_values configs site_environment default_environment)
  unfolding AreApart custom get_redis_config_template_values
  redis-apart configs site default = elim (Bool-cases (is_empty (or_else site default))) [
    | inl e ↦ rw e tt
    | inr e ↦ rw e (refl, (refl, (refl, (refl, tt))))
  ]

module _ (md5_base36 : Text → Text) (handler : SiteTemplateHandler) (name : Text) where
  set_database_values-apart :
      (prefix : Text) (status : StagingSiteServiceStatus) (service : StagingSiteService)
      (config : ServiceConfig) (result : Assoc Text)
      → AreApart prefix (custom name) (
          get_redis_config_template_values handler.redis_configs service.redis_environment
            config.spec.default_redis_environment)
      → AreApart prefix (custom name) (
          get_mongo_config_template_values handler.mongo_configs service.mongo_environment
            config.spec.default_mongo_environment)
      → AreApart prefix (custom name) (
          get_mysql_config_template_values handler.mysql_configs service.mysql_environment
            config.spec.default_mysql_environment)
      → AreApart prefix
          (custom name)
          (get_common_database_config_template_values handler.site status service)
      → lookup
          (custom name)
          (set_database_values md5_base36 handler prefix status service config result)
        ≡ lookup (custom name) result
  unfolding set_database_values
  set_database_values-apart prefix status service config result redis mongo mysql common =
      set_values-apart prefix (custom name) _ _ redis
      ∙ set_values-apart prefix (custom name) _ _ mongo
      ∙ set_values-apart prefix (custom name) _ _ mysql
      ∙ set_values-apart prefix (custom name) _ result common

  common-apart :
      (status : StagingSiteServiceStatus) (service : StagingSiteService)
      → AreApart []
          (custom name)
          (get_common_database_config_template_values handler.site status service)
  unfolding AreApart custom get_common_database_config_template_values
  common-apart status service = (refl, (refl, (refl, (refl, (refl, tt)))))

  set_configmap_names-apart :
      (maps : Assoc (Assoc Text)) (result : Assoc Text)
      → lookup (custom name) (set_configmap_names md5_base36 handler maps result)
        ≡ lookup (custom name) result
  unfolding set_configmap_names custom
  set_configmap_names-apart [] result = refl
  set_configmap_names-apart ((k, _) ∷ maps) result =
      set_configmap_names-apart maps _ ∙ lookup-insert (bytes "site.configmap." ++ k) _ _ result

  own_values-apart : lookup (custom name) (own_values md5_base36 handler) ≡ none
  unfolding own_values custom
  own_values-apart =
      set_configmap_names-apart handler.current_service_config.spec.config_maps _
      ∙ set_database_values-apart [] handler.site_service_status handler.site_service_spec
          handler.current_service_config _
          (redis-apart name handler.redis_configs handler.site_service_spec.redis_environment
            handler.current_service_config.spec.default_redis_environment)
          (mongo-apart name handler.mongo_configs handler.site_service_spec.mongo_environment
            handler.current_service_config.spec.default_mongo_environment)
          (mysql-apart name handler.mysql_configs handler.site_service_spec.mysql_environment
            handler.current_service_config.spec.default_mysql_environment)
          (common-apart handler.site_service_status handler.site_service_spec)

  service_database-apart :
      (service_name : Text) (status : StagingSiteServiceStatus) (service : StagingSiteService)
      (config : ServiceConfig) (result : Assoc Text)
      → lookup (custom name) (
          set_database_values md5_base36 handler
            (service_prefix md5_base36 handler service_name)
            status
            service
            config
            result)
        ≡ lookup (custom name) result
  unfolding custom
  service_database-apart service_name status service config result =
      let prefix = service_prefix md5_base36 handler service_name in
      set_database_values-apart prefix status service config result
        (AreApart-prefix prefix (custom name) _ refl) (AreApart-prefix prefix (custom name) _ refl)
        (AreApart-prefix prefix (custom name) _ refl) (AreApart-prefix prefix (custom name) _ refl)

  set_services_values-apart :
      (configs : Assoc ServiceConfig) (result : Assoc Text)
      → lookup (custom name) (set_services_values md5_base36 handler configs result)
        ≡ lookup (custom name) result
  unfolding set_services_values custom
  set_services_values-apart [] result = refl
  set_services_values-apart ((service_name, config) ∷ configs) result =
      let url = make_service_url md5_base36 handler.site config.spec.short_name in
      let with_url =
        insert (bytes "service." ++ (service_name ++ bytes ".clusterUrl")) url result in
      set_services_values-apart configs _
      ∙ service_database-apart service_name
          (status_or_zero (lookup service_name handler.site.status.services))
          (service_or_zero (lookup service_name handler.site.spec.services)) config with_url
      ∙ lookup-insert (bytes "service." ++ (service_name ++ bytes ".clusterUrl")) (custom name) url
          result

  -- The template variable site.custom.<name> has the custom value that the site's service gives, or
  -- else the one of the service config, whatever the other names and environments are; with neither
  -- it is not a variable.
  pub custom_value :
      AreUnique handler.site_service_spec.custom_template_values
      → AreUnique handler.current_service_config.spec.custom_template_values
      → lookup (bytes "site.custom." ++ name) (get_template_values md5_base36 handler)
        ≡ first_of
            (lookup name handler.site_service_spec.custom_template_values)
            (lookup name handler.current_service_config.spec.custom_template_values)
  unfolding get_template_values custom
  custom_value unique unique' = ground (
    arith,
    set_services_values-apart handler.service_configs (
        set_values (bytes "site.custom.") handler.site_service_spec.custom_template_values (
          set_values (bytes "site.custom.")
            handler.current_service_config.spec.custom_template_values
            (own_values md5_base36 handler))),
    set_values-prefixed (bytes "site.custom.") name handler.site_service_spec.custom_template_values
        (set_values (bytes "site.custom.")
          handler.current_service_config.spec.custom_template_values
          (own_values md5_base36 handler))
        unique,
    set_values-prefixed (bytes "site.custom.") name
        handler.current_service_config.spec.custom_template_values (own_values md5_base36 handler)
        unique',
    own_values-apart,
  )
