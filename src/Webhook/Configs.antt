-- ===== src/Webhook/Configs.antt =====
-- The admission of service configs: handlers/webhook/serviceconfig_create_or_update.go.
pub mod Accepted
use kube_stager.Base.{
  Bool, true, false, not, ◌&&◌, ◌||◌, Option, none, some, List, [], ◌∷◌, ◌++◌, Text, bytes,
  is_empty, text_eq, pos, has_key, is_some, if◌then◌else◌, Assoc, lookup,
}
use kube_stager.Api.{
  ObjectMeta, StagingSite, StagingSiteService, StagingSiteSpec, StagingSiteStatus, StagingSiteState,
  WorkloadHealth, TimeInterval, ServiceConfig, ServiceConfigSpec, PodSpec, zero_service,
}
use kube_stager.Controller.{
  Result, ok, err, ◌>>=◌, ◌>>◌, Error, controller_error, api_error, message, not_found,
  nil_dereference, error_text,
}
use kube_stager.Templates.{
  Yaml, replace_template_variables_in_pod_spec, replace_template_variables_in_service_spec,
  replace_template_variables_in_ingress_spec, replace_template_variables_in_string_map,
}
use kube_stager.Templates.Values.{
  ConfigReader, SiteTemplateHandler, new_site, load_configs, load_service_configs,
  set_service_config, get_template_values,
}
use kube_stager.Webhook.{Response, allowed, denied, errored}

-- The API server, the service configs of a namespace by their short name, the YAML of the specs, and
-- the digest of names.
pub record ConfigApi : Type 0 where
  pub reader : ConfigReader
  pub list_by_short_name : Text → Text → Result (List ServiceConfig)
  pub pod_yaml : Yaml PodSpec
  pub service_yaml : Yaml Text
  pub ingress_yaml : Yaml Text
  pub md5_base36 : Text → Text

abbrev never_again : TimeInterval
never_again = record { never = true; days = pos 0; hours = pos 0; minutes = pos 0 }

abbrev dummy_meta : Text → ObjectMeta
dummy_meta namespace = record {
  name = bytes "dummy";
  namespace = namespace;
  labels = [];
  annotations = [];
  finalizers = [];
  deletion_timestamp = none;
  creation_timestamp = pos 0;
  controller = none;
}

abbrev zero_status : StagingSiteStatus
zero_status = record {
  database_creation_complete = false;
  database_initialisation_complete = false;
  database_migrations_complete = false;
  configs_are_created = false;
  networking_objects_are_created = false;
  workloads_are_created = false;
  last_applied_configuration = none;
  disable_at = none;
  delete_at = none;
  enabled = false;
  state = StagingSiteState.unset;
  workload_health = WorkloadHealth.unset;
  error_message = [];
  services = [];
  last_backup_time = none;
  next_backup_time = none;
}

abbrev dummy_spec : Text → StagingSiteSpec
dummy_spec service_name = record {
  domain_prefix = bytes "dummy";
  db_name = bytes "dummy";
  username = bytes "dummy";
  password = bytes "dummy";
  enabled = false;
  disable_after = never_again;
  delete_after = never_again;
  backup_before_delete = false;
  daily_backup_window_hour = none;
  services =
      (
        service_name,
        record zero_service {
          image_tag = bytes "latest";
          replicas = pos 1;
          db_init_source_environment_name = bytes "master";
        },
      )
      ∷ [];
  include_all_services = false;
}

unfoldable pub get_dummy_site : Text → Text → StagingSite
get_dummy_site service_name namespace = record {
  meta = dummy_meta namespace;
  spec = dummy_spec service_name;
  status = zero_status;
}

abbrev taken_by : ServiceConfig → List ServiceConfig → Bool
taken_by config [] = false
taken_by config (other ∷ []) = not (text_eq other.name config.name)
taken_by config (_ ∷ _ ∷ _) = true

-- A check whose error ends the validation.
abbrev pub checked {ℓ} : {A : Type ℓ} → Result A → Result (Unit {0})
checked (ok _) = ok tt
checked (err e) = err e

abbrev checked_some {ℓ κ} :
    {A : Type ℓ} {B : Type κ} → (A → Result B) → Option A → Result (Unit {0})
checked_some check none = ok tt
checked_some check (some a) = checked (check a)

abbrev error_of : Assoc Text × Option Error → Result (Unit {0})
error_of (m, none) = ok tt
error_of (m, some e) = err e

module _ (api : ConfigApi) (values : Assoc Text) where
  unfoldable pub validate_config_maps : Assoc (Assoc Text) → Result (Unit {0})
  unfolding replace_template_variables_in_string_map
  validate_config_maps [] = ok tt
  validate_config_maps ((name, m) ∷ maps) =
      error_of
        (replace_template_variables_in_string_map m (name ++ bytes " configmap") (values ∷ []))
      >> validate_config_maps maps

  abbrev ingress_values : Option Text → Assoc Text
  ingress_values none = []
  ingress_values (some _) = (bytes "ingress.serviceName", bytes "dummy") ∷ []

  -- The specs, before the config maps.
  unfoldable pub validate_specs : ServiceConfigSpec → Result (Unit {0})
  unfolding replace_template_variables_in_pod_spec replace_template_variables_in_service_spec
      replace_template_variables_in_ingress_spec
  validate_specs spec =
      let pod = λ (pod_spec : PodSpec).
        replace_template_variables_in_pod_spec api.pod_yaml pod_spec (values ∷ []) in
      let service = λ (service_spec : Text).
        replace_template_variables_in_service_spec api.service_yaml service_spec (values ∷ []) in
      let ingress = λ (ingress_spec : Text).
        replace_template_variables_in_ingress_spec api.ingress_yaml ingress_spec
          (values ∷ ingress_values spec.service_spec ∷ []) in
      checked_some pod spec.db_init_pod_spec
      >> (checked_some pod spec.migration_job_pod_spec
          >> (checked_some pod spec.backup_pod_spec
              >> (checked (pod spec.deployment_pod_spec)
                  >> (checked_some service spec.service_spec
                      >> checked_some ingress spec.ingress_spec))))

  unfoldable pub validate_templates : ServiceConfigSpec → Result (Unit {0})
  unfolding validate_specs validate_config_maps
  validate_templates spec = validate_specs spec >> validate_config_maps spec.config_maps

respond_to : Result (Unit {0}) → Response (Unit {0})
unfolding error_text
respond_to (ok _) = allowed
respond_to (err (controller_error e)) = denied (error_text e)
respond_to (err e) = errored 500 e

-- The three tests on the default environments, then the templates.
module _ (api : ConfigApi) (config : ServiceConfig) where
  abbrev is_default_known {ℓ} : {E : Type ℓ} → Assoc E → Text → Bool
  is_default_known configs environment =
      is_empty environment || is_some (lookup environment configs)

  unfoldable pub check_config : SiteTemplateHandler → Response (Unit {0})
  unfolding validate_templates get_template_values respond_to
  check_config handler =
      elim (is_default_known handler.mongo_configs config.spec.default_mongo_environment) [
        | false ↦
            denied (bytes "Invalid mongo environment: " ++ config.spec.default_mongo_environment)
        | true ↦
            elim (is_default_known handler.mysql_configs config.spec.default_mysql_environment) [
              | false ↦
                  denied
                    (bytes "Invalid mysql environment: " ++ config.spec.default_mysql_environment)
              | true ↦
                  elim (is_default_known handler.redis_configs
                    config.spec.default_redis_environment) [
                      | false ↦ denied (
                          bytes "Invalid redis environment: "
                          ++ config.spec.default_redis_environment)
                      | true ↦ respond_to (
                          validate_templates api (get_template_values api.md5_base36 handler)
                            config.spec)
                    ]
            ]
      ]

  not_unique : Error
  not_unique = message (
      bytes "the short name "
      ++ (config.spec.short_name ++ (bytes " is not unique in the namespace " ++ config.namespace)))

  unfoldable pub check_loaded : SiteTemplateHandler → Response (Unit {0})
  unfolding check_config not_unique
  check_loaded handler = elim (api.list_by_short_name config.namespace config.spec.short_name) [
    | err e ↦ errored 500 e
    | ok list ↦ elim (taken_by config list) [
      | true ↦ errored 422 not_unique
      | false ↦ check_config handler
    ]
  ]

  -- The handler of the templates, with the config that is to be stored.
  unfoldable pub loaded_handler : Result SiteTemplateHandler
  unfolding get_dummy_site load_service_configs load_configs
  loaded_handler =
      load_service_configs api.reader
        (new_site (get_dummy_site config.name config.namespace) config)
      >>= load_configs api.reader
      >>= λ handler. ok (set_service_config config.name config handler)

-- `decoded` is the answer of the decoder.
unfoldable pub handle_config : ConfigApi → Result ServiceConfig → Response (Unit {0})
unfolding loaded_handler check_loaded
handle_config api (err e) = errored 400 e
handle_config api (ok config) = elim (loaded_handler api config) [
  | err e ↦ errored 500 e
  | ok handler ↦ check_loaded api config handler
]
