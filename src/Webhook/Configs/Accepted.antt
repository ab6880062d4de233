-- ===== src/Webhook/Configs/Accepted.antt =====
-- What the webhook of handlers/webhook/serviceconfig_create_or_update.go has checked of a service
-- config that it allows.
use kube_stager.Base.{
  true, ◌||◌, none, some, [], ◌∷◌, ◌++◌, Text, bytes, is_empty, is_some, Assoc, lookup, Among,
  arith, ◌≡◌, refl, inl, inr, Bool-cases, Option-cases,
}
use kube_stager.Api.{ServiceConfig, ServiceConfigSpec}
use kube_stager.Controller.{
  Result, ok, err, controller_error, ◌>>◌, not_found, api_error, message, nil_dereference,
  Result-cases,
}
use kube_stager.Templates.{replace_template_variables_in_string_map}
use kube_stager.Templates.Found.{Occurs}
use kube_stager.Templates.Resolved.{replaced_map_is_resolved}
use kube_stager.Templates.Values.{SiteTemplateHandler, get_template_values}
use kube_stager.Webhook.{allowed}
use kube_stager.Webhook.Configs.{
  ConfigApi, validate_config_maps, validate_specs, validate_templates, check_config, check_loaded,
  loaded_handler, handle_config, is_default_known, taken_by, respond_to,
}

-- The three default environments are none or listed.
abbrev pub HasKnownDefaults : ServiceConfig → SiteTemplateHandler → Type 0
HasKnownDefaults config handler =
    ((is_empty config.spec.default_mongo_environment
        || is_some (lookup config.spec.default_mongo_environment handler.mongo_configs))
      ≡ true)
    × ((is_empty config.spec.default_mysql_environment
          || is_some (lookup config.spec.default_mysql_environment handler.mysql_configs))
        ≡ true)
    × ((is_empty config.spec.default_redis_environment
          || is_some (lookup config.spec.default_redis_environment handler.redis_configs))
        ≡ true)

respond_to-allowed : (r : Result (Unit {0})) → respond_to r ≡ allowed → r ≡ ok tt
unfolding respond_to
respond_to-allowed (ok _) h = refl
respond_to-allowed (err (controller_error e)) h = ground arith
respond_to-allowed (err not_found) h = ground arith
respond_to-allowed (err (api_error n)) h = ground arith
respond_to-allowed (err (message t)) h = ground arith
respond_to-allowed (err nil_dereference) h = ground arith

module _ (api : ConfigApi) (config : ServiceConfig) where
  check_config-allowed :
      (handler : SiteTemplateHandler)
      → check_config api config handler ≡ allowed
      → HasKnownDefaults config handler
        × (validate_templates api (get_template_values api.md5_base36 handler) config.spec ≡ ok tt)
  unfolding check_config
  check_config-allowed handler h =
      elim (Bool-cases
        (is_default_known api config handler.mongo_configs config.spec.default_mongo_environment)) [
          | inr e ↦ ground arith
          | inl e₁ ↦
              elim (Bool-cases (
                is_default_known api config handler.mysql_configs
                  config.spec.default_mysql_environment)) [
                    | inr e ↦ ground arith
                    | inl e₂ ↦
                        elim (Bool-cases (
                          is_default_known api config handler.redis_configs
                            config.spec.default_redis_environment)) [
                              | inr e ↦ ground arith
                              | inl e₃ ↦ ((e₁, e₂, e₃), respond_to-allowed _ (ground arith))
                            ]
                  ]
        ]

  handle_config-allowed :
      handle_config api (ok config) ≡ allowed
      → (handler : SiteTemplateHandler) × (loaded_handler api config ≡ ok handler)
        × (check_config api config handler ≡ allowed)
  unfolding handle_config check_loaded
  handle_config-allowed h = elim (Result-cases (loaded_handler api config)) [
    | inr (x, e) ↦ ground arith
    | inl (handler, e) ↦
        elim (Result-cases (api.list_by_short_name config.namespace config.spec.short_name)) [
          | inr (x, e') ↦ ground arith
          | inl (list, e') ↦ elim (Bool-cases (taken_by config list)) [
            | inl e'' ↦ ground arith
            | inr e'' ↦ (handler, e, ground arith)
          ]
        ]
  ]

validate_config_maps-ok :
    (api : ConfigApi) (values : Assoc Text) (maps : Assoc (Assoc Text)) (name : Text)
    (m : Assoc Text)
    → validate_config_maps api values maps ≡ ok tt
    → Among (name, m) maps
    → (replace_template_variables_in_string_map m (name ++ bytes " configmap") (values ∷ [])).1
      ≡ none
unfolding validate_config_maps
validate_config_maps-ok api values [] name m h among = elim among [ ]
validate_config_maps-ok api values ((n, m') ∷ maps) name m h (inl same) = ground (
  arith,
  Option-cases
      (replace_template_variables_in_string_map m' (n ++ bytes " configmap") (values ∷ [])).1,
)
validate_config_maps-ok api values ((n, m') ∷ maps) name m h (inr later) =
    validate_config_maps-ok api values maps name m
      (ground (
        arith,
        Option-cases
            (replace_template_variables_in_string_map m' (n ++ bytes " configmap") (values ∷ [])).1,
      ))
      later

rest-ok : (r : Result (Unit {0})) (rest : Result (Unit {0})) → (r >> rest) ≡ ok tt → rest ≡ ok tt
rest-ok (ok _) rest h = h
rest-ok (err e) rest h = ground arith

validate_templates-maps :
    (api : ConfigApi) (values : Assoc Text) (spec : ServiceConfigSpec)
    → validate_templates api values spec ≡ ok tt
    → validate_config_maps api values spec.config_maps ≡ ok tt
unfolding validate_templates
validate_templates-maps api values spec h =
    rest-ok (validate_specs api values spec) (validate_config_maps api values spec.config_maps) h

-- What the webhook leaves of a config map, with the values of the templates that it has loaded.
abbrev pub replaced_map : ConfigApi → SiteTemplateHandler → Text → Assoc Text → Assoc Text
replaced_map api handler name m =
    (replace_template_variables_in_string_map m (name ++ bytes " configmap")
      (get_template_values api.md5_base36 handler ∷ [])).0

-- Of a service config that the webhook allows, the site's stand-in and the configs of its namespace
-- could be loaded. Each default environment of the config is none or exists in the namespace, and no
-- value of any of its config maps holds a template once the variables are replaced with their values.
pub accepted_config_is_resolved :
    (api : ConfigApi) (config : ServiceConfig)
    → handle_config api (ok config) ≡ allowed
    → (handler : SiteTemplateHandler) × (loaded_handler api config ≡ ok handler)
      × HasKnownDefaults config handler
      × ((name : Text) (m : Assoc Text) (k v : Text)
          → Among (name, m) config.spec.config_maps
          → lookup k (replaced_map api handler name m) ≡ some v
          → ¬ Occurs v)
accepted_config_is_resolved api config h =
    let (handler, loaded, passed) = handle_config-allowed api config h in
    let (known, valid) = check_config-allowed api config handler passed in
    let values = get_template_values api.md5_base36 handler in
    (
      handler,
      loaded,
      known,
      λ name m k v among found.
          let resolved =
            validate_config_maps-ok api values config.spec.config_maps name m
              (validate_templates-maps api values config.spec valid) among in
          replaced_map_is_resolved (name ++ bytes " configmap") (values ∷ []) m
            (replaced_map api handler name m) k v (ground arith) found,
    )
