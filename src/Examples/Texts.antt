-- ===== src/Examples/Texts.antt =====
-- Texts with template variables.
use kube_stager.Base.{◌≡◌, refl, ◌≢◌, ◌↔◌, some, [], ◌∷◌, bytes, lookup, has_key}
use kube_stager.Api.{StagingSite, ServiceConfig}
use kube_stager.Templates.{
  get_unresolved_templates_from_string, replace_template_variables_in_string,
}
use kube_stager.Templates.Found.{Occurs, found_iff_Occurs}
use kube_stager.Templates.Values.{new_site, get_template_values}
use kube_stager.Templates.Values.Custom.{custom_value}
use kube_stager.Examples.{digest, demo, shop_config, shop_service}

found_example :
    (get_unresolved_templates_from_string (bytes "a ${b.c} d ${b.c} ${}") ≢ [])
    ↔ Occurs (bytes "a ${b.c} d ${b.c} ${}")
found_example = found_iff_Occurs (bytes "a ${b.c} d ${b.c} ${}")

-- A template is found once, and an empty one not at all.
found_run :
    get_unresolved_templates_from_string (bytes "a ${b.c} d ${b.c} ${}") ≡ bytes "${b.c}" ∷ []
unfolding get_unresolved_templates_from_string
found_run = refl

replaced_run :
    replace_template_variables_in_string
      (bytes "http://${host}:${port}${path}")
      (((bytes "host", bytes "redis") ∷ (bytes "port", bytes "6379") ∷ []) ∷ [])
    ≡ bytes "http://redis:6379${path}"
unfolding replace_template_variables_in_string
replaced_run = refl

-- A site that overrides one of two custom values.
abbrev custom_config : ServiceConfig
custom_config = record shop_config {
  spec = record shop_config.spec {
    custom_template_values = (bytes "colour", bytes "red") ∷ (bytes "size", bytes "large") ∷ [];
  };
}

abbrev custom_site : StagingSite
custom_site = record demo {
  spec = record demo.spec {
    services =
        (
          bytes "shop",
          record shop_service { custom_template_values = (bytes "colour", bytes "blue") ∷ [] },
        )
        ∷ [];
  };
}

custom_example :
    lookup
      (bytes "site.custom.colour")
      (get_template_values digest (new_site custom_site custom_config))
    ≡ some (bytes "blue")
unfolding has_key
custom_example =
    custom_value digest (new_site custom_site custom_config) (bytes "colour") (refl, tt)
      (refl, (refl, tt))
