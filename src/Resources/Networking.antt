-- ===== src/Resources/Networking.antt =====
-- handlers/site/networking_handler.go.
pub mod Reached
use kube_stager.Base.{
  Bool, true, false, ◌&&◌, Option, none, some, List, [], ◌∷◌, Text, bytes, Assoc,
}
use kube_stager.Names.{make_service_name, make_ingress_name}
use kube_stager.Api.{
  StagingSite, StagingSiteService, ServiceConfig, KubeService, Ingress, service_label,
}
use kube_stager.Controller.{Result, ok, err, ◌>>=◌}
use kube_stager.Templates.{
  Yaml, replace_template_variables_in_service_spec, replace_template_variables_in_ingress_spec,
}
use kube_stager.Sync.{Write, Run}
use kube_stager.Resources.{
  ResourceApi, differs, loaded_values, object_labels, object_meta, ensure_objects,
}

new_service : (Text → Text) → StagingSite → ServiceConfig → Text → KubeService
unfolding make_service_name
new_service md5_base36 site config manifest = record {
  meta = object_meta (make_service_name md5_base36 site config) site (object_labels site config) [];
  selector = object_labels site config;
  manifest = manifest;
}

-- The owner reference is the one that SetControllerReference sets.
new_ingress : (Text → Text) → StagingSite → ServiceConfig → Text → Ingress
unfolding make_ingress_name
new_ingress md5_base36 site config manifest = record {
  meta =
      object_meta (make_ingress_name md5_base36 site config) site (object_labels site config)
        config.spec.ingress_annotations;
  manifest = manifest;
}

module _ (yaml : Yaml Text) (api : ResourceApi KubeService) where
  unfoldable pub create_service : StagingSite → ServiceConfig → Text → Result KubeService
  unfolding loaded_values replace_template_variables_in_service_spec new_service
  create_service site config spec =
      loaded_values api.md5_base36 api.reader site config >>= λ values.
      replace_template_variables_in_service_spec yaml spec (values ∷ []) >>= λ manifest.
      api.set_controller_reference (new_service api.md5_base36 site config manifest)

  service_of_spec : StagingSite → ServiceConfig → Option Text → Result (Option KubeService)
  unfolding create_service
  service_of_spec site config none = ok none
  service_of_spec site config (some spec) =
      create_service site config spec >>= λ service. ok (some service)

  unfoldable pub wanted_service :
      StagingSite → Text → StagingSiteService → Result (Option KubeService)
  unfolding service_of_spec
  wanted_service site name service =
      api.get_service_config name >>= λ config. service_of_spec site config config.spec.service_spec

module _ (yaml : Yaml Text) (api : ResourceApi Ingress) where
  unfoldable pub create_ingress : StagingSite → ServiceConfig → Text → Result Ingress
  unfolding loaded_values replace_template_variables_in_ingress_spec new_ingress make_service_name
  create_ingress site config spec =
      loaded_values api.md5_base36 api.reader site config >>= λ values.
      replace_template_variables_in_ingress_spec yaml spec (
        values
        ∷ ((bytes "ingress.serviceName", make_service_name api.md5_base36 site config) ∷ [])
        ∷ [])
      >>= λ manifest. api.set_controller_reference (new_ingress api.md5_base36 site config manifest)

  ingress_of_spec : StagingSite → ServiceConfig → Option Text → Result (Option Ingress)
  unfolding create_ingress
  ingress_of_spec site config none = ok none
  ingress_of_spec site config (some spec) =
      create_ingress site config spec >>= λ ingress. ok (some ingress)

  unfoldable pub wanted_ingress : StagingSite → Text → StagingSiteService → Result (Option Ingress)
  unfolding ingress_of_spec
  wanted_ingress site name service =
      api.get_service_config name >>= λ config. ingress_of_spec site config config.spec.ingress_spec

abbrev pub service_of_service : KubeService → Text
service_of_service service = service_label service.meta

abbrev pub service_of_ingress : Ingress → Text
service_of_ingress ingress = service_label ingress.meta

abbrev pub unrevised : {O : Type 0} → O → O → Option O
unrevised existing expected = none

-- The answers of the API server for the two kinds.
pub record NetworkingApi : Type 0 where
  pub service_yaml : Yaml Text
  pub ingress_yaml : Yaml Text
  pub service_api : ResourceApi KubeService
  pub ingress_api : ResourceApi Ingress

unfoldable pub ensure_services_are_up_to_date : NetworkingApi → StagingSite → Run KubeService
unfolding wanted_service ensure_objects
ensure_services_are_up_to_date api site =
    ensure_objects service_of_service unrevised api.service_api site.status.enabled
      (wanted_service api.service_yaml api.service_api site) site.spec.services

unfoldable pub ensure_ingresses_are_up_to_date : NetworkingApi → StagingSite → Run Ingress
unfolding wanted_ingress ensure_objects
ensure_ingresses_are_up_to_date api site =
    ensure_objects service_of_ingress unrevised api.ingress_api site.status.enabled
      (wanted_ingress api.ingress_yaml api.ingress_api site) site.spec.services

pub record Networked : Type 0 where
  pub site : StagingSite
  pub service_writes : List (Write KubeService)
  pub ingress_writes : List (Write Ingress)
  pub answer : Result Bool

abbrev networked : StagingSite → Bool → List (Write KubeService) → Run Ingress → Networked
networked site complete writes run = elim (run.answer) [
  | err e ↦ record {
    site = site;
    service_writes = writes;
    ingress_writes = run.writes;
    answer = err e;
  }
  | ok complete' ↦
      let is_complete = complete && complete' in
      record {
        site = record site {
          status = record site.status { networking_objects_are_created = is_complete };
        };
        service_writes = writes;
        ingress_writes = run.writes;
        answer = ok (differs site.status.networking_objects_are_created is_complete);
      }
]

unfoldable pub ensure_networking_objects_are_up_to_date : NetworkingApi → StagingSite → Networked
unfolding ensure_services_are_up_to_date ensure_ingresses_are_up_to_date
ensure_networking_objects_are_up_to_date api site =
    let services = ensure_services_are_up_to_date api site in
    let ingresses = ensure_ingresses_are_up_to_date api site in
    elim (services.answer) [
      | err e ↦ record {
        site = site;
        service_writes = services.writes;
        ingress_writes = [];
        answer = err e;
      }
      | ok complete ↦ networked site complete services.writes ingresses
    ]
