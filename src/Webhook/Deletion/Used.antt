-- ===== src/Webhook/Deletion/Used.antt =====
-- What the webhooks on deletion keep for the sites that the webhook on sites has admitted.
use kube_stager.Base.{
  Bool, true, false, ◌||◌, List, ◌++◌, Text, is_empty, Among, lookup, arith, ◌≡◌, some, inl, inr,
  List-cases,
}
use kube_stager.Api.{StagingSite, StagingSiteService, services_prefix}
use kube_stager.Controller.{ok, Result-cases}
use kube_stager.Webhook.{Response, allowed, patched, denied, errored}
use kube_stager.Webhook.Labels.{carries}
use kube_stager.Webhook.Admission.{AdmissionApi, Environments, load, handle}
use kube_stager.Webhook.Admission.Labelled.{
  is_known_and_labelled, IsAdmissible, admitted_service-IsAdmissible,
}
use kube_stager.Webhook.Deletion.{
  DeletionApi, environment_delete, mysql_config_delete, mongo_config_delete, redis_config_delete,
  service_config_delete,
}

-- The API server lists the site for every label that it carries.
abbrev pub ListsSite : DeletionApi → StagingSite → Type 0
ListsSite api site =
    (label : Text) (list : List StagingSite)
    → api.list_sites site.namespace label ≡ ok list
    → carries label site ≡ true
    → Among site list

abbrev pub is_allowed {ℓ} : {A : Type ℓ} → Response A → Bool
is_allowed allowed = true
is_allowed (patched _) = true
is_allowed (denied _) = false
is_allowed (errored _ _) = false

abbrev is_not_allowed {ℓ} : {A : Type ℓ} → Response A → Bool
is_not_allowed response = elim (is_allowed response) [ true ↦ false | false ↦ true ]

-- No request to delete the configs that a service of the site names is allowed.
abbrev pub IsKept : DeletionApi → StagingSite → Text → StagingSiteService → Type 0
IsKept api site name service =
    ((is_empty service.mongo_environment
        || is_not_allowed (mongo_config_delete api site.namespace service.mongo_environment))
      ≡ true)
    × ((is_empty service.mysql_environment
          || is_not_allowed (mysql_config_delete api site.namespace service.mysql_environment))
        ≡ true)
    × ((is_empty service.redis_environment
          || is_not_allowed (redis_config_delete api site.namespace service.redis_environment))
        ≡ true)
    × ((is_empty name || is_not_allowed (service_config_delete api site.namespace name)) ≡ true)

module _ (api : DeletionApi) (site : StagingSite) (lists : ListsSite api site) where
  environment_delete-is_refused :
      (prefix index name : Text)
      → carries (prefix ++ name) site ≡ true
      → is_allowed (environment_delete prefix index api site.namespace name) ≡ false
  unfolding environment_delete
  environment_delete-is_refused prefix index name h =
      elim (Result-cases (api.list_sites site.namespace (prefix ++ name))) [
        | inr (x, e) ↦ ground arith
        | inl (list, e) ↦ ground (arith, List-cases list, lists (prefix ++ name) list e h)
      ]

  service_config_delete-is_refused :
      (name : Text)
      → carries (services_prefix ++ name) site ≡ true
      → is_allowed (service_config_delete api site.namespace name) ≡ false
  unfolding service_config_delete
  service_config_delete-is_refused name h =
      elim (Result-cases (api.list_sites site.namespace (services_prefix ++ name))) [
        | inr (x, e) ↦ ground arith
        | inl (list, e) ↦ ground (arith, List-cases list, lists (services_prefix ++ name) list e h)
      ]

  labelled-is_refused :
      (known : Text → Bool) (prefix index name : Text)
      → is_known_and_labelled known prefix site name ≡ true
      → (is_empty name || is_not_allowed (environment_delete prefix index api site.namespace name))
        ≡ true
  unfolding is_known_and_labelled
  labelled-is_refused known prefix index name h =
      ground (arith, environment_delete-is_refused prefix index name)

  named-is_refused :
      (name : Text)
      → is_known_and_labelled (λ _. true) services_prefix site name ≡ true
      → (is_empty name || is_not_allowed (service_config_delete api site.namespace name)) ≡ true
  unfolding is_known_and_labelled
  named-is_refused name h = ground (arith, service_config_delete-is_refused name)

  admissible-IsKept :
      (environments : Environments) (name : Text) (service : StagingSiteService)
      → IsAdmissible environments site name service
      → IsKept api site name service
  unfolding mysql_config_delete mongo_config_delete redis_config_delete
  admissible-IsKept environments name service
        (configured, tagged, sourced, mongo, mysql, redis, named) =
      (
        labelled-is_refused _ _ _ _ mongo,
        labelled-is_refused _ _ _ _ mysql,
        labelled-is_refused _ _ _ _ redis,
        named-is_refused name named,
      )

-- While a site that the webhook has accepted is stored, and the API server lists it for the labels
-- that it carries, no request is allowed to delete the config of one of its services or an
-- environment that one of them uses.
pub used_configs-IsKept :
    (admission : AdmissionApi) (environments : Environments) (decoded site : StagingSite)
    (name : Text) (service : StagingSiteService) (api : DeletionApi)
    → ListsSite api site
    → load admission decoded.namespace ≡ ok environments
    → handle admission (ok decoded) ≡ patched site
    → lookup name site.spec.services ≡ some service
    → IsKept api site name service
used_configs-IsKept admission environments decoded site name service api lists loaded h found =
    admissible-IsKept api site lists environments name service (
      admitted_service-IsAdmissible admission environments decoded site name service loaded h found)
