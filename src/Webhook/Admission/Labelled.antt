-- ===== src/Webhook/Admission/Labelled.antt =====
-- What an admitted site is like: the services and the labels that `Handle` of
-- handlers/webhook/stagingsite.go gives it.
use kube_stager.Base.{
  Bool, true, false, ◌&&◌, ◌||◌, some, ◌++◌, Text, is_empty, Assoc, lookup, has_key, is_some, arith,
  ◌≡◌, refl, sym, subst, inl, inr, Option-cases, List-cases,
}
use kube_stager.Names.{slice_contains_string}
use kube_stager.Api.{
  StagingSite, StagingSiteService, mongo_environments_prefix, mysql_environments_prefix,
  redis_environments_prefix, services_prefix,
}
use kube_stager.Controller.{ok}
use kube_stager.Webhook.{patched, admitted, Verdict-cases}
use kube_stager.Webhook.Labels.{lookup-updated_apart, lookup-updated_named, carries, updated_labels}
use kube_stager.Webhook.Admission.{
  AdmissionApi, Environments, Admitted, has_mongo, has_mysql, has_redis, admit_services, labelled,
  admit_loaded, handle, started, load, include_all,
}
use kube_stager.Webhook.Admission.Checked.{
  is_noted, is_checked, is_settled, admit_services-is_settled,
}

-- No name, or a known one for which the site carries the label.
unfoldable pub is_known_and_labelled : (Text → Bool) → Text → StagingSite → Text → Bool
unfolding carries
is_known_and_labelled known prefix site name =
    is_empty name || (known name && carries (prefix ++ name) site)

abbrev pub IsAdmissible : Environments → StagingSite → Text → StagingSiteService → Type 0
IsAdmissible environments site name service =
    (is_some (lookup name environments.service_configs) ≡ true)
    × (is_empty service.image_tag ≡ false)
    × (is_empty service.db_init_source_environment_name ≡ false)
    × (is_known_and_labelled (has_mongo environments) mongo_environments_prefix site
          service.mongo_environment
        ≡ true)
    × (is_known_and_labelled (has_mysql environments) mysql_environments_prefix site
          service.mysql_environment
        ≡ true)
    × (is_known_and_labelled (has_redis environments) redis_environments_prefix site
          service.redis_environment
        ≡ true)
    × (is_known_and_labelled (λ _. true) services_prefix site name ≡ true)

-- The four updates of the labels do not touch each other's.
module _ (site : StagingSite) (done : Admitted) (value : Text) where
  carries_mongo :
      slice_contains_string done.used_mongo value ≡ true
      → is_empty value ≡ false
      → carries (mongo_environments_prefix ++ value) (labelled site done) ≡ true
  unfolding carries labelled
  carries_mongo h k =
      let label = mongo_environments_prefix ++ value in
      let l₁ = updated_labels mongo_environments_prefix done.used_mongo site.labels in
      let l₂ = updated_labels mysql_environments_prefix done.used_mysql l₁ in
      let l₃ = updated_labels redis_environments_prefix done.used_redis l₂ in
      ground (
        arith,
        lookup-updated_named mongo_environments_prefix done.used_mongo site.labels value h k,
        lookup-updated_apart mysql_environments_prefix done.used_mysql l₁ label refl,
        lookup-updated_apart redis_environments_prefix done.used_redis l₂ label refl,
        lookup-updated_apart services_prefix done.service_names l₃ label refl,
      )

  carries_mysql :
      slice_contains_string done.used_mysql value ≡ true
      → is_empty value ≡ false
      → carries (mysql_environments_prefix ++ value) (labelled site done) ≡ true
  unfolding carries labelled
  carries_mysql h k =
      let label = mysql_environments_prefix ++ value in
      let l₁ = updated_labels mongo_environments_prefix done.used_mongo site.labels in
      let l₂ = updated_labels mysql_environments_prefix done.used_mysql l₁ in
      let l₃ = updated_labels redis_environments_prefix done.used_redis l₂ in
      ground (
        arith,
        lookup-updated_named mysql_environments_prefix done.used_mysql l₁ value h k,
        lookup-updated_apart redis_environments_prefix done.used_redis l₂ label refl,
        lookup-updated_apart services_prefix done.service_names l₃ label refl,
      )

  carries_redis :
      slice_contains_string done.used_redis value ≡ true
      → is_empty value ≡ false
      → carries (redis_environments_prefix ++ value) (labelled site done) ≡ true
  unfolding carries labelled
  carries_redis h k =
      let label = redis_environments_prefix ++ value in
      let l₁ = updated_labels mongo_environments_prefix done.used_mongo site.labels in
      let l₂ = updated_labels mysql_environments_prefix done.used_mysql l₁ in
      let l₃ = updated_labels redis_environments_prefix done.used_redis l₂ in
      ground (
        arith,
        lookup-updated_named redis_environments_prefix done.used_redis l₂ value h k,
        lookup-updated_apart services_prefix done.service_names l₃ label refl,
      )

  carries_service :
      slice_contains_string done.service_names value ≡ true
      → is_empty value ≡ false
      → carries (services_prefix ++ value) (labelled site done) ≡ true
  unfolding carries labelled
  carries_service h k =
      let l₁ = updated_labels mongo_environments_prefix done.used_mongo site.labels in
      let l₂ = updated_labels mysql_environments_prefix done.used_mysql l₁ in
      let l₃ = updated_labels redis_environments_prefix done.used_redis l₂ in
      ground (arith, lookup-updated_named services_prefix done.service_names l₃ value h k)

checked-IsAdmissible :
    (environments : Environments) (site : StagingSite) (done : Admitted) (name : Text)
    (service : StagingSiteService)
    → is_checked environments done name service ≡ true
    → IsAdmissible environments (labelled site done) name service
unfolding is_checked is_noted is_known_and_labelled
checked-IsAdmissible environments site done name service h = (
  ground arith,
  ground arith,
  ground arith,
  ground (arith, carries_mongo site done service.mongo_environment),
  ground (arith, carries_mysql site done service.mysql_environment),
  ground (arith, carries_redis site done service.redis_environment),
  ground (arith, carries_service site done name),
)

-- What an accepted request has gone through.
admit_loaded-inverts :
    (api : AdmissionApi) (environments : Environments) (decoded site : StagingSite)
    → admit_loaded api environments decoded ≡ patched site
    → (done : Admitted) × (admit_services environments
          (include_all environments decoded).spec.services
          (started (include_all environments decoded).spec.services)
        ≡ admitted done)
      × (site ≡ labelled (include_all environments decoded) done)
unfolding admit_loaded
admit_loaded-inverts api environments decoded site h =
    let included = include_all environments decoded in
    elim (Verdict-cases
      (admit_services environments included.spec.services (started included.spec.services))) [
        | inr (t, e) ↦ ground (arith, List-cases included.spec.services)
        | inl (done, e) ↦ (
          done,
          e,
          ground (
            arith,
            List-cases included.spec.services,
            Option-cases (api.marshal (labelled included done)),
          ),
        )
      ]

-- The services of a site are settled at the end, whether the loop has come by them or the site
-- never had them.
admitted-is_settled :
    (environments : Environments) (services : Assoc StagingSiteService) (done : Admitted)
    → admit_services environments services (started services) ≡ admitted done
    → (name : Text) → is_settled environments done name ≡ true
unfolding is_settled has_key
admitted-is_settled environments services done h name =
    admit_services-is_settled environments services (started services) done h name
      (elim (Option-cases (lookup name services)) [
        | inl e ↦ inr (ground arith)
        | inr (s, e) ↦ inl (ground arith)
      ])

-- Where the webhook accepts a site, every service of the patched site has a config in the namespace,
-- an image tag and a source for its databases, each of its environments is none or one that exists,
-- and the site carries the labels that name the service and its environments.
pub admitted_service-IsAdmissible :
    (api : AdmissionApi) (environments : Environments) (decoded site : StagingSite) (name : Text)
    (service : StagingSiteService)
    → load api decoded.namespace ≡ ok environments
    → handle api (ok decoded) ≡ patched site
    → lookup name site.spec.services ≡ some service
    → IsAdmissible environments site name service
unfolding handle labelled is_settled
admitted_service-IsAdmissible api environments decoded site name service loaded h found =
    let (done, e, same) = admit_loaded-inverts api environments decoded site (ground arith) in
    let settled = admitted-is_settled environments _ done e name in
    let checked : is_checked environments done name service ≡ true = ground arith in
    subst (λ s. IsAdmissible environments s name service) (sym same)
      (checked-IsAdmissible environments (include_all environments decoded) done name service
        checked)
