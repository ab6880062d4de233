-- ===== src/Resources/Networking/Reached.antt =====
-- What `EnsureNetworkingObjectsAreUpToDate` of handlers/site/networking_handler.go brings about.
use kube_stager.Base.{
  Bool, List, Text, AreUnique, arith, ◌≡◌, inl, inr, Option, none, some, first_of, refl, ap, ◌∙◌,
  lookup,
}
use kube_stager.Api.{StagingSiteService, StagingSite, KubeService, Ingress}
use kube_stager.Controller.{Result, ok, Result-cases}
use kube_stager.Sync.Compared.{find_service, AreDistinct}
use kube_stager.Sync.{Write}
use kube_stager.Sync.Expected.{desired_of}
use kube_stager.Sync.Refined.{stored, target}
use kube_stager.Resources.Desired.{enabled_services, ensure_objects-IsDesired}
use kube_stager.Resources.Networking.{
  NetworkingApi, wanted_service, wanted_ingress, service_of_service, service_of_ingress, unrevised,
  ensure_services_are_up_to_date, ensure_ingresses_are_up_to_date,
  ensure_networking_objects_are_up_to_date,
}

module _ (api : NetworkingApi) (site : StagingSite) where
  -- A run without an error consists of the runs for services and for ingresses, both without one.
  ensured_both :
      (changed : Bool)
      → (ensure_networking_objects_are_up_to_date api site).answer ≡ ok changed
      → (complete complete' : Bool) × ((ensure_services_are_up_to_date api site).answer
          ≡ ok complete)
        × ((ensure_ingresses_are_up_to_date api site).answer ≡ ok complete')
        × ((ensure_networking_objects_are_up_to_date api site).service_writes
            ≡ (ensure_services_are_up_to_date api site).writes)
        × ((ensure_networking_objects_are_up_to_date api site).ingress_writes
            ≡ (ensure_ingresses_are_up_to_date api site).writes)
  unfolding ensure_networking_objects_are_up_to_date
  ensured_both changed h = elim (Result-cases (ensure_services_are_up_to_date api site).answer) [
    | inr (x, e) ↦ ground arith
    | inl (complete, e) ↦ elim (Result-cases (ensure_ingresses_are_up_to_date api site).answer) [
      | inr (x, e') ↦ ground arith
      | inl (complete', e') ↦ (complete, complete', e, e', ground arith, ground arith)
    ]
  ]

  -- What is left of an existing object and the one that is asked for: the existing one as it is, and
  -- else the new one.
  abbrev pub kept_or_new : {O : Type 0} → Option O → Option O → Option O
  kept_or_new existing none = none
  kept_or_new existing (some new) = first_of existing (some new)

  kept_or_new-target :
      {O : Type 0} (key_of : O → Text) (existing asked : Option O)
      → target key_of unrevised existing asked ≡ kept_or_new existing asked
  kept_or_new-target key_of none none = refl
  kept_or_new-target key_of none (some new) = refl
  kept_or_new-target key_of (some old) none = refl
  kept_or_new-target key_of (some old) (some new) = refl

  -- For a service the writes leave no object where none is asked for, the existing one where there is
  -- one, and else the one that is asked for.
  abbrev pub IsFilled :
      {O : Type 0}
      → (O → Text)
      → (Text → StagingSiteService → Result (Option O))
      → List O
      → List (Write O)
      → Text
      → Type 0
  IsFilled {O} key_of wanted list writes s =
      (object : Option O) × (desired_of wanted s
          (lookup s (enabled_services site.status.enabled site.spec.services))
        ≡ ok object)
      × (stored writes (find_service key_of list) s
          ≡ kept_or_new (find_service key_of list s) object)

  module _ (services : List KubeService) (ingresses : List Ingress) where
    -- A run of the networking handler that returns no error leaves no service and no ingress for a
    -- service of which the config asks for none, which the site does not have, or of a disabled site.
    -- Where one is asked for, an existing one is left as it is, whatever the config now says of it; only
    -- where there is none, the one that the config asks for is created. The site has each service
    -- once, and no two of the listed services, nor of the listed ingresses, are of one service.
    pub missing_objects_are_created :
        (changed : Bool) (s : Text)
        → api.service_api.list_for_site ≡ ok services
        → api.ingress_api.list_for_site ≡ ok ingresses
        → AreUnique site.spec.services
        → AreDistinct service_of_service services
        → AreDistinct service_of_ingress ingresses
        → (ensure_networking_objects_are_up_to_date api site).answer ≡ ok changed
        → IsFilled service_of_service
            (wanted_service api.service_yaml api.service_api site)
            services
            (ensure_networking_objects_are_up_to_date api site).service_writes
            s
          × IsFilled service_of_ingress
              (wanted_ingress api.ingress_yaml api.ingress_api site)
              ingresses
              (ensure_networking_objects_are_up_to_date api site).ingress_writes
              s
    unfolding ensure_services_are_up_to_date ensure_ingresses_are_up_to_date
    missing_objects_are_created changed s listed listed' unique distinct distinct' h =
        let (complete, complete', e, e', w, w') = ensured_both changed h in
        let (service, asked, left) =
          ensure_objects-IsDesired service_of_service unrevised api.service_api
            (wanted_service api.service_yaml api.service_api site) services site.status.enabled
            site.spec.services complete s listed unique distinct e in
        let (ingress, asked', left') =
          ensure_objects-IsDesired service_of_ingress unrevised api.ingress_api
            (wanted_ingress api.ingress_yaml api.ingress_api site) ingresses site.status.enabled
            site.spec.services complete' s listed' unique distinct' e' in
        (
          (
            service,
            asked,
            ap (λ writes. stored writes (find_service service_of_service services) s) w
                ∙ (left
                    ∙ kept_or_new-target service_of_service
                        (find_service service_of_service services s) service),
          ),
          (
            ingress,
            asked',
            ap (λ writes. stored writes (find_service service_of_ingress ingresses) s) w'
                ∙ (left'
                    ∙ kept_or_new-target service_of_ingress
                        (find_service service_of_ingress ingresses s) ingress),
          ),
        )
