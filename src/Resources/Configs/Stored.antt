-- ===== src/Resources/Configs/Stored.antt =====
-- What `EnsureConfigsAreUpToDate` of handlers/site/config_handler.go brings about.
use kube_stager.Base.{
  Bool, false, Option, List, [], Text, All, lookup, AreUnique, arith, ◌≡◌, inl, inr, Option-cases,
}
use kube_stager.Api.{StagingSite, StagingSiteService, ConfigMap}
use kube_stager.Controller.{ok, Result-cases}
use kube_stager.Sync.Compared.{find_service, AreDistinct}
use kube_stager.Sync.Refined.{stored, target}
use kube_stager.Resources.{ResourceApi, change_objects}
use kube_stager.Resources.Desired.{change_objects-target}
use kube_stager.Resources.Configs.{
  make_configmap_key, key_of, revised_config_map, expected_config_maps,
  ensure_configmaps_are_up_to_date, ensure_configs_are_up_to_date,
}
use kube_stager.Resources.Configs.Expected.{
  has_dot, asked, AreNamed, expected_config_maps-asked, expected_config_maps-AreUnique,
}

module _ (api : ResourceApi ConfigMap) (site : StagingSite) (list : List ConfigMap) where
  -- A run of the config handler that returns no error leaves, for each service without a dot in its
  -- name and each type, exactly the config map that the service asks for: an existing one with the data
  -- of the wanted one, and else a new one; none where the service asks for none or is not in the site.
  -- The services of the site have no dots in their names either, and no two of the existing config
  -- maps have the same service and type.
  pub config_maps-AreStored :
      (changed : Bool) (s t : Text)
      → api.list_for_site ≡ ok list
      → AreNamed api site
      → has_dot s ≡ false
      → All (λ (entry : Text × StagingSiteService). has_dot entry.0 ≡ false) site.spec.services
      → AreUnique site.spec.services
      → AreDistinct key_of list
      → (ensure_configs_are_up_to_date api site).answer ≡ ok changed
      → (object : Option ConfigMap) × (asked api site s t (lookup s site.spec.services) ≡ ok object)
        × (stored
              (ensure_configs_are_up_to_date api site).writes
              (find_service key_of list)
              (make_configmap_key s t)
            ≡ target key_of revised_config_map
                (find_service key_of list (make_configmap_key s t))
                object)
  unfolding ensure_configs_are_up_to_date ensure_configmaps_are_up_to_date
  config_maps-AreStored changed s t listed named dotless all unique distinct h =
      let key = make_configmap_key s t in
      elim (Result-cases (expected_config_maps api site site.spec.services [])) [
        | inr (x, e) ↦ ground arith
        | inl (expected, e) ↦
            let (object, asks, found) =
              expected_config_maps-asked api site s t site.spec.services [] expected named dotless
                all unique e in
            let run = change_objects key_of api.accepts revised_config_map list expected in
            elim (Result-cases run.answer) [
              | inr (x, e') ↦ ground arith
              | inl (complete, e') ↦
                  let reached =
                    change_objects-target key_of revised_config_map api.accepts list expected
                      complete key distinct
                      (expected_config_maps-AreUnique api site site.spec.services [] expected e tt)
                      e' in
                  (object, asks, ground (arith, reached, found, Option-cases object))
            ]
      ]
