-- ===== src/Resources/Workloads.antt =====
-- handlers/site/workload_handler.go.
pub mod Ready
use kube_stager.Base.{
  Bool, true, false, ◌&&◌, ◌||◌, not, Option, none, some, List, [], ◌∷◌, Text, ℤ, pos, eq_ℤ, ltb_ℤ,
  Assoc, lookup, insert, if◌then◌else◌,
}
use kube_stager.Names.{make_deployment_name}
use kube_stager.Api.{
  StagingSite, StagingSiteService, StagingSiteServiceStatus, status_or_zero, WorkloadHealth,
  ServiceConfig, PodSpec, Deployment, service_label,
}
use kube_stager.Controller.{Result, ok, err, ◌>>=◌}
use kube_stager.Templates.{Yaml, replace_template_variables_in_pod_spec}
use kube_stager.Pods.{
  service_of_config, set_extra_env_vars_on_pod_spec, update_pod_spec_with_overrides,
}
use kube_stager.Sync.{Run, Changes, note_existing, expected_from, no_run}
use kube_stager.Resources.{
  ResourceApi, Ensured, differs, loaded_values, object_labels, object_meta, write_changes,
  delete_each,
}

-- The number of replicas is an int32.
abbrev pub at_least_one : ℤ → ℤ
at_least_one replicas = if ltb_ℤ replicas (pos 1) then pos 1 else replicas

new_deployment : (Text → Text) → StagingSite → ServiceConfig → PodSpec → Deployment
unfolding make_deployment_name set_extra_env_vars_on_pod_spec update_pod_spec_with_overrides
new_deployment md5_base36 site config spec =
    let labels = object_labels site config in
    record {
      meta = object_meta (make_deployment_name md5_base36 site config) site labels [];
      replicas = at_least_one (service_of_config site config).replicas;
      selector = labels;
      template_labels = labels;
      template_spec =
          set_extra_env_vars_on_pod_spec (update_pod_spec_with_overrides spec site config) site
            config;
      ready_replicas = pos 0;
    }

module _ (pod_yaml : Yaml PodSpec) (api : ResourceApi Deployment) where
  unfoldable pub create_deployment : StagingSite → ServiceConfig → Result Deployment
  unfolding loaded_values replace_template_variables_in_pod_spec new_deployment
  create_deployment site config = loaded_values api.md5_base36 api.reader site config >>= λ values.
      replace_template_variables_in_pod_spec pod_yaml config.spec.deployment_pod_spec (values ∷ [])
      >>= λ spec. api.set_controller_reference (new_deployment api.md5_base36 site config spec)

  unfoldable pub wanted_deployment :
      StagingSite → Text → StagingSiteService → Result (Option Deployment)
  unfolding create_deployment
  wanted_deployment site name service = api.get_service_config name >>= λ config.
      create_deployment site config >>= λ deployment. ok (some deployment)

abbrev pub deployment_service : Deployment → Text
deployment_service deployment = service_label deployment.meta

-- `a` is the existing deployment.
unfoldable pub update_deployment_from_other : Deployment → Deployment → Deployment
update_deployment_from_other a b = record a {
  meta = record a.meta { labels = b.meta.labels };
  template_labels = b.template_labels;
  template_spec = b.template_spec;
  replicas = b.replicas;
}

-- Each existing deployment that is expected is patched.
abbrev pub revised : Deployment → Deployment → Option Deployment
unfolding update_deployment_from_other
revised existing expected = some (update_deployment_from_other existing expected)

-- What the loop over the existing deployments changes.
pub record WorkloadPass : Type 0 where
  pub changes : Changes Deployment
  pub services : Assoc StagingSiteServiceStatus
  pub healthy : Bool

abbrev pub with_deployment_status :
    Deployment → Assoc StagingSiteServiceStatus → Assoc StagingSiteServiceStatus
with_deployment_status existing services =
    insert (deployment_service existing)
      (record (status_or_zero (lookup (deployment_service existing) services)) {
        ready_replicas = existing.ready_replicas;
      })
      services

unfoldable pub note_deployment : Deployment → WorkloadPass → WorkloadPass
unfolding note_existing revised insert
note_deployment existing pass =
    let changes = note_existing deployment_service revised existing pass.changes in
    elim (lookup (deployment_service existing) pass.changes.to_create) [
      | none ↦ record pass { changes = changes }
      | some expected ↦ record {
        changes = changes;
        services = with_deployment_status existing pass.services;
        healthy =
            pass.healthy
            && eq_ℤ (update_deployment_from_other existing expected).replicas
                existing.ready_replicas;
      }
    ]

unfoldable pub note_deployments : List Deployment → WorkloadPass → WorkloadPass
unfolding note_deployment
note_deployments [] pass = pass
note_deployments (existing ∷ list) pass = note_deployments list (note_deployment existing pass)

abbrev pub started : StagingSite → Assoc Deployment → WorkloadPass
started site expected = record {
  changes = record { to_delete = []; to_update = []; to_create = expected };
  services = site.status.services;
  healthy = true;
}

abbrev pub health_of : Bool → WorkloadHealth
health_of true = WorkloadHealth.healthy
health_of false = WorkloadHealth.unhealthy

abbrev with_pass : StagingSite → WorkloadPass → StagingSite
with_pass site pass = record site {
  status = record site.status {
    services = pass.services;
    workload_health = health_of pass.healthy;
  };
}

-- `!=` of healths.
abbrev health_differs : WorkloadHealth → WorkloadHealth → Bool
health_differs WorkloadHealth.unset WorkloadHealth.unset = false
health_differs WorkloadHealth.healthy WorkloadHealth.healthy = false
health_differs WorkloadHealth.unhealthy WorkloadHealth.unhealthy = false
health_differs WorkloadHealth.incomplete WorkloadHealth.incomplete = false
health_differs _ _ = true

abbrev ensured : StagingSite → StagingSite → Run Deployment → Ensured Deployment
ensured before site run = elim (run.answer) [
  | err e ↦ record { site = site; writes = run.writes; answer = err e }
  | ok complete ↦ record {
    site = record site { status = record site.status { workloads_are_created = complete } };
    writes = run.writes;
    answer = ok (
        differs before.status.workloads_are_created complete
        || health_differs site.status.workload_health before.status.workload_health);
  }
]

module _ (pod_yaml : Yaml PodSpec) (api : ResourceApi Deployment) where
  unfoldable pub compare_deployments :
      StagingSite → List Deployment → Result (Assoc Deployment) → StagingSite × Run Deployment
  unfolding note_deployments write_changes
  compare_deployments site list (err e) = (site, no_run e)
  compare_deployments site list (ok expected) =
      let pass = note_deployments list (started site expected) in
      (with_pass site pass, write_changes deployment_service api.accepts pass.changes)

  unfoldable pub ensure_deployments_are_up_to_date : StagingSite → StagingSite × Run Deployment
  unfolding wanted_deployment expected_from delete_each compare_deployments
  ensure_deployments_are_up_to_date site = elim (api.list_for_site) [
    | err e ↦ (site, no_run e)
    | ok list ↦ elim (site.status.enabled) [
      | false ↦ (site, delete_each deployment_service api.accepts list)
      | true ↦
          compare_deployments site list
            (expected_from (wanted_deployment pod_yaml api site) site.spec.services [])
    ]
  ]

  unfoldable pub ensure_workload_objects_are_up_to_date : StagingSite → Ensured Deployment
  unfolding ensure_deployments_are_up_to_date
  ensure_workload_objects_are_up_to_date site =
      let (changed, run) = ensure_deployments_are_up_to_date site in ensured site changed run
