-- ===== src/Resources/Workloads/Ready.antt =====
-- What `EnsureWorkloadObjectsAreUpToDate` of handlers/site/workload_handler.go brings about.
use kube_stager.Base.{
  Bool, true, false, ◌&&◌, Option, none, some, List, [], ◌∷◌, Text, text_eq, remove, All, Assoc,
  lookup, lookup-remove, AreUnique, eq_ℤ, arith, ◌≡◌, refl, inl, inr, ap, ◌∙◌, sym, Bool-cases,
  Option-cases,
}
use kube_stager.Api.{StagingSite, PodSpec, Deployment}
use kube_stager.Controller.{ok, Result-cases}
use kube_stager.Templates.{Yaml}
use kube_stager.Sync.{Run, note_existing, note_all, changes_from, expected_from, ensure_created}
use kube_stager.Sync.Compared.{AreDistinct}
use kube_stager.Sync.Desired.{IsDesired}
use kube_stager.Resources.{ResourceApi, change_objects, ensure_objects, write_changes}
use kube_stager.Resources.Desired.{enabled_services, ensure_objects-IsDesired}
use kube_stager.Resources.Workloads.{
  wanted_deployment, deployment_service, revised, WorkloadPass, note_deployment, note_deployments,
  started, health_of, compare_deployments, ensure_deployments_are_up_to_date,
  ensure_workload_objects_are_up_to_date, update_deployment_from_other,
}

note_deployments-changes :
    (list : List Deployment) (pass : WorkloadPass)
    → (note_deployments list pass).changes ≡ note_all deployment_service revised list pass.changes
unfolding note_deployments note_all note_deployment
note_deployments-changes [] pass = refl
note_deployments-changes (d ∷ list) pass =
    elim (Option-cases (lookup (deployment_service d) pass.changes.to_create)) [
      | inl e ↦ ground (arith, note_deployments-changes list (note_deployment d pass))
      | inr (x, e) ↦ ground (arith, note_deployments-changes list (note_deployment d pass))
    ]

module _ (pod_yaml : Yaml PodSpec) (api : ResourceApi Deployment) (site : StagingSite)
    (list : List Deployment) where
  ensured_run :
      (ensure_deployments_are_up_to_date pod_yaml api site).1
      ≡ ensure_objects deployment_service revised api site.status.enabled
          (wanted_deployment pod_yaml api site)
          site.spec.services
  unfolding ensure_deployments_are_up_to_date ensure_objects ensure_created compare_deployments
      change_objects changes_from
  ensured_run = elim (Result-cases api.list_for_site) [
    | inr (x, e) ↦ ground arith
    | inl (found, e) ↦ elim (Bool-cases site.status.enabled) [
      | inr off ↦ ground arith
      | inl on ↦
          elim (Result-cases
            (expected_from (wanted_deployment pod_yaml api site) site.spec.services [])) [
              | inr (x, e') ↦ ground arith
              | inl (expected, e') ↦
                  ground (arith, note_deployments-changes found (started site expected))
            ]
    ]
  ]

  -- A run of the workload handler that returns no error leaves for each service of an enabled site
  -- exactly the deployment that the site asks for: an existing one with its own name, and the labels,
  -- the replicas and the pod of the wanted one, and else a new one. Where the site does not have the
  -- service, and where the site is disabled, none is left.
  pub deployments-AreDesired :
      (changed : Bool) (s : Text)
      → api.list_for_site ≡ ok list
      → AreUnique site.spec.services
      → AreDistinct deployment_service list
      → (ensure_workload_objects_are_up_to_date pod_yaml api site).answer ≡ ok changed
      → let ensured = ensure_workload_objects_are_up_to_date pod_yaml api site in
        IsDesired deployment_service revised
          (wanted_deployment pod_yaml api site)
          (enabled_services site.status.enabled site.spec.services)
          list
          (record { writes = ensured.writes; answer = ensured.answer })
          s
  unfolding ensure_workload_objects_are_up_to_date
  deployments-AreDesired changed s listed unique distinct h =
      let run = (ensure_deployments_are_up_to_date pod_yaml api site).1 in
      elim (Result-cases run.answer) [
        | inr (x, e) ↦ ground arith
        | inl (complete, e) ↦
            let (object, asked, left) =
              ensure_objects-IsDesired deployment_service revised api
                (wanted_deployment pod_yaml api site) list site.status.enabled site.spec.services
                complete s listed unique distinct
                (ap (λ (r : Run Deployment). r.answer) (sym ensured_run) ∙ e) in
            (object, asked, ground (arith, left, ensured_run))
      ]

module _ where
  abbrev pub is_ready : Option Deployment → Deployment → Bool
  is_ready none existing = true
  is_ready (some wanted) existing = eq_ℤ wanted.replicas existing.ready_replicas

  -- Whether each existing deployment that is expected has as many ready replicas as it is to have.
  unfoldable pub all_ready : Assoc Deployment → List Deployment → Bool
  all_ready expected [] = true
  all_ready expected (existing ∷ list) =
      is_ready (lookup (deployment_service existing) expected) existing && all_ready expected list

  all_ready-remove :
      (service : Text) (expected : Assoc Deployment) (list : List Deployment)
      → All (λ other. text_eq service (deployment_service other) ≡ false) list
      → all_ready (remove service expected) list ≡ all_ready expected list
  unfolding all_ready
  all_ready-remove service expected [] h = refl
  all_ready-remove service expected (existing ∷ list) h =
      let key = deployment_service existing in
      let same = lookup-remove service key expected ∙ rw (h.0) refl in
      ap (λ found. is_ready found existing && all_ready (remove service expected) list) same
      ∙ ap (λ rest. is_ready (lookup key expected) existing && rest)
          (all_ready-remove service expected list h.1)

  note_deployments-healthy :
      (list : List Deployment) (pass : WorkloadPass)
      → AreDistinct deployment_service list
      → (note_deployments list pass).healthy ≡ pass.healthy && all_ready pass.changes.to_create list
  unfolding note_deployments note_deployment all_ready note_existing update_deployment_from_other
  note_deployments-healthy [] pass distinct = ground arith
  note_deployments-healthy (d ∷ list) pass distinct =
      let rest = note_deployments-healthy list (note_deployment d pass) distinct.1 in
      elim (Option-cases (lookup (deployment_service d) pass.changes.to_create)) [
        | inl e ↦ ground (arith, rest)
        | inr (wanted, e) ↦ ground (
          arith,
          rest,
          all_ready-remove (deployment_service d) pass.changes.to_create list distinct.0,
        )
      ]

module _ (pod_yaml : Yaml PodSpec) (api : ResourceApi Deployment) (site : StagingSite)
    (list : List Deployment) where
  -- For an enabled site whose deployments can be made from its configs, the handler says that the
  -- workloads are healthy exactly where each existing deployment of a service of the site has as many
  -- ready replicas as the site now asks for. A deployment that is only created in this run does not
  -- count, and neither does the success of the writes.
  pub health_is_readiness :
      (expected : Assoc Deployment)
      → api.list_for_site ≡ ok list
      → site.status.enabled ≡ true
      → expected_from (wanted_deployment pod_yaml api site) site.spec.services [] ≡ ok expected
      → AreDistinct deployment_service list
      → (ensure_workload_objects_are_up_to_date pod_yaml api site).site.status.workload_health
        ≡ health_of (all_ready expected list)
  unfolding ensure_workload_objects_are_up_to_date ensure_deployments_are_up_to_date
      compare_deployments
  health_is_readiness expected listed on made distinct =
      let pass = note_deployments list (started site expected) in
      let run = write_changes deployment_service api.accepts pass.changes in
      elim (Result-cases run.answer) [
        | inl (complete, e) ↦
            ground (arith, note_deployments-healthy list (started site expected) distinct)
        | inr (x, e) ↦
            ground (arith, note_deployments-healthy list (started site expected) distinct)
      ]
