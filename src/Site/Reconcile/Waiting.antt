-- ===== src/Site/Reconcile/Waiting.antt =====
-- The order of a reconciliation: what waits for what.
use kube_stager.Base.{◌≡◌, inl, inr, true, none, some, arith, Option-cases}
use kube_stager.Api.{StagingSite, StagingSiteState}
use kube_stager.Controller.{done, requeue_now, Result-cases}
use kube_stager.Site.Status.{Updated}
use kube_stager.Site.Ensure.{ensure_status_is_up_to_date}
use kube_stager.Site.Saving.{SiteApi, Handler, reset_status_errors, with_state}
use kube_stager.Site.Saving.Consistency.{save_site-with_handlers}
use kube_stager.Site.Stages.Gates.{IsIncomplete, other, run_stages-same, with_objects}
use kube_stager.Site.Reconcile.{
  append_finalizer, write_finalizers, run_settled, settle, reconcile_site, do_reconcile,
  back_up_and_remove, remove_finalizer, delete_expired, handle_delete,
}

module _ (api : SiteApi) (workloads networking : Handler)
    (incomplete : IsIncomplete api.migration_jobs_complete) where
  handle_delete-same :
      (site : StagingSite)
      → handle_delete (other api workloads networking) site ≡ handle_delete api site
  unfolding handle_delete back_up_and_remove remove_finalizer write_finalizers
  handle_delete-same site = ground (
    arith,
    save_site-with_handlers api (with_objects api.handlers workloads networking) true
        (with_state site StagingSiteState.pending) requeue_now none,
  )

  settle-same :
      (updated : Updated) → settle (other api workloads networking) updated ≡ settle api updated
  unfolding settle run_settled delete_expired
  settle-same updated = elim (Option-cases updated.error) [
    | inr (e, x) ↦ ground (
      arith,
      save_site-with_handlers api (with_objects api.handlers workloads networking) updated.changed
          updated.site done (some e),
    )
    | inl x ↦ ground (
      arith,
      save_site-with_handlers api (with_objects api.handlers workloads networking) true updated.site
          requeue_now none,
      run_stages-same api workloads networking incomplete (reset_status_errors updated.site),
    )
  ]

  -- While the migration jobs are never found complete, a reconciliation is the same with any other
  -- handlers of the workloads and of the networking objects.
  pub workloads_wait_for_migrations :
      do_reconcile (other api workloads networking) ≡ do_reconcile api
  unfolding do_reconcile reconcile_site append_finalizer write_finalizers
  workloads_wait_for_migrations = elim (Result-cases api.get_site) [
    | inl (site, e) ↦ ground (
      arith,
      handle_delete-same site,
      settle-same (ensure_status_is_up_to_date api.status_api site),
    )
    | inr (x, e) ↦ ground arith
  ]
