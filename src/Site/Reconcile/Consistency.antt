-- ===== src/Site/Reconcile/Consistency.antt =====
-- What a reconciliation of a site writes.
use kube_stager.Base.{◌≡◌, inl, inr, true, none, some, arith, Option-cases}
use kube_stager.Api.{StagingSite, StagingSiteState}
use kube_stager.Controller.{done, requeue_now, Result-cases}
use kube_stager.Site.Status.{Updated}
use kube_stager.Site.Ensure.{ensure_status_is_up_to_date}
use kube_stager.Site.Saving.{SiteApi, with_state, reset_status_errors}
use kube_stager.Site.Saving.Consistency.{
  IsConsistent, WritesConsistent, save_site-WritesConsistent, IsSave-WritesConsistent,
}
use kube_stager.Site.Stages.{run_stages}
use kube_stager.Site.Stages.Saves.{run_stages-IsSave}
use kube_stager.Site.Reconcile.{
  append_finalizer, write_finalizers, remove_finalizer, back_up_and_remove, handle_delete,
  delete_expired, run_settled, settle, reconcile_site, do_reconcile,
}

handle_delete-WritesConsistent :
    (api : SiteApi) (site : StagingSite) → WritesConsistent (handle_delete api site)
unfolding handle_delete back_up_and_remove remove_finalizer write_finalizers
handle_delete-WritesConsistent api site w h = ground (
  arith,
  save_site-WritesConsistent api true (with_state site StagingSiteState.pending) requeue_now none w,
)

run_settled-WritesConsistent :
    (api : SiteApi) (site : StagingSite) → WritesConsistent (run_settled api site)
unfolding run_settled delete_expired
run_settled-WritesConsistent api site w h = ground (
  arith,
  IsSave-WritesConsistent api (run_stages api (reset_status_errors site))
      (run_stages-IsSave api (reset_status_errors site)) w,
)

settle-WritesConsistent :
    (api : SiteApi) (updated : Updated) → WritesConsistent (settle api updated)
unfolding settle
settle-WritesConsistent api updated w h = elim (Option-cases updated.error) [
  | inr (e, x) ↦
      ground (arith, save_site-WritesConsistent api updated.changed updated.site done (some e) w)
  | inl x ↦ ground (
    arith,
    save_site-WritesConsistent api true updated.site requeue_now none w,
    run_settled-WritesConsistent api updated.site w,
  )
]

reconcile_site-WritesConsistent :
    (api : SiteApi) (site : StagingSite) → WritesConsistent (reconcile_site api site)
unfolding reconcile_site append_finalizer write_finalizers
reconcile_site-WritesConsistent api site w h = ground (
  arith,
  handle_delete-WritesConsistent api site w,
  settle-WritesConsistent api (ensure_status_is_up_to_date api.status_api site) w,
)

-- The status that a reconciliation writes is failed; or complete, where every part of the site is
-- created and the site is not being deleted; or pending, with an incomplete health, where that is not
-- so.
pub written-IsConsistent :
    (api : SiteApi) (w : StagingSite) → (do_reconcile api).status_written ≡ some w → IsConsistent w
unfolding do_reconcile
written-IsConsistent api w h = elim (Result-cases api.get_site) [
  | inl (site, e) ↦ ground (arith, reconcile_site-WritesConsistent api site w)
  | inr (x, e) ↦ ground arith
]
