-- ===== src/Site/Reconcile/Window.antt =====
-- A site with a negative hour of the daily backup window.
use kube_stager.Base.{◌≡◌, inl, inr, true, none, some, arith, Option-cases, ℕ, negsuc}
use kube_stager.Api.{StagingSite}
use kube_stager.Controller.{done, requeue_now, ok}
use kube_stager.Site.Status.{Updated}
use kube_stager.Site.Ensure.{ensure_status_is_up_to_date}
use kube_stager.Site.Ensure.Window.{IsUnsettled, negative_hour_never_settles}
use kube_stager.Site.Saving.{SiteApi, Handlers}
use kube_stager.Site.Saving.Consistency.{with_handlers, save_site-with_handlers}
use kube_stager.Site.Reconcile.{
  append_finalizer, write_finalizers, settle, reconcile_site, do_reconcile,
}

settle-with_handlers :
    (api : SiteApi) (handlers : Handlers) (updated : Updated)
    → IsUnsettled updated
    → settle (with_handlers api handlers) updated ≡ settle api updated
unfolding settle
settle-with_handlers api handlers updated unsettled = elim (Option-cases updated.error) [
  | inr (e, x) ↦
      ground
        (arith, save_site-with_handlers api handlers updated.changed updated.site done (some e))
  | inl x ↦ ground (arith, save_site-with_handlers api handlers true updated.site requeue_now none)
]

-- The reconciliation of a site with a negative hour of the backup window, which is not being deleted,
-- is the same whatever the handlers of databases, jobs and objects do.
pub negative_hour_is_never_provisioned :
    (api : SiteApi) (handlers : Handlers) (site : StagingSite) (n : ℕ)
    → api.get_site ≡ ok site
    → site.deletion_timestamp ≡ none
    → site.spec.daily_backup_window_hour ≡ some (negsuc n)
    → do_reconcile (with_handlers api handlers) ≡ do_reconcile api
unfolding do_reconcile reconcile_site append_finalizer write_finalizers
negative_hour_is_never_provisioned api handlers site n got alive h = ground (
  arith,
  settle-with_handlers api handlers (ensure_status_is_up_to_date api.status_api site)
      (negative_hour_never_settles api.status_api site n h),
)
