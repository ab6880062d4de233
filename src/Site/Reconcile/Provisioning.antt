-- ===== src/Site/Reconcile/Provisioning.antt =====
-- How `doReconcile` of controllers/site/stagingsite_controller.go ends for a site that has all its
-- parts.
use kube_stager.Base.{◌≡◌, true, false, none, arith}
use kube_stager.Api.{StagingSite, StagingSiteState}
use kube_stager.Controller.{ok}
use kube_stager.Site.Schedule.{is_due}
use kube_stager.Site.Ensure.{ensure_status_is_up_to_date}
use kube_stager.Site.Saving.{SiteApi, reset_status_errors}
use kube_stager.Site.Stages.{run_stages}
use kube_stager.Site.Reconcile.{has_finalizer, do_reconcile, reconcile_site, settle, run_settled}

-- A pending site that is not being deleted, whose status is up to date, and for which no time is past.
pub record IsSettled (api : SiteApi) (site : StagingSite) : Type 0 where
  pub found : api.get_site ≡ ok site
  pub alive : site.deletion_timestamp ≡ none
  pub kept : has_finalizer site ≡ true
  pub up_to_date :
      ensure_status_is_up_to_date api.status_api site
      ≡ record { site = site; changed = false; error = none }
  pub waits : site.status.state ≡ StagingSiteState.pending
  pub not_expired : is_due api.now site.status.delete_at ≡ false
  pub no_backup_due : is_due api.now site.status.next_backup_time ≡ false

pub settled-stages :
    (api : SiteApi) (site : StagingSite)
    → IsSettled api site
    → do_reconcile api ≡ run_stages api site
unfolding do_reconcile reconcile_site settle run_settled reset_status_errors
settled-stages api site settled = ground (
  arith, settled.found, settled.alive, settled.kept, settled.up_to_date, settled.waits,
  settled.not_expired,
)
