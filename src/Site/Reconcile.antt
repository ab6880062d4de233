-- ===== src/Site/Reconcile.antt =====
-- `doReconcile` of controllers/site/stagingsite_controller.go, with the deletion of the site.
pub mod Consistency
pub mod Deletion
pub mod Waiting
pub mod Provisioning
pub mod Failure
pub mod Window
use kube_stager.Base.{
  Bool, true, false, not, ◌||◌, Option, none, some, List, [], ◌∷◌, ◌++◌, Text, if◌then◌else◌,
  is_some,
}
use kube_stager.Api.{StagingSite, StagingSiteState}
use kube_stager.Controller.{Result, ok, err, Error, not_found, done, requeue_now}
use kube_stager.Names.{slice_contains_string, remove_string_from_slice}
use kube_stager.Site.Schedule.{is_due}
use kube_stager.Site.Status.{Updated}
use kube_stager.Site.Ensure.{ensure_status_is_up_to_date}
use kube_stager.Site.Saving.{
  SiteApi, SiteOutcome, return_site, site_finalizer_name, with_state, is_pending,
  reset_status_errors, save_site,
}
use kube_stager.Site.Stages.{run_stages}

abbrev pub has_finalizer : StagingSite → Bool
has_finalizer site = slice_contains_string site.finalizers site_finalizer_name

abbrev pub with_finalizers : StagingSite → List Text → StagingSite
with_finalizers site finalizers = record site {
  meta = record site.meta { finalizers = finalizers };
}

abbrev error_of : Result (Unit {0}) → Option Error
error_of (ok _) = none
error_of (err e) = some e

abbrev written_if : Result (Unit {0}) → StagingSite → Option StagingSite
written_if (ok _) site = some site
written_if (err _) site = none

-- `r.Update` of a site whose finalizers have changed.
write_finalizers : SiteApi → StagingSite → SiteOutcome
write_finalizers api site = record (return_site done (error_of (api.update_site site))) {
  finalizers_written = written_if (api.update_site site) site;
}

unfoldable pub append_finalizer : SiteApi → StagingSite → SiteOutcome
unfolding write_finalizers
append_finalizer api site =
    let outcome =
      write_finalizers api (with_finalizers site (site.finalizers ++ (site_finalizer_name ∷ []))) in
    if is_some outcome.error then outcome else record outcome { result = requeue_now }

remove_finalizer : SiteApi → StagingSite → SiteOutcome
unfolding write_finalizers remove_string_from_slice
remove_finalizer api site =
    write_finalizers api
      (with_finalizers site (remove_string_from_slice site.finalizers site_finalizer_name))

-- The final backup must be complete before the finalizer goes.
back_up_and_remove : SiteApi → StagingSite → SiteOutcome
unfolding remove_finalizer
back_up_and_remove api site = elim (api.final_backup_complete site) [
  | err e ↦ return_site done (some e)
  | ok false ↦ return_site done none
  | ok true ↦ remove_finalizer api site
]

unfoldable pub handle_delete : SiteApi → StagingSite → SiteOutcome
unfolding remove_finalizer back_up_and_remove slice_contains_string save_site
handle_delete api site =
    if not (has_finalizer site)
    then return_site done none
    else if not (is_pending site.status.state)
    then save_site api true (with_state site StagingSiteState.pending) requeue_now none
    else if site.spec.backup_before_delete
    then back_up_and_remove api site
    else remove_finalizer api site

-- `r.Delete` of a site that has expired.
delete_expired : SiteApi → SiteOutcome
delete_expired api = elim api.delete_site [
  | ok _ ↦ record (return_site done none) { deleted = true }
  | err e ↦ return_site done (some e)
]

-- The site's status is up to date: the errors of earlier runs are reset, and the stages run.
run_settled : SiteApi → StagingSite → SiteOutcome
unfolding delete_expired run_stages reset_status_errors
run_settled api site =
    let site' = reset_status_errors site in
    if is_due api.now site'.status.delete_at then delete_expired api else run_stages api site'

-- The status has been updated; a change or an error ends the reconciliation.
settle : SiteApi → Updated → SiteOutcome
unfolding run_settled save_site
settle api updated = elim updated.error [
  | some e ↦ save_site api updated.changed updated.site done (some e)
  | none ↦
      if updated.changed
      then save_site api true updated.site requeue_now none
      else run_settled api updated.site
]

reconcile_site : SiteApi → StagingSite → SiteOutcome
unfolding handle_delete append_finalizer settle ensure_status_is_up_to_date slice_contains_string
reconcile_site api site =
    if is_some site.deletion_timestamp
    then handle_delete api site
    else if not (has_finalizer site)
    then append_finalizer api site
    else settle api (ensure_status_is_up_to_date api.status_api site)

unfoldable pub do_reconcile : SiteApi → SiteOutcome
unfolding reconcile_site
do_reconcile api = elim api.get_site [
  | ok site ↦ reconcile_site api site
  | err not_found ↦ return_site done none
  | err e ↦ return_site done (some e)
]
