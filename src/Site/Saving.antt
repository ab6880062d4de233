-- ===== src/Site/Saving.antt =====
-- What the reconciler of controllers/site/stagingsite_controller.go calls and returns, and
-- `SaveStatusUpdatesIfObjectChanged`, by which it writes the status. The handlers are arguments; metrics,
-- logging and Sentry are left out.
pub mod Consistency
use kube_stager.Base.{
  Bool, true, false, not, ◌&&◌, ◌||◌, Option, none, some, List, [], ◌∷◌, ◌++◌, Text, bytes,
  if◌then◌else◌, is_some, ltb_ℤ,
}
use kube_stager.Api.{Time, StagingSite, StagingSiteState, StagingSiteStatus, WorkloadHealth}
use kube_stager.Controller.{
  Result, ok, err, Error, not_found, controller_error, is_final_error, error_text, CtrlResult, done,
  requeue_now, Outcome, save_status_updates_if_object_changed,
}
use kube_stager.Names.{slice_contains_string, remove_string_from_slice}
use kube_stager.Site.Schedule.{get_next_backup_time_for_site, get_ctrl_result_with_recheck_interval}
use kube_stager.Site.Status.{StatusApi, Updated, set_status}
use kube_stager.Site.Ensure.{ensure_status_is_up_to_date}

-- A handler may change the status of the site that it is given, also where it fails. It returns its
-- errors, and does not panic.
abbrev pub Handler : Type 0
Handler = StagingSite → StagingSite × Result Bool

-- The handlers: whether the databases exist and are ready (mysql, mongo, redis), whether the init
-- and migration jobs exist and are complete, and whether the status of the configs, workloads and
-- networking objects has changed.
pub record Handlers : Type 0 where
  pub databases_created : List Handler
  pub databases_ready : List Handler
  pub init_jobs_created : Handler
  pub init_jobs_complete : Handler
  pub migration_jobs_created : Handler
  pub migration_jobs_complete : Handler
  pub configs : Handler
  pub workloads : Handler
  pub networking : Handler
  pub create_backup : StagingSite → Result (Unit {0})
  pub final_backup_complete : StagingSite → Result Bool

pub record SiteApi : Type 0 where
  pub status_api : StatusApi
  pub open status_api use *
  pub handlers : Handlers
  pub open handlers use *
  pub get_site : Result StagingSite
  pub update_status : StagingSite → Option Error
  pub delete_site : Result (Unit {0})

-- What a reconciliation returns, and which writes of the site the API server accepted: the status,
-- the object with other finalizers, the deletion.
pub record SiteOutcome : Type 0 where
  pub result : CtrlResult
  pub error : Option Error
  pub status_written : Option StagingSite
  pub finalizers_written : Option StagingSite
  pub deleted : Bool

abbrev pub return_site : CtrlResult → Option Error → SiteOutcome
return_site result error = record {
  result = result;
  error = error;
  status_written = none;
  finalizers_written = none;
  deleted = false;
}

abbrev pub site_finalizer_name : Text
site_finalizer_name = bytes "stagingsite.site.finalizers.operator.kube-stager.io"

abbrev pub with_state : StagingSite → StagingSiteState → StagingSite
with_state site state = set_status site (record site.status { state = state })

abbrev pub is_failed : StagingSiteState → Bool
is_failed StagingSiteState.failed = true
is_failed _ = false

abbrev pub is_complete : StagingSiteState → Bool
is_complete StagingSiteState.complete = true
is_complete _ = false

abbrev pub is_pending : StagingSiteState → Bool
is_pending StagingSiteState.pending = true
is_pending _ = false

-- Every part of the site is created, and the site is not being deleted.
abbrev pub all_created : StagingSite → Bool
all_created site =
    site.status.database_creation_complete
    && (site.status.database_initialisation_complete
        && (site.status.database_migrations_complete
            && (site.status.configs_are_created
                && (site.status.networking_objects_are_created
                    && (site.status.workloads_are_created
                        && not (is_some site.deletion_timestamp))))))

unfoldable pub set_site_state : StagingSite → StagingSite
set_site_state site =
    if is_failed site.status.state
    then site
    else if all_created site
    then with_state site StagingSiteState.complete
    else set_status site (record site.status {
      state = StagingSiteState.pending;
      workload_health = WorkloadHealth.incomplete;
    })

unfoldable pub reset_status_errors : StagingSite → StagingSite
reset_status_errors site =
    if is_failed site.status.state
    then set_status site
        (record site.status { state = StagingSiteState.pending; error_message = [] })
    else site

-- `controller.SaveStatusUpdatesIfObjectChanged` of the site whose state has been set.
save_state : SiteApi → Bool → StagingSite → CtrlResult → Option Error → SiteOutcome
unfolding save_status_updates_if_object_changed set_site_state
save_state api changed site result error =
    let saved =
      save_status_updates_if_object_changed changed api.update_status (set_site_state site) result
        error in
    record {
      result = saved.result;
      error = saved.error;
      status_written = saved.written;
      finalizers_written = none;
      deleted = false;
    }

-- The site failed by a final error, with the error's text.
abbrev pub failed_by : StagingSite → Text → StagingSite
failed_by site text =
    set_status site (record site.status { state = StagingSiteState.failed; error_message = text })

-- The method of the reconciler: a final error fails the site, and is not returned.
unfoldable pub save_site : SiteApi → Bool → StagingSite → CtrlResult → Option Error → SiteOutcome
unfolding save_state
save_site api changed site result none = save_state api changed site result none
save_site api changed site result (some (controller_error e)) =
    if is_final_error e
    then save_state api true (failed_by site (error_text e)) done none
    else save_state api (changed || is_failed site.status.state) site result
        (some (controller_error e))
save_site api changed site result (some e) =
    save_state api (changed || is_failed site.status.state) site result (some e)
