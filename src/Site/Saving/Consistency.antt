-- ===== src/Site/Saving/Consistency.antt =====
-- What a save of a site writes.
use kube_stager.Base.{◌≡◌, refl, ◌⊎◌, Bool, true, false, Option, none, some, arith, ◌||◌}
use kube_stager.Api.{StagingSite, StagingSiteState, WorkloadHealth}
use kube_stager.Controller.{
  CtrlResult, done, Error, controller_error, not_found, api_error, message, nil_dereference,
  ControllerError, is_final_error, error_text, save_status_updates_if_object_changed,
}
use kube_stager.Site.Saving.{
  is_failed, SiteApi, SiteOutcome, Handlers, all_created, set_site_state, save_state, save_site,
  failed_by,
}

-- The states that a status may be written in: failed; complete with every part created and no
-- deletion; or pending with an incomplete health.
abbrev pub IsConsistent : StagingSite → Type 0
IsConsistent site =
    (site.status.state ≡ StagingSiteState.failed)
    ⊎ (((site.status.state ≡ StagingSiteState.complete) × (all_created site ≡ true))
        ⊎ ((site.status.state ≡ StagingSiteState.pending)
            × (site.status.workload_health ≡ WorkloadHealth.incomplete)
            × (all_created site ≡ false)))

abbrev pub WritesConsistent : SiteOutcome → Type 0
WritesConsistent outcome = (w : StagingSite) → outcome.status_written ≡ some w → IsConsistent w

set_site_state-IsConsistent : (site : StagingSite) → IsConsistent (set_site_state site)
unfolding set_site_state
set_site_state-IsConsistent site = ground arith

save_state-WritesConsistent :
    (api : SiteApi) (changed : Bool) (site : StagingSite) (result : CtrlResult)
    (error : Option Error)
    → WritesConsistent (save_state api changed site result error)
unfolding save_state save_status_updates_if_object_changed
save_state-WritesConsistent api changed site result error w h =
    ground (arith, set_site_state-IsConsistent site)

pub save_site-WritesConsistent :
    (api : SiteApi) (changed : Bool) (site : StagingSite) (result : CtrlResult)
    (error : Option Error)
    → WritesConsistent (save_site api changed site result error)
unfolding save_site
save_site-WritesConsistent api changed site result none w h =
    save_state-WritesConsistent api changed site result none w h
save_site-WritesConsistent api changed site result (some (controller_error e)) w h = ground (
  arith,
  save_state-WritesConsistent api true (failed_by site (error_text e)) done none w,
  save_state-WritesConsistent api (changed || is_failed site.status.state) site result
      (some (controller_error e)) w,
)
save_site-WritesConsistent api changed site result (some not_found) w h =
    save_state-WritesConsistent api (changed || is_failed site.status.state) site result
      (some not_found) w h
save_site-WritesConsistent api changed site result (some (api_error n)) w h =
    save_state-WritesConsistent api (changed || is_failed site.status.state) site result
      (some (api_error n)) w h
save_site-WritesConsistent api changed site result (some (message m)) w h =
    save_state-WritesConsistent api (changed || is_failed site.status.state) site result
      (some (message m)) w h
save_site-WritesConsistent api changed site result (some nil_dereference) w h =
    save_state-WritesConsistent api (changed || is_failed site.status.state) site result
      (some nil_dereference) w h

-- An outcome that is that of a save.
abbrev pub IsSave : SiteApi → SiteOutcome → Type 0
IsSave api outcome =
    (changed : Bool) × (site : StagingSite) × (result : CtrlResult) × (error : Option Error)
    × (outcome ≡ save_site api changed site result error)

pub IsSave-WritesConsistent :
    (api : SiteApi) (outcome : SiteOutcome) → IsSave api outcome → WritesConsistent outcome
IsSave-WritesConsistent api outcome (changed, site, result, error, e) w h =
    ground (arith, save_site-WritesConsistent api changed site result error w)

-- A save writes the status alone.
pub save_site-status_only :
    (api : SiteApi) (changed : Bool) (site : StagingSite) (result : CtrlResult)
    (error : Option Error)
    → ((save_site api changed site result error).finalizers_written ≡ none)
      × ((save_site api changed site result error).deleted ≡ false)
unfolding save_site save_state
save_site-status_only api changed site result none = (refl, refl)
save_site-status_only api changed site result (some (controller_error e)) = ground arith
save_site-status_only api changed site result (some not_found) = (refl, refl)
save_site-status_only api changed site result (some (api_error _)) = (refl, refl)
save_site-status_only api changed site result (some (message _)) = (refl, refl)
save_site-status_only api changed site result (some nil_dereference) = (refl, refl)

pub IsSave-status_only :
    (api : SiteApi) (outcome : SiteOutcome)
    → IsSave api outcome
    → (outcome.finalizers_written ≡ none) × (outcome.deleted ≡ false)
IsSave-status_only api outcome (changed, site, result, error, e) =
    ground (arith, save_site-status_only api changed site result error)

abbrev pub with_handlers : SiteApi → Handlers → SiteApi
with_handlers api handlers = record api { handlers = handlers }

-- A save calls no handler.
pub save_site-with_handlers :
    (api : SiteApi) (handlers : Handlers) (changed : Bool) (site : StagingSite)
    (result : CtrlResult) (error : Option Error)
    → save_site (with_handlers api handlers) changed site result error
      ≡ save_site api changed site result error
unfolding save_site save_state
save_site-with_handlers api handlers changed site result none = refl
save_site-with_handlers api handlers changed site result (some (controller_error e)) = refl
save_site-with_handlers api handlers changed site result (some not_found) = refl
save_site-with_handlers api handlers changed site result (some (api_error _)) = refl
save_site-with_handlers api handlers changed site result (some (message _)) = refl
save_site-with_handlers api handlers changed site result (some nil_dereference) = refl

always_final : (e : ControllerError) → is_final_error e ≡ true
unfolding is_final_error
always_final e = ground arith

-- An error that the program makes, where the API server takes the update: the site is written as failed, with the
-- error's text, and the reconciliation returns neither the error nor a time to try again.
pub final_error_fails_site :
    (api : SiteApi) (changed : Bool) (site : StagingSite) (result : CtrlResult)
    (e : ControllerError)
    → api.update_status (failed_by site (error_text e)) ≡ none
    → save_site api changed site result (some (controller_error e)) ≡ record {
      result = done;
      error = none;
      status_written = some (failed_by site (error_text e));
      finalizers_written = none;
      deleted = false;
    }
unfolding save_site save_state set_site_state save_status_updates_if_object_changed
final_error_fails_site api changed site result e updated = ground (arith, always_final e)
