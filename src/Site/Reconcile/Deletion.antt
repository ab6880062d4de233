-- ===== src/Site/Reconcile/Deletion.antt =====
-- The deletion of a site: its finalizer, and the sites that expire.
use kube_stager.Base.{
  ◌≡◌, inl, inr, true, false, none, some, List, Text, arith, Option-cases, Bool-cases, is_some, [],
  ◌∷◌, ◌++◌, sym, ◌∙◌, text_eq, text_eq_refl, ◌&&◌, not,
}
use kube_stager.Api.{StagingSite, StagingSiteState}
use kube_stager.Controller.{done, requeue_now, ok}
use kube_stager.Names.{slice_contains_string, remove_string_from_slice}
use kube_stager.Names.Slices.{contains-remove}
use kube_stager.Jobs.Final.{FinalApi, ensure_final_backup_is_complete}
use kube_stager.Jobs.Final.Finished.{HasFinalBackup, final_backup-finished}
use kube_stager.Site.Schedule.{is_due}
use kube_stager.Site.Status.{Updated}
use kube_stager.Site.Ensure.{ensure_status_is_up_to_date}
use kube_stager.Site.Saving.{SiteApi, with_state, reset_status_errors, site_finalizer_name}
use kube_stager.Site.Saving.Consistency.{save_site-status_only, IsSave-status_only}
use kube_stager.Site.Stages.{run_stages}
use kube_stager.Site.Stages.Saves.{run_stages-IsSave}
use kube_stager.Site.Reconcile.{
  has_finalizer, append_finalizer, write_finalizers, remove_finalizer, back_up_and_remove,
  handle_delete, delete_expired, run_settled, settle, reconcile_site, do_reconcile, with_finalizers,
}

-- A site that may lose its finalizer: it is being deleted, its state is pending, and the handler of
-- backups answers that the backup before deletion, if it is asked for, has ended.
abbrev pub MayGo : SiteApi → StagingSite → Type 0
MayGo api site =
    (is_some site.deletion_timestamp ≡ true)
    × (site.status.state ≡ StagingSiteState.pending)
    × (site.spec.backup_before_delete ≡ true → api.final_backup_complete site ≡ ok true)

module _ (api : SiteApi) (site w : StagingSite) where
  run_settled-finalizers : (run_settled api site).finalizers_written ≡ none
  unfolding run_settled delete_expired
  run_settled-finalizers = ground (
    arith,
    IsSave-status_only api (run_stages api (reset_status_errors site))
        (run_stages-IsSave api (reset_status_errors site)),
  )

  handle_delete-MayGo :
      is_some site.deletion_timestamp ≡ true
      → (handle_delete api site).finalizers_written ≡ some w
      → has_finalizer w ≡ false
      → MayGo api site
  unfolding handle_delete back_up_and_remove remove_finalizer write_finalizers
  handle_delete-MayGo d h gone = ground (
    arith,
    save_site-status_only api true (with_state site StagingSiteState.pending) requeue_now none,
  )

settle-finalizers :
    (api : SiteApi) (updated : Updated) → (settle api updated).finalizers_written ≡ none
unfolding settle
settle-finalizers api updated = elim (Option-cases updated.error) [
  | inr (e, x) ↦
      ground (arith, save_site-status_only api updated.changed updated.site done (some e))
  | inl x ↦ ground (
    arith,
    save_site-status_only api true updated.site requeue_now none,
    run_settled-finalizers api updated.site updated.site,
  )
]

contains-append :
    (slice : List Text) (s : Text) → slice_contains_string (slice ++ (s ∷ [])) s ≡ true
unfolding slice_contains_string
contains-append [] s = ground (arith, text_eq_refl s)
contains-append (i ∷ slice) s = ground (arith, contains-append slice s)

append_finalizer-has :
    (api : SiteApi) (site w : StagingSite)
    → (append_finalizer api site).finalizers_written ≡ some w
    → has_finalizer w ≡ true
unfolding append_finalizer write_finalizers
append_finalizer-has api site w h =
    ground (arith, contains-append site.finalizers site_finalizer_name)

removal-MayGo :
    (api : SiteApi) (site w : StagingSite)
    → api.get_site ≡ ok site
    → (do_reconcile api).finalizers_written ≡ some w
    → has_finalizer w ≡ false
    → MayGo api site
unfolding do_reconcile reconcile_site
removal-MayGo api site w got h gone = elim (Bool-cases (is_some site.deletion_timestamp)) [
  | inl d ↦ handle_delete-MayGo api site w d (ground arith) gone
  | inr d ↦ ground (
    arith,
    append_finalizer-has api site w,
    settle-finalizers api (ensure_status_is_up_to_date api.status_api site),
  )
]

-- The answer on the final backup is that of the backup handler.
abbrev pub AsksHandler : SiteApi → FinalApi → Type 0
AsksHandler api final =
    (s : StagingSite) → api.final_backup_complete s ≡ (ensure_final_backup_is_complete final s).1

-- The site controller asks the backup handler for the final backup. Then a reconciliation that
-- writes the site without its finalizer has found it being deleted and in the pending state. If a
-- backup before deletion is asked for, it has also found a final backup of the site that has ended:
-- one that is complete, or one that has failed.
pub finalizer_removed_last :
    (api : SiteApi) (final : FinalApi) (site w : StagingSite)
    → AsksHandler api final
    → api.get_site ≡ ok site
    → (do_reconcile api).finalizers_written ≡ some w
    → has_finalizer w ≡ false
    → (is_some site.deletion_timestamp ≡ true)
      × (site.status.state ≡ StagingSiteState.pending)
      × (site.spec.backup_before_delete ≡ true → HasFinalBackup final site)
finalizer_removed_last api final site w asks got h gone =
    let (deleting, waits, ended) = removal-MayGo api site w got h gone in
    (deleting, waits, λ wanted. final_backup-finished final site (sym (asks site) ∙ ended wanted))

-- A site that is being deleted, is pending, holds its finalizer, and of which the backup handler says
-- that the backup that it asks for has ended, is written without the finalizer, its other finalizers
-- kept, if the API server takes the update.
pub finalizer_is_removed :
    (api : SiteApi) (site : StagingSite)
    → api.get_site ≡ ok site
    → MayGo api site
    → has_finalizer site ≡ true
    → ((w : StagingSite) → api.update_site w ≡ ok tt)
    → (w : StagingSite) × ((do_reconcile api).finalizers_written ≡ some w)
      × ((do_reconcile api).error ≡ none)
      × ((t : Text)
          → slice_contains_string w.finalizers t
            ≡ (slice_contains_string site.finalizers t && not (text_eq site_finalizer_name t)))
unfolding do_reconcile reconcile_site handle_delete back_up_and_remove remove_finalizer
    write_finalizers
finalizer_is_removed api site got (deleting, pending, backed_up) has updates = (
  with_finalizers site (remove_string_from_slice site.finalizers site_finalizer_name),
  ground (
    arith,
    updates (with_finalizers site (remove_string_from_slice site.finalizers site_finalizer_name)),
  ),
  ground (
    arith,
    updates (with_finalizers site (remove_string_from_slice site.finalizers site_finalizer_name)),
  ),
  λ t. contains-remove site.finalizers site_finalizer_name t,
)

-- The time at which a site expires is before now.
abbrev pub HasExpired : SiteApi → StagingSite → Type 0
HasExpired api site = is_due api.now site.status.delete_at ≡ true

run_settled-HasExpired :
    (api : SiteApi) (site : StagingSite)
    → (run_settled api site).deleted ≡ true
    → HasExpired api site
unfolding run_settled delete_expired reset_status_errors
run_settled-HasExpired api site h = ground (
  arith,
  IsSave-status_only api (run_stages api (reset_status_errors site))
      (run_stages-IsSave api (reset_status_errors site)),
)

settle-HasExpired :
    (api : SiteApi) (updated : Updated)
    → (settle api updated).deleted ≡ true
    → (updated.changed ≡ false) × HasExpired api updated.site
unfolding settle
settle-HasExpired api updated h = elim (Option-cases updated.error) [
  | inr (e, x) ↦
      ground (arith, save_site-status_only api updated.changed updated.site done (some e))
  | inl x ↦ ground (
    arith,
    save_site-status_only api true updated.site requeue_now none,
    run_settled-HasExpired api updated.site,
  )
]

-- A site that a reconciliation deletes is not being deleted yet, has its finalizer, and has expired by
-- the delete time of a status that is up to date.
pub deletes_expired :
    (api : SiteApi) (site : StagingSite)
    → api.get_site ≡ ok site
    → (do_reconcile api).deleted ≡ true
    → (is_some site.deletion_timestamp ≡ false)
      × (has_finalizer site ≡ true)
      × ((ensure_status_is_up_to_date api.status_api site).changed ≡ false)
      × HasExpired api (ensure_status_is_up_to_date api.status_api site).site
unfolding do_reconcile reconcile_site settle handle_delete back_up_and_remove remove_finalizer
    write_finalizers append_finalizer
deletes_expired api site got h = ground (
  arith,
  settle-HasExpired api (ensure_status_is_up_to_date api.status_api site),
  save_site-status_only api true (with_state site StagingSiteState.pending) requeue_now none,
)
