-- ===== src/Examples/Sites.antt =====
-- Reconciliations of a small site.
use kube_stager.Base.{
  ◌≡◌, refl, none, some, [], ◌∷◌, bytes, Text, arith, pos, negsuc, true, false, is_some, text_eq,
  ◌&&◌, not, ◌+ℤ◌, wrap64, ◌*ℤ◌,
}
use kube_stager.Api.{StagingSite, StagingSiteState, Backup, BackupType, JobState}
use kube_stager.Jobs.Final.{FinalApi, ensure_final_backup_is_complete}
use kube_stager.Jobs.Final.Finished.{HasFinalBackup}
use kube_stager.Controller.{
  ok, err, api_error, ControllerError, database_creation_error, redis, controller_error,
}
use kube_stager.Names.{slice_contains_string}
use kube_stager.Site.Schedule.{is_due, to_duration}
use kube_stager.Site.Status.{StatusApi, last_spec_change_at}
use kube_stager.Site.Ensure.{ensure_status_is_up_to_date}
use kube_stager.Site.Saving.{SiteApi, Handlers, Handler, site_finalizer_name}
use kube_stager.Site.Saving.Consistency.{IsConsistent, with_handlers}
use kube_stager.Site.Stages.Gates.{other}
use kube_stager.Site.Reconcile.{do_reconcile, has_finalizer}
use kube_stager.Site.Reconcile.Consistency.{written-IsConsistent}
use kube_stager.Site.Reconcile.Deletion.{
  MayGo, finalizer_removed_last, finalizer_is_removed, deletes_expired,
}
use kube_stager.Site.Reconcile.Waiting.{workloads_wait_for_migrations}
use kube_stager.Site.Reconcile.Window.{negative_hour_is_never_provisioned}
use kube_stager.Examples.{digest, demo, meta_of, shop_config}

-- A handler that finds everything as it should be, and one that waits.
abbrev satisfied : Handler
satisfied site = (site, ok true)

abbrev unchanged : Handler
unchanged site = (site, ok false)

abbrev handlers : Handlers
handlers = record {
  databases_created = satisfied ∷ satisfied ∷ satisfied ∷ [];
  databases_ready = satisfied ∷ satisfied ∷ satisfied ∷ [];
  init_jobs_created = satisfied;
  init_jobs_complete = satisfied;
  migration_jobs_created = satisfied;
  migration_jobs_complete = satisfied;
  configs = unchanged;
  workloads = unchanged;
  networking = unchanged;
  create_backup = λ _. ok tt;
  final_backup_complete = λ _. ok true;
}

abbrev status_api : StatusApi
status_api = record {
  clock = record { now = pos 1000; today = pos 0 };
  md5_base36 = digest;
  format_time = λ _. bytes "start";
  parse_time = λ _. some (pos 0);
  update_site = λ _. ok tt;
  get_service_config = λ _. ok shop_config;
  list_backups = ok [];
  set_controller_reference = ok tt;
  update_backup = λ _. ok tt;
  delete_backup = λ _. ok tt;
}

abbrev site_api : StagingSite → SiteApi
site_api site = record {
  status_api = status_api;
  handlers = handlers;
  get_site = ok site;
  update_status = λ _. none;
  delete_site = ok tt;
}

-- The site as it is once its status has settled.
abbrev settled : StagingSite
settled = record demo {
  meta = record demo.meta {
    annotations = (last_spec_change_at, bytes "start") ∷ [];
    finalizers = site_finalizer_name ∷ [];
  };
}

abbrev provisioned : StagingSite
provisioned = record settled {
  status = record settled.status {
    database_creation_complete = true;
    database_initialisation_complete = true;
    database_migrations_complete = true;
    state = StagingSiteState.complete;
  };
}

-- One reconciliation finds every part created.
provisioned_example : IsConsistent provisioned
unfolding do_reconcile
provisioned_example = written-IsConsistent (site_api settled) provisioned refl

-- The migration jobs are waited for; the handlers that would fail are not run.
abbrev waiting_api : SiteApi
waiting_api = record (site_api settled) {
  handlers = record handlers { migration_jobs_complete = unchanged };
}

abbrev refused : Handler
refused site = (site, err (api_error 500))

waiting_example : do_reconcile (other waiting_api refused refused) ≡ do_reconcile waiting_api
waiting_example = workloads_wait_for_migrations waiting_api refused refused (λ site h. ground arith)

-- A site that is being deleted, and is backed up.
abbrev deleting : StagingSite
deleting = record settled { meta = record settled.meta { deletion_timestamp = some (pos 900) } }

abbrev released : StagingSite
released = record deleting { meta = record deleting.meta { finalizers = [] } }

may_go : MayGo (site_api deleting) deleting
may_go = (refl, refl, λ _. refl)

-- The final backup has failed.
abbrev failed_backup : Backup
failed_backup = record {
  meta = meta_of (bytes "final-demo");
  site_name = bytes "demo";
  backup_type = BackupType.final;
  status = record {
    detail = record { state = JobState.failed; job_started_at = none; job_finished_at = none };
    services = [];
  };
}

abbrev final_api : FinalApi
final_api = record {
  now = pos 1000;
  get_backup = λ _ _. ok failed_backup;
  set_controller_reference = λ backup. ok backup;
  create = λ _. none;
  md5_base36 = digest;
}

abbrev deletion_api : SiteApi
deletion_api = record (site_api deleting) {
  handlers = record handlers {
    final_backup_complete = λ s. (ensure_final_backup_is_complete final_api s).1;
  };
}

finalizer_example :
    (is_some deleting.deletion_timestamp ≡ true)
    × (deleting.status.state ≡ StagingSiteState.pending)
    × (deleting.spec.backup_before_delete ≡ true → HasFinalBackup final_api deleting)
unfolding do_reconcile slice_contains_string ensure_final_backup_is_complete
finalizer_example =
    finalizer_removed_last deletion_api final_api deleting released (λ _. refl) refl refl refl

release_example :
    (w : StagingSite) × ((do_reconcile (site_api deleting)).finalizers_written ≡ some w)
    × ((do_reconcile (site_api deleting)).error ≡ none)
    × ((t : Text)
        → slice_contains_string w.finalizers t
          ≡ (slice_contains_string deleting.finalizers t && not (text_eq site_finalizer_name t)))
unfolding slice_contains_string
release_example = finalizer_is_removed (site_api deleting) deleting refl may_go refl (λ _. refl)

-- A site whose time ended with the last change of its spec.
abbrev expired : StagingSite
expired = record settled {
  spec = record settled.spec {
    delete_after = record { never = false; days = pos 0; hours = pos 0; minutes = pos 0 };
  };
  status = record settled.status { delete_at = some (pos 0) };
}

expired_example :
    (is_some expired.deletion_timestamp ≡ false)
    × (has_finalizer expired ≡ true)
    × ((ensure_status_is_up_to_date status_api expired).changed ≡ false)
    × (is_due (pos 1000) (ensure_status_is_up_to_date status_api expired).site.status.delete_at
        ≡ true)
unfolding do_reconcile ◌+ℤ◌ to_duration wrap64 ◌*ℤ◌
expired_example = deletes_expired (site_api expired) expired refl refl

-- The redis environment is full.
abbrev full : ControllerError
full =
    database_creation_error redis
      (record {
        service_name = bytes "shop";
        site_name = bytes "demo";
        environment = bytes "redis-0";
      })
      (bytes "No free databases found in environment")

abbrev failing : Handler
failing site = (site, err (controller_error full))

-- The second of the handlers that wait for databases fails.
abbrev full_api : SiteApi
full_api = record (site_api settled) {
  handlers = record handlers { databases_ready = satisfied ∷ failing ∷ satisfied ∷ [] };
}

-- An hour of -1.
abbrev hourless : StagingSite
hourless = record settled {
  spec = record settled.spec { daily_backup_window_hour = some (negsuc 0) };
}

hourless_example :
    do_reconcile
      (with_handlers (site_api hourless) (record handlers { databases_created = refused ∷ [] }))
    ≡ do_reconcile (site_api hourless)
hourless_example =
    negative_hour_is_never_provisioned (site_api hourless)
      (record handlers { databases_created = refused ∷ [] }) hourless 0 refl refl refl
