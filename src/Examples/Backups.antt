-- ===== src/Examples/Backups.antt =====
-- A backup of a small site, whose batch job has finished.
use kube_stager.Base.{refl, none, some, [], ◌∷◌, bytes, pos, insert}
use kube_stager.Api.{Backup, BackupType, JobState, StagingSite}
use kube_stager.Controller.{ok}
use kube_stager.Backup.{BackupApi, load_services_for_site}
use kube_stager.Backup.Reconcile.{do_reconcile}
use kube_stager.Backup.Reconcile.Completion.{complete_backup_has_complete_services, AreComplete}
use kube_stager.Examples.{
  digest, meta_of, demo, shop_config, batch_api, job_config, batch_job, finished_condition,
}

abbrev site : StagingSite
site = record demo {
  status = record demo.status {
    services =
        (
          bytes "shop",
          record {
            username = bytes "demo";
            db_name = bytes "demo";
            redis_database_number = 0;
            ready_replicas = pos 1;
          },
        )
        ∷ [];
  };
}

abbrev running_backup : Backup
running_backup = record {
  meta = meta_of (bytes "final-demo");
  site_name = bytes "demo";
  backup_type = BackupType.final;
  status = record {
    detail = record {
      state = JobState.running;
      job_started_at = some (pos 5);
      job_finished_at = none;
    };
    services =
        (
          bytes "shop",
          record {
            state = JobState.running;
            job_started_at = some (pos 5);
            job_finished_at = none;
          },
        )
        ∷ [];
  };
}

abbrev finished_backup : Backup
finished_backup = record running_backup {
  status = record {
    detail = record {
      state = JobState.complete;
      job_started_at = some (pos 5);
      job_finished_at = some (pos 9);
    };
    services =
        (
          bytes "shop",
          record {
            state = JobState.complete;
            job_started_at = some (pos 5);
            job_finished_at = some (pos 9);
          },
        )
        ∷ [];
  };
}

abbrev backup_api : BackupApi
backup_api = record {
  batch = record batch_api { get_site = λ _. ok site };
  now = pos 10;
  md5_base36 = digest;
  backup_job_config = job_config;
  get_backup = ok running_backup;
  get_batch_job = λ _. ok (batch_job (finished_condition ∷ []));
  update_status = λ _. none;
}

completion_example : AreComplete finished_backup ((bytes "shop", shop_config) ∷ [])
unfolding do_reconcile insert load_services_for_site
completion_example =
    complete_backup_has_complete_services backup_api running_backup finished_backup site
      ((bytes "shop", shop_config) ∷ []) refl refl refl refl refl refl
