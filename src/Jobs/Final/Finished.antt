-- ===== src/Jobs/Final/Finished.antt =====
-- When `EnsureFinalBackupIsComplete` of handlers/job/backup_handler.go answers that the final backup
-- is complete.
use kube_stager.Base.{true, Text, arith, ◌≡◌, ◌⊎◌, inl, inr}
use kube_stager.Api.{StagingSite, Backup, BackupType, JobState}
use kube_stager.Controller.{ok, Result-cases}
use kube_stager.Jobs.Final.{
  FinalApi, make_backup_name, create_job, ensure_named_backup_is_complete,
  ensure_final_backup_is_complete,
}

-- The final backup of a site is stored, and has ended: it is complete, or it has failed.
abbrev pub HasFinalBackup : FinalApi → StagingSite → Type 0
HasFinalBackup final site =
    (name : Text) × (backup : Backup) × (make_backup_name final.md5_base36 site.name
        BackupType.final final.now
      ≡ ok name)
    × (final.get_backup site.namespace name ≡ ok backup)
    × ((backup.status.state ≡ JobState.complete) ⊎ (backup.status.state ≡ JobState.failed))

named_backup-finished :
    (final : FinalApi) (site : StagingSite) (name : Text)
    → (ensure_named_backup_is_complete final site name).1 ≡ ok true
    → (backup : Backup) × (final.get_backup site.namespace name ≡ ok backup)
      × ((backup.status.state ≡ JobState.complete) ⊎ (backup.status.state ≡ JobState.failed))
unfolding ensure_named_backup_is_complete
named_backup-finished final site name h =
    elim (Result-cases (final.get_backup site.namespace name)) [
      | inl (backup, e) ↦ (backup, e, ground arith)
      | inr (x, e) ↦ ground (arith, Result-cases (create_job final site name BackupType.final))
    ]

pub final_backup-finished :
    (final : FinalApi) (site : StagingSite)
    → (ensure_final_backup_is_complete final site).1 ≡ ok true
    → HasFinalBackup final site
unfolding ensure_final_backup_is_complete
final_backup-finished final site h =
    elim (Result-cases (make_backup_name final.md5_base36 site.name BackupType.final final.now)) [
      | inr (x, e) ↦ ground arith
      | inl (name, e) ↦
          let (backup, found, ended) = named_backup-finished final site name (ground arith) in
          (name, backup, e, found, ended)
    ]
