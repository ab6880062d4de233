-- ===== src/Jobs/Final.antt =====
-- The backups that the site controller asks for: handlers/job/backup_handler.go.
pub mod Named
pub mod Finished
use kube_stager.Base.{
  ℕ, ◌/◌, ◌+◌, Bool, true, false, Option, none, some, List, [], ◌∷◌, ◌++◌, Text, bytes, ℤ, pos,
  negsuc, decimal,
}
use kube_stager.Names.{shorten_human_readable_value}
use kube_stager.Api.{
  ObjectMeta, StagingSite, Backup, BackupType, BackupStatus, BackupStatusDetail, JobState, Time,
}
use kube_stager.Controller.{Result, ok, err, ◌>>=◌, Error, message, not_found}

-- The clock, and the answers of the API server.
pub record FinalApi : Type 0 where
  pub now : Time
  pub get_backup : Text → Text → Result Backup
  pub set_controller_reference : Backup → Result Backup
  pub create : Backup → Option Error
  pub md5_base36 : Text → Text

-- The seconds of an instant, rounded down, and `%d` of an integer.
abbrev pub unix : Time → ℤ
unix (pos n) = pos (n / 1000000000)
unix (negsuc n) = negsuc (n / 1000000000)

unfoldable pub decimal_ℤ : ℤ → Text
unfolding decimal
decimal_ℤ (pos n) = decimal n
decimal_ℤ (negsuc n) = b'-' ∷ decimal (n + 1)

backup_type_name : BackupType → Text
backup_type_name BackupType.manual = bytes "manual"
backup_type_name BackupType.scheduled = bytes "scheduled"
backup_type_name BackupType.final = bytes "final"
backup_type_name (BackupType.other name) = name

unfoldable pub make_backup_name : (Text → Text) → Text → BackupType → Time → Result Text
unfolding shorten_human_readable_value decimal_ℤ backup_type_name
make_backup_name md5_base36 site_name BackupType.final time =
    ok (shorten_human_readable_value md5_base36 (bytes "final-" ++ site_name) (pos 63))
make_backup_name md5_base36 site_name BackupType.scheduled time = ok (
    shorten_human_readable_value md5_base36
      (bytes "sched-" ++ (site_name ++ (b'-' ∷ decimal_ℤ (unix time)))) (pos 63))
make_backup_name md5_base36 site_name BackupType.manual time =
    err (message (bytes "unhandled backup type: " ++ backup_type_name BackupType.manual))
make_backup_name md5_base36 site_name (BackupType.other name) time =
    err (message (bytes "unhandled backup type: " ++ backup_type_name (BackupType.other name)))

new_backup : StagingSite → Text → BackupType → Backup
new_backup site name backup_type = record {
  meta = record {
    name = name;
    namespace = site.namespace;
    labels = [];
    annotations = [];
    finalizers = [];
    deletion_timestamp = none;
    creation_timestamp = pos 0;
    controller = none;
  };
  site_name = site.name;
  backup_type = backup_type;
  status = record {
    detail = record { state = JobState.unset; job_started_at = none; job_finished_at = none };
    services = [];
  };
}

unfoldable pub create_job : FinalApi → StagingSite → Text → BackupType → Result Backup
unfolding new_backup
create_job api site name backup_type =
    api.set_controller_reference (new_backup site name backup_type)

-- The backup that is written, if one is, and what the method returns.
abbrev write_backup {ℓ} : {A : Type ℓ} → FinalApi → A → Result Backup → Option Backup × Result A
write_backup api answer (err e) = (none, err e)
write_backup api answer (ok job) = elim (api.create job) [
  | some e ↦ (none, err e)
  | none ↦ (some job, ok answer)
]

unfoldable pub create :
    FinalApi → StagingSite → BackupType → Time → Option Backup × Result (Unit {0})
unfolding make_backup_name create_job
create api site backup_type now = elim (make_backup_name api.md5_base36 site.name backup_type now) [
  | err e ↦ (none, err e)
  | ok name ↦ write_backup api tt (create_job api site name backup_type)
]

-- A failed backup counts as complete.
abbrev is_done : JobState → Bool
is_done JobState.complete = true
is_done JobState.failed = true
is_done _ = false

unfoldable pub ensure_named_backup_is_complete :
    FinalApi → StagingSite → Text → Option Backup × Result Bool
unfolding create_job
ensure_named_backup_is_complete api site name = elim (api.get_backup site.namespace name) [
  | ok job ↦ (none, ok (is_done job.status.state))
  | err not_found ↦ write_backup api false (create_job api site name BackupType.final)
  | err e ↦ (none, err e)
]

unfoldable pub ensure_final_backup_is_complete :
    FinalApi → StagingSite → Option Backup × Result Bool
unfolding make_backup_name ensure_named_backup_is_complete
ensure_final_backup_is_complete api site =
    elim (make_backup_name api.md5_base36 site.name BackupType.final api.now) [
      | err e ↦ (none, err e)
      | ok name ↦ ensure_named_backup_is_complete api site name
    ]
