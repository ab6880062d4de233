-- ===== src/Site/Backups.antt =====
-- The part of `ensureStatusIsUpToDate` that reads the site's backups: it records the last backup,
-- claims backups that have no controller, and deletes all finished backups but the newest three.
pub mod Cleanup
pub mod Scanning
use kube_stager.Base.{
  ℕ, suc, ◌-◌, Bool, true, false, not, ◌&&◌, ◌||◌, Option, none, some, List, [], ◌∷◌, ◌++◌, ltb,
  if◌then◌else◌, is_some, ltb_ℤ, length, take,
}
use kube_stager.Api.{Time, JobState, Backup, is_final, StagingSite}
use kube_stager.Controller.{Result, ok, err, ◌>>=◌, ◌>>◌, Error}
use kube_stager.Site.Status.{StatusApi, Updated, set_status}

-- The variables of the loop over the backups.
pub record Scan : Type 0 where
  pub last_backup_time : Option Time
  pub changed : Bool
  pub finished_backups : List Backup
  pub control_claimed : Bool

abbrev is_complete : JobState → Bool
is_complete JobState.complete = true
is_complete _ = false

abbrev is_later : Time → Option Time → Bool
is_later t none = true
is_later t (some last) = ltb_ℤ last t

-- A completed backup that finished after the last one known.
note_finished : Option Time → Scan → Scan
note_finished none scan = scan
note_finished (some t) scan =
    if is_later t scan.last_backup_time
    then record scan { last_backup_time = some t; changed = true }
    else scan

unfoldable pub note_complete : Backup → Scan → Scan
unfolding note_finished
note_complete backup scan =
    if is_complete backup.status.state
    then note_finished backup.status.job_finished_at scan
    else scan

unfoldable pub note_final : Backup → Scan → Scan
unfolding is_final
note_final backup scan =
    if is_final backup.status.state
    then record scan { finished_backups = scan.finished_backups ++ (backup ∷ []) }
    else scan

-- SetControllerReference and Update, for a backup with no controller.
claim : StatusApi → Backup → Result (Unit {0})
claim api backup = do api.set_controller_reference; api.update_backup backup

unfoldable pub claim_if_orphan : StatusApi → Backup → Scan → Result Scan
unfolding claim
claim_if_orphan api backup scan =
    if is_some backup.controller
    then ok scan
    else (do claim api backup; ok (record scan { control_claimed = true }))

-- What the loop has done when it ends, and the error that ended it.
unfoldable pub scan_backups : StatusApi → List Backup → Scan → Scan × Option Error
unfolding note_complete note_final claim_if_orphan
scan_backups api [] scan = (scan, none)
scan_backups api (backup ∷ backups) scan =
    let noted = note_final backup (note_complete backup scan) in
    elim (claim_if_orphan api backup noted) [
      | ok scan' ↦ scan_backups api backups scan'
      | err e ↦ (noted, some e)
    ]

-- The order of the source's `sort.Slice`: a backup that has not started comes first.
abbrev pub starts_before : Option Time → Option Time → Bool
starts_before none t = is_some t
starts_before (some s) none = false
starts_before (some s) (some t) = ltb_ℤ s t

insert_backup : Backup → List Backup → List Backup
insert_backup backup [] = backup ∷ []
insert_backup backup (other ∷ backups) =
    let rest = insert_backup backup backups in
    if starts_before other.status.job_started_at backup.status.job_started_at
    then other ∷ rest
    else backup ∷ other ∷ backups

unfoldable pub sort_backups : List Backup → List Backup
unfolding insert_backup
sort_backups [] = []
sort_backups (backup ∷ backups) = insert_backup backup (sort_backups backups)

-- The finished backups that are deleted, in order.
unfoldable pub surplus : List Backup → List Backup
unfolding sort_backups
surplus backups =
    if ltb 3 (length backups) then take (length backups - 3) (sort_backups backups) else []

unfoldable pub delete_backups : StatusApi → List Backup → Option Error
delete_backups api [] = none
delete_backups api (backup ∷ backups) = elim (api.delete_backup backup) [
  | ok _ ↦ delete_backups api backups
  | err e ↦ some e
]

abbrev is_newer : Option Time → Option Time → Bool
is_newer none known = false
is_newer (some t) known = is_later t known

record_last_backup : StagingSite → Scan → StagingSite × Bool
record_last_backup site scan =
    if is_newer scan.last_backup_time site.status.last_backup_time
    then (set_status site (record site.status { last_backup_time = scan.last_backup_time }), true)
    else (site, scan.changed)

unfoldable pub clean_up : StatusApi → StagingSite → Scan → Updated
unfolding record_last_backup surplus delete_backups
clean_up api site scan =
    let (site', changed) = record_last_backup site scan in
    if scan.control_claimed then record { site = site'; changed = true; error = none } else record {
      site = site';
      changed = changed;
      error = delete_backups api (surplus scan.finished_backups);
    }

abbrev pub start_scan : StagingSite → Bool → Scan
start_scan site changed = record {
  last_backup_time = site.status.last_backup_time;
  changed = changed;
  finished_backups = [];
  control_claimed = false;
}

-- An error of the loop ends the update; else the backups are cleaned up.
unfoldable pub after_scan : StatusApi → StagingSite → Scan → Option Error → Updated
unfolding clean_up
after_scan api site scan (some e) = record { site = site; changed = scan.changed; error = some e }
after_scan api site scan none = clean_up api site scan

unfoldable pub refresh_from_list : StatusApi → StagingSite → Bool → List Backup → Updated
unfolding scan_backups after_scan
refresh_from_list api site changed backups =
    let (scan, failure) = scan_backups api backups (start_scan site changed) in
    after_scan api site scan failure

unfoldable pub refresh_backups : StatusApi → StagingSite → Bool → Updated
unfolding refresh_from_list
refresh_backups api site changed = elim api.list_backups [
  | err e ↦ record { site = site; changed = changed; error = some e }
  | ok backups ↦ refresh_from_list api site changed backups
]
