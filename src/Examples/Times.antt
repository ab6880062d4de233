-- ===== src/Examples/Times.antt =====
-- The times of a small site, and its backups.
use mathlib.Core.List.{Perm}
use kube_stager.Base.{
  ltb_ℤ, ℕ, ◌+◌, ◌*◌, ◌≤◌, ◌<◌, ◌≡◌, refl, ◌⊎◌, some, List, [], ◌∷◌, ◌++◌, bytes, arith, pos, true,
  false, All, length, ◌+ℤ◌, ◌≤ℤ◌, ◌<ℤ◌, ◌&&◌, not,
}
use kube_stager.Api.{Time, StagingSite, Backup, BackupType, JobState}
use kube_stager.Controller.{ok, done, requeue_now}
use kube_stager.Site.Schedule.{
  advance, rounds_to, Clock, get_next_backup_time_for_site, utc_hour, day, sub_time,
  get_ctrl_result_with_recheck_interval,
}
use kube_stager.Site.Schedule.Window.{next_backup_in_window, advance_ends}
use kube_stager.Site.Schedule.Recheck.{recheck_at_earliest, any_due, times_of, IsFirst}
use kube_stager.Site.Backups.{surplus}
use kube_stager.Site.Backups.Cleanup.{keeps_newest_three, NotBefore}
use kube_stager.Site.Ensure.{ensure_times}
use kube_stager.Site.Ensure.Enabled.{times_exact, interval_end, is_past}
use kube_stager.Examples.{demo, meta_of}

abbrev clock : Clock
clock = record { now = pos 5000; today = pos 0 }

abbrev nightly : StagingSite
nightly = record demo { spec = record demo.spec { daily_backup_window_hour = some (pos 3) } }

nightly_example :
    (t : Time) × (get_next_backup_time_for_site clock nightly ≡ ok (some t))
    × (clock.now ≤ℤ t)
    × (t <ℤ clock.now +ℤ pos day)
    × (utc_hour t ≡ 3)
nightly_example =
    next_backup_in_window clock nightly 5000 0 3 (refl, refl, omega arith, omega arith) refl
      (omega arith)

-- From the start of 1970 to five days later.
loop_example :
    ltb_ℤ
      (advance (rounds_to (pos (day * 5 + 7)) (pos 0)) (pos (day * 5 + 7)) (pos 0))
      (pos (day * 5 + 7))
    ≡ false
loop_example = advance_ends (pos (day * 5 + 7)) (pos 0)

-- A site that is disabled, deleted and backed up.
abbrev timed : StagingSite
timed = record demo {
  status = record demo.status {
    disable_at = some (pos 7000);
    delete_at = some (pos 9000);
    next_backup_time = some (pos 6000);
  };
}

recheck_example :
    (any_due (pos 5000) timed ≡ true
      → get_ctrl_result_with_recheck_interval (pos 5000) timed ≡ requeue_now)
    × (any_due (pos 5000) timed ≡ false
        → (times_of timed ≡ [] × (get_ctrl_result_with_recheck_interval (pos 5000) timed ≡ done))
          ⊎ ((m : Time) × IsFirst m (times_of timed)
              × (get_ctrl_result_with_recheck_interval (pos 5000) timed
                  ≡ record { requeue = false; requeue_after = sub_time m (pos 5000) })))
recheck_example = recheck_at_earliest (pos 5000) timed

times_example :
    ((ensure_times (pos 5000) (pos 4000) timed).0.status.disable_at
      ≡ interval_end timed.spec.disable_after (pos 4000))
    × ((ensure_times (pos 5000) (pos 4000) timed).0.status.delete_at
        ≡ interval_end timed.spec.delete_after (pos 4000))
    × ((ensure_times (pos 5000) (pos 4000) timed).0.status.enabled ≡ (
        timed.spec.enabled
        && not (is_past (pos 5000) (interval_end timed.spec.disable_after (pos 4000)))))
    × ((ensure_times (pos 5000) (pos 4000) timed).1 ≡ false
        → (ensure_times (pos 5000) (pos 4000) timed).0 ≡ timed)
times_example = times_exact (pos 5000) (pos 4000) timed

abbrev backup_at : ℕ → Backup
backup_at n = record {
  meta = meta_of (bytes "sched-demo");
  site_name = bytes "demo";
  backup_type = BackupType.scheduled;
  status = record {
    detail = record {
      state = JobState.complete;
      job_started_at = some (pos n);
      job_finished_at = some (pos (n + 5));
    };
    services = [];
  };
}

abbrev four : List Backup
four = backup_at 40 ∷ backup_at 10 ∷ backup_at 30 ∷ backup_at 20 ∷ []

backups_example :
    (length four ≤ 3 → surplus four ≡ [])
    × (3 < length four
        → (kept : List Backup) × Perm (surplus four ++ kept) four
          × (length kept ≡ 3)
          × All (λ deleted. All (NotBefore deleted) kept) (surplus four))
backups_example = keeps_newest_three four
