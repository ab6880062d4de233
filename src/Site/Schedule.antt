-- ===== src/Site/Schedule.antt =====
-- The times that the site controller computes: `ToDuration` of
-- apis/site/v1/stagingsite_helpers.go, `getNextBackupTimeForSite` and
-- `getCtrlResultWithRecheckInterval` of controllers/site/stagingsite_controller.go.
pub mod Window
pub mod Recheck
pub mod Interval
use Prim.Native.Nat.{bit_xor}
use kube_stager.Base.{
  ℕ, zero, suc, ◌+◌, ◌*◌, ◌-◌, ◌/◌, ◌%◌, ◌^◌, Bool, true, false, ◌&&◌, ◌||◌, Option, none, some,
  List, [], ◌∷◌, ◌++◌, Text, bytes, ltb, if◌then◌else◌, is_some, ℤ, pos, negsuc, ◌+ℤ◌, ◌-ℤ◌, ◌*ℤ◌,
  ltb_ℤ, wrap64, pos_part,
}
use kube_stager.Api.{Time, TimeInterval, StagingSite}
use kube_stager.Controller.{Result, ok, err, message, CtrlResult, done, requeue_now}

-- Nanoseconds in a second, a minute, an hour and a day.
abbrev pub second : ℕ
second = 1000000000

abbrev pub minute : ℕ
minute = 60000000000

abbrev pub hour : ℕ
hour = 3600000000000

abbrev pub day : ℕ
day = 86400000000000

-- The arithmetic of `time.Duration` is that of int64.
unfoldable pub to_duration : TimeInterval → ℤ
to_duration r = wrap64 (
    wrap64 (wrap64 (pos minute *ℤ wrap64 r.minutes) +ℤ wrap64 (pos hour *ℤ wrap64 r.hours))
    +ℤ wrap64 (pos day *ℤ wrap64 r.days))

-- fnv.New32a: the hash of the bytes from left to right.
fnv_step : ℕ → ℕ → ℕ
fnv_step h b = (bit_xor h b * 16777619) % 2 ^ 32

fnv_from : ℕ → Text → ℕ
fnv_from h [] = h
fnv_from h (b ∷ s) = fnv_from (fnv_step h b) s

unfoldable pub fnv32a : Text → ℕ
unfolding fnv_from fnv_step
fnv32a s = fnv_from 2166136261 s

-- The clock: an instant, and the day of its calendar date in the clock's own time zone, counted
-- from the first day of 1970.
pub record Clock : Type 0 where
  pub now : Time
  pub today : ℤ

-- The part of an hour at which a site is backed up.
unfoldable pub offset_seconds : Text → ℕ
offset_seconds name = fnv32a name % 3600

-- The instant of a time of day of a date, in UTC.
abbrev pub at_time : ℤ → ℕ → ℕ → ℕ → Time
at_time date h m s = (pos day *ℤ date) +ℤ pos (h * hour + m * minute + s * second)

-- `for nextRunAt.Before(now) { nextRunAt = nextRunAt.Add(24 * time.Hour) }`
unfoldable pub advance : ℕ → Time → Time → Time
advance zero now next_run_at = next_run_at
advance (suc fuel) now next_run_at = elim (ltb_ℤ next_run_at now) [
  | true ↦ advance fuel now (next_run_at +ℤ pos day)
  | false ↦ next_run_at
]

-- As many rounds as the days from the start to now, and one more.
abbrev pub rounds_to : Time → Time → ℕ
rounds_to now start = pos_part (now -ℤ start) / day + 1

-- time.Parse refuses an hour above 23.
next_backup_at : Clock → Text → ℕ → Result (Option Time)
next_backup_at clock name h =
    let offset = offset_seconds name in
    let start = at_time clock.today h (offset / 60) (offset % 60) in
    if ltb 23 h
    then err (message (bytes "hour out of range"))
    else ok (some (advance (rounds_to clock.now start) clock.now start))

window_time : Clock → Text → Option ℤ → Result (Option Time)
unfolding next_backup_at
window_time clock name none = ok none
window_time clock name (some (negsuc _)) = ok none
window_time clock name (some (pos h)) = next_backup_at clock name h

unfoldable pub get_next_backup_time_for_site : Clock → StagingSite → Result (Option Time)
unfolding window_time
get_next_backup_time_for_site clock site =
    window_time clock site.name site.spec.daily_backup_window_hour

-- `t.UTC().Hour()`
unfoldable pub utc_hour : Time → ℕ
utc_hour (pos n) = n % day / hour
utc_hour (negsuc n) = (day - 1 - n % day) / hour

-- `t.Sub(u)`, which stays in the range of int64.
unfoldable pub sub_time : Time → Time → ℤ
sub_time t u =
    let d = t -ℤ u in
    if ltb_ℤ (pos (2 ^ 63 - 1)) d
    then pos (2 ^ 63 - 1)
    else if ltb_ℤ d (negsuc (2 ^ 63 - 1))
    then negsuc (2 ^ 63 - 1)
    else d

-- `sort.Slice` by `Before`.
insert_time : Time → List Time → List Time
insert_time t [] = t ∷ []
insert_time t (u ∷ times) =
    let rest = insert_time t times in if ltb_ℤ u t then u ∷ rest else t ∷ u ∷ times

sort_times : List Time → List Time
unfolding insert_time
sort_times [] = []
sort_times (t ∷ times) = insert_time t (sort_times times)

-- A scheduled time: none, due (before now), or to wait for.
abbrev pub is_due : Time → Option Time → Bool
is_due now none = false
is_due now (some t) = ltb_ℤ t now

abbrev pub scheduled : Option Time → List Time
scheduled none = []
scheduled (some t) = t ∷ []

next_check : Time → List Time → CtrlResult
next_check now [] = done
next_check now (t ∷ _) = record { requeue = false; requeue_after = sub_time t now }

-- The times that count: the one of disabling only while the site is enabled.
abbrev pub disable_time : StagingSite → Option Time
disable_time site = if site.status.enabled then site.status.disable_at else none

unfoldable pub get_ctrl_result_with_recheck_interval : Time → StagingSite → CtrlResult
unfolding sort_times next_check
get_ctrl_result_with_recheck_interval now site =
    if is_due now (disable_time site)
    then requeue_now
    else if is_due now site.status.delete_at
    then requeue_now
    else if is_due now site.status.next_backup_time
    then requeue_now
    else next_check now (
        sort_times (
          scheduled (disable_time site)
          ++ (scheduled site.status.delete_at ++ scheduled site.status.next_backup_time)))
