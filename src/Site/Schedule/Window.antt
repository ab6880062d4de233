-- ===== src/Site/Schedule/Window.antt =====
-- The loop of `getNextBackupTimeForSite` (controllers/site/stagingsite_controller.go), and its result.
use kube_stager.Base.{
  ℕ, zero, suc, ◌+◌, ◌*◌, ◌/◌, ◌%◌, ◌≤◌, ◌<◌, ◌≡◌, inl, inr, false, some, Text, ap, ◌∙◌, arith, ltb,
  pos, ◌+ℤ◌, ◌*ℤ◌, ltb_ℤ, ◌≤ℤ◌, ◌<ℤ◌, pos_part, neg_part, Bool-cases, lt_of_ltb_ℤ, le_of_ltb_ℤ,
  ltb_ℤ_of_le, +ℤ_parts, -ℤ_parts,
}
use kube_stager.Api.{Time, StagingSite}
use kube_stager.Controller.{ok}
use kube_stager.Site.Schedule.{
  Clock, second, minute, hour, day, advance, rounds_to, at_time, next_backup_at, window_time,
  offset_seconds, utc_hour, get_next_backup_time_for_site,
}

-- With rounds for the whole distance the loop ends by its test.
advance_reaches :
    (fuel : ℕ) (now t : Time)
    → pos_part now + neg_part t < fuel * day + pos_part t + neg_part now
    → now ≤ℤ advance fuel now t
unfolding advance
advance_reaches zero now t h = omega arith
advance_reaches (suc fuel) now t h = elim (Bool-cases (ltb_ℤ t now)) [
  | inl before ↦
      rw (before, advance)
        (advance_reaches fuel now (t +ℤ pos day) (omega (arith, +ℤ_parts t (pos day))))
  | inr reached ↦ rw (reached, advance) (le_of_ltb_ℤ t now reached)
]

advance_below :
    (fuel : ℕ) (now t : Time) → t <ℤ now +ℤ pos day → advance fuel now t <ℤ now +ℤ pos day
unfolding advance
advance_below zero now t h = h
advance_below (suc fuel) now t h = elim (Bool-cases (ltb_ℤ t now)) [
  | inl before ↦
      rw (before, advance)
        (advance_below fuel now (t +ℤ pos day)
          (omega (arith, +ℤ_parts t (pos day), +ℤ_parts now (pos day), lt_of_ltb_ℤ t now before)))
  | inr reached ↦ rw (reached, advance) h
]

-- The distance, in rounds.
enough_rounds :
    (now t : Time) → pos_part now + neg_part t < rounds_to now t * day + pos_part t + neg_part now
enough_rounds now t = omega (arith, -ℤ_parts now t)

-- From any start, the loop ends because its time is no longer before now: the rounds suffice.
pub advance_ends : (now start : Time) → ltb_ℤ (advance (rounds_to now start) now start) now ≡ false
advance_ends now start =
    ltb_ℤ_of_le (advance (rounds_to now start) now start) now
      (advance_reaches (rounds_to now start) now start (enough_rounds now start))

at_time_pos :
    (d h m s : ℕ) → at_time (pos d) h m s ≡ pos (day * d + (h * hour + m * minute + s * second))
unfolding ◌+ℤ◌ ◌*ℤ◌
at_time_pos d h m s = ground arith

-- The clock shows a date of the years from 1970 on, in UTC.
abbrev pub IsUtc : Clock → ℕ → ℕ → Type 0
IsUtc clock n d = (clock.now ≡ pos n) × (clock.today ≡ pos d) × (day * d ≤ n) × (n < day * d + day)

-- The loop adds whole days.
add_day : (t k : ℕ) → pos t +ℤ pos day ≡ pos (t + day)
unfolding ◌+ℤ◌
add_day t k = ground arith

advance_steps :
    (fuel : ℕ) (now : Time) (t : ℕ) → (k : ℕ) × (advance fuel now (pos t) ≡ pos (t + k * day))
unfolding advance
advance_steps zero now t = (0, ap pos (omega arith))
advance_steps (suc fuel) now t = elim (Bool-cases (ltb_ℤ (pos t) now)) [
  | inl before ↦
      let (k, e) = advance_steps fuel now (t + day) in
      (suc k, rw (before, advance) (rw (add_day t k) (e ∙ ap pos (omega arith))))
  | inr reached ↦ (0, rw (reached, advance) (ap pos (omega arith)))
]

-- The instant of the window on the clock's date, in nanoseconds.
abbrev start_of : ℕ → ℕ → Text → ℕ
start_of d h name =
    let offset = offset_seconds name in
    day * d + (h * hour + offset / 60 * minute + offset % 60 * second)

offset_bound : (name : Text) → offset_seconds name < 3600
unfolding offset_seconds
offset_bound name = omega arith

utc_hour-at :
    (d h k o : ℕ)
    → h ≤ 23
    → o < 3600
    → utc_hour (pos (day * d + (h * hour + o / 60 * minute + o % 60 * second) + k * day)) ≡ h
unfolding utc_hour
utc_hour-at d h k o bound less = omega arith

window_equation :
    (clock : Clock) (name : Text) (d h : ℕ)
    → clock.today ≡ pos d
    → h ≤ 23
    → next_backup_at clock name h
      ≡ ok (
          some (
            advance
              (rounds_to clock.now (pos (start_of d h name)))
              clock.now
              (pos (start_of d h name))))
unfolding next_backup_at
window_equation clock name d h today bound =
    let small : ltb 23 h ≡ false = ground arith in
    let offset = offset_seconds name in
    rw (small, today) (rw (at_time_pos d h (offset / 60) (offset % 60)))

-- In UTC, a site with an hour from 0 to 23 is given a next backup: not before now, less than a day
-- after now, and in that hour.
pub next_backup_in_window :
    (clock : Clock) (site : StagingSite) (n d h : ℕ)
    → IsUtc clock n d
    → site.spec.daily_backup_window_hour ≡ some (pos h)
    → h ≤ 23
    → (t : Time) × (get_next_backup_time_for_site clock site ≡ ok (some t))
      × (clock.now ≤ℤ t)
      × (t <ℤ clock.now +ℤ pos day)
      × (utc_hour t ≡ h)
unfolding get_next_backup_time_for_site window_time
next_backup_in_window clock site n d h utc spec bound =
    let start = start_of d h site.name in
    let (k, e) = advance_steps (rounds_to clock.now (pos start)) clock.now start in
    (
      advance (rounds_to clock.now (pos start)) clock.now (pos start),
      rw spec (window_equation clock site.name d h utc.1 bound),
      advance_reaches (rounds_to clock.now (pos start)) clock.now (pos start)
          (enough_rounds clock.now (pos start)),
      advance_below (rounds_to clock.now (pos start)) clock.now (pos start)
          (rw (utc.0, add_day n 0) (omega (arith, utc.2, offset_bound site.name))),
      rw e (utc_hour-at d h k (offset_seconds site.name) bound (offset_bound site.name)),
    )
