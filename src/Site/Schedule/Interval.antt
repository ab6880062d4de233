-- ===== src/Site/Schedule/Interval.antt =====
-- The length of a time interval.
use kube_stager.Base.{
  ℕ, ◌+◌, ◌*◌, ◌-◌, ◌≤◌, ◌^◌, ◌≡◌, Bool, arith, pos, ◌+ℤ◌, ◌*ℤ◌, wrap64, wrap64_id,
}
use kube_stager.Site.Schedule.{minute, hour, day, to_duration}

wrap_small : (n : ℕ) → n ≤ 2 ^ 63 - 1 → wrap64 (pos n) ≡ pos n
wrap_small n h = wrap64_id (pos n) h (omega arith)

mul_pos : (a b : ℕ) → pos a *ℤ pos b ≡ pos (a * b)
unfolding ◌*ℤ◌
mul_pos a b = ground arith

add_pos : (a b : ℕ) → pos a +ℤ pos b ≡ pos (a + b)
unfolding ◌+ℤ◌
add_pos a b = ground arith

-- An interval whose days, hours and minutes are not negative, and whose length in nanoseconds fits
-- an int64, has the sum of the three amounts for its duration: nothing wraps around.
pub to_duration_additive :
    (never : Bool) (d h m : ℕ)
    → minute * m + hour * h + day * d ≤ 2 ^ 63 - 1
    → to_duration (record { never = never; days = pos d; hours = pos h; minutes = pos m })
      ≡ pos (minute * m + hour * h + day * d)
unfolding to_duration
to_duration_additive never d h m fits = simp (
  wrap_small m (omega arith),
  wrap_small h (omega arith),
  wrap_small d (omega arith),
  mul_pos,
  wrap_small (minute * m) (omega arith),
  wrap_small (hour * h) (omega arith),
  wrap_small (day * d) (omega arith),
  add_pos,
  wrap_small (minute * m + hour * h) (omega arith),
  wrap_small (minute * m + hour * h + day * d) fits,
)
