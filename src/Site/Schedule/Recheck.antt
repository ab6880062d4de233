-- ===== src/Site/Schedule/Recheck.antt =====
-- When the site controller looks at a site again.
use kube_stager.Base.{
  ◌≡◌, refl, ◌⊎◌, inl, inr, true, false, ◌||◌, List, [], ◌∷◌, ◌++◌, arith, ltb_ℤ, ◌≤ℤ◌, lt_of_ltb_ℤ,
  le_of_ltb_ℤ, All, All-map, Among, Bool-cases, Bool,
}
use kube_stager.Api.{Time, StagingSite}
use kube_stager.Controller.{done, requeue_now}
use kube_stager.Site.Schedule.{
  insert_time, sort_times, next_check, is_due, scheduled, disable_time, sub_time,
  get_ctrl_result_with_recheck_interval,
}

-- The times that the site waits for.
abbrev pub times_of : StagingSite → List Time
times_of site =
    scheduled (disable_time site)
    ++ (scheduled site.status.delete_at ++ scheduled site.status.next_backup_time)

abbrev pub IsFirst : Time → List Time → Type 0
IsFirst m times = Among m times × All (λ u. m ≤ℤ u) times

Head : List Time → List Time → Type 0
Head times [] = times ≡ []
Head times (m ∷ _) = IsFirst m times

insert-Head :
    (t : Time) (times sorted : List Time)
    → Head times sorted
    → Head (t ∷ times) (insert_time t sorted)
unfolding insert_time Head
insert-Head t times [] h = rw h (inl refl, (omega arith, tt))
insert-Head t times (m ∷ rest) h = elim (Bool-cases (ltb_ℤ m t)) [
  | inl less ↦ rw less (inr h.0, (omega (arith, lt_of_ltb_ℤ m t less), h.1))
  | inr more ↦ rw more (
    inl refl,
    (
      omega arith,
      All-map (λ u. m ≤ℤ u) (λ u. t ≤ℤ u) times (λ u k. omega (arith, le_of_ltb_ℤ m t more)) h.1,
    ),
  )
]

sort-Head : (times : List Time) → Head times (sort_times times)
unfolding sort_times Head
sort-Head [] = refl
sort-Head (t ∷ times) = insert-Head t times (sort_times times) (sort-Head times)

next_check-IsFirst :
    (now : Time) (times sorted : List Time)
    → Head times sorted
    → (times ≡ [] × (next_check now sorted ≡ done))
      ⊎ ((m : Time) × IsFirst m times
          × (next_check now sorted ≡ record { requeue = false; requeue_after = sub_time m now }))
unfolding next_check Head
next_check-IsFirst now times [] h = inl (h, refl)
next_check-IsFirst now times (m ∷ rest) h = inr (m, h, refl)

abbrev pub any_due : Time → StagingSite → Bool
any_due now site =
    is_due now (disable_time site)
    || (is_due now site.status.delete_at || is_due now site.status.next_backup_time)

recheck_due :
    (now : Time) (site : StagingSite)
    → any_due now site ≡ true
    → get_ctrl_result_with_recheck_interval now site ≡ requeue_now
unfolding get_ctrl_result_with_recheck_interval
recheck_due now site h = ground arith

recheck_wait :
    (now : Time) (site : StagingSite)
    → any_due now site ≡ false
    → get_ctrl_result_with_recheck_interval now site ≡ next_check now (sort_times (times_of site))
unfolding get_ctrl_result_with_recheck_interval
recheck_wait now site h = ground arith

-- If the time to disable an enabled site, to delete it or to back it up is past, the site is
-- requeued at once. Else, with no such time there is no recheck, and with one the recheck comes
-- exactly at the earliest of those that are set (up to the range of an int64 of nanoseconds).
pub recheck_at_earliest :
    (now : Time) (site : StagingSite)
    → (any_due now site ≡ true → get_ctrl_result_with_recheck_interval now site ≡ requeue_now)
      × (any_due now site ≡ false
          → (times_of site ≡ [] × (get_ctrl_result_with_recheck_interval now site ≡ done))
            ⊎ ((m : Time) × IsFirst m (times_of site)
                × (get_ctrl_result_with_recheck_interval now site
                    ≡ record { requeue = false; requeue_after = sub_time m now })))
recheck_at_earliest now site = (
  recheck_due now site,
  (λ h. rw (recheck_wait now site h) (
      next_check-IsFirst now (times_of site) (sort_times (times_of site))
        (sort-Head (times_of site)))),
)
