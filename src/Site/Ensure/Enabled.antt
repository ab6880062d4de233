-- ===== src/Site/Ensure/Enabled.antt =====
-- The times of disabling and deleting, and whether the site is enabled.
use kube_stager.Base.{
  ◌≡◌, ap, ◌∙◌, Bool, true, false, not, ◌&&◌, ◌||◌, Option, none, some, arith, ℤ, ◌+ℤ◌, eq_ℤ, ltb_ℤ,
  eq_of_parts, if◌then◌else◌,
}
use kube_stager.Api.{Time, TimeInterval, StagingSite}
use kube_stager.Site.Schedule.{to_duration}
use kube_stager.Site.Status.{
  end_of, refresh_disable_at, refresh_delete_at, refresh_enabled, refresh_last_applied, is_time,
  set_status, expected_enabled, is_after,
}
use kube_stager.Site.Ensure.{ensure_times}

-- When an interval that begins at an instant ends.
abbrev pub interval_end : TimeInterval → Time → Option Time
interval_end interval since = if interval.never then none else some (since +ℤ to_duration interval)

eq_ℤ→eq : (a b : ℤ) → eq_ℤ a b ≡ true → a ≡ b
eq_ℤ→eq a b h = eq_of_parts a b (ground arith)

is_time→eq : (t : Time) (current : Option Time) → is_time t current ≡ true → current ≡ some t
is_time→eq t none h = ground arith
is_time→eq t (some u) h = ground (arith, eq_ℤ→eq u t h)

end_of-exact :
    (interval : TimeInterval) (since : Time) (current : Option Time)
    → (end_of interval since current).0 ≡ interval_end interval since
unfolding end_of
end_of-exact interval since current =
    ground (arith, is_time→eq (since +ℤ to_duration interval) current)

end_of-unchanged :
    (interval : TimeInterval) (since : Time) (current : Option Time)
    → (end_of interval since current).1 ≡ false
    → (end_of interval since current).0 ≡ current
unfolding end_of
end_of-unchanged interval since current h = ground arith

-- Whether the site is past its time of disabling.
abbrev pub is_past : Time → Option Time → Bool
is_past now none = false
is_past now (some t) = not (ltb_ℤ now t)

module _ (now since : Time) (site : StagingSite) where
  disable_at-exact :
      (refresh_disable_at since site).0
      ≡ set_status site
          (record site.status { disable_at = interval_end site.spec.disable_after since })
  unfolding refresh_disable_at
  disable_at-exact =
      ground (arith, end_of-exact site.spec.disable_after since site.status.disable_at)

  delete_at-exact :
      (refresh_delete_at since site).0
      ≡ set_status site
          (record site.status { delete_at = interval_end site.spec.delete_after since })
  unfolding refresh_delete_at
  delete_at-exact = ground (arith, end_of-exact site.spec.delete_after since site.status.delete_at)

  disable_at-unchanged :
      (refresh_disable_at since site).1 ≡ false → (refresh_disable_at since site).0 ≡ site
  unfolding refresh_disable_at
  disable_at-unchanged h =
      ground (arith, end_of-unchanged site.spec.disable_after since site.status.disable_at)

  delete_at-unchanged :
      (refresh_delete_at since site).1 ≡ false → (refresh_delete_at since site).0 ≡ site
  unfolding refresh_delete_at
  delete_at-unchanged h =
      ground (arith, end_of-unchanged site.spec.delete_after since site.status.delete_at)

  enabled-exact :
      let site' = (refresh_enabled now site).0 in
      (site'.status.enabled ≡ expected_enabled now site)
      × (site'.status.disable_at ≡ site.status.disable_at)
      × (site'.status.delete_at ≡ site.status.delete_at)
  unfolding refresh_enabled
  enabled-exact = (ground arith, ground arith, ground arith)

  enabled-unchanged : (refresh_enabled now site).1 ≡ false → (refresh_enabled now site).0 ≡ site
  unfolding refresh_enabled
  enabled-unchanged h = ground arith

  last_applied-exact :
      let site' = (refresh_last_applied since site).0 in
      (site'.status.enabled ≡ site.status.enabled)
      × (site'.status.disable_at ≡ site.status.disable_at)
      × (site'.status.delete_at ≡ site.status.delete_at)
  unfolding refresh_last_applied
  last_applied-exact = (ground arith, ground arith, ground arith)

  last_applied-unchanged :
      (refresh_last_applied since site).1 ≡ false → (refresh_last_applied since site).0 ≡ site
  unfolding refresh_last_applied
  last_applied-unchanged h = ground arith

or_false : (a b : Bool) → (a || b) ≡ false → (a ≡ false) × (b ≡ false)
or_false a b h = ground arith

expected-eq :
    (now : Time) (enabled : Bool) (t : Option Time)
    → (enabled && is_after now t) ≡ (enabled && not (is_past now t))
expected-eq now enabled t = ground arith

abbrev delete_set : Time → StagingSite → StagingSite
delete_set since site =
    set_status site (record site.status { delete_at = interval_end site.spec.delete_after since })

unchanged :
    (now since : Time) (site : StagingSite)
    → (ensure_times now since site).1 ≡ false
    → (ensure_times now since site).0 ≡ site
unfolding ensure_times
unchanged now since site h =
    let site₁ = (refresh_disable_at since site).0 in
    let site₂ = (refresh_delete_at since site₁).0 in
    let site₃ = (refresh_enabled now site₂).0 in
    let f₁ = or_false (refresh_disable_at since site).1 _ h in
    let f₂ = or_false (refresh_delete_at since site₁).1 _ f₁.1 in
    let f₃ = or_false (refresh_enabled now site₂).1 _ f₂.1 in
    last_applied-unchanged now since site₃ f₃.1
    ∙ enabled-unchanged now since site₂ f₃.0
    ∙ delete_at-unchanged now since site₁ f₂.0
    ∙ disable_at-unchanged now since site f₁.0

-- After the steps on the times: the site is disabled, and deleted, when its intervals since the last
-- change of the spec end, and never where they say never; it is enabled exactly if its spec says so
-- and its time of disabling is not reached; and if nothing is reported as changed, it is the same
-- site.
pub times_exact :
    (now since : Time) (site : StagingSite)
    → let (site', changed) = ensure_times now since site in
      (site'.status.disable_at ≡ interval_end site.spec.disable_after since)
      × (site'.status.delete_at ≡ interval_end site.spec.delete_after since)
      × (site'.status.enabled
          ≡ (site.spec.enabled && not (is_past now (interval_end site.spec.disable_after since))))
      × (changed ≡ false → site' ≡ site)
unfolding ensure_times
times_exact now since site =
    let site₁ = (refresh_disable_at since site).0 in
    let site₂ = (refresh_delete_at since site₁).0 in
    let site₃ = (refresh_enabled now site₂).0 in
    let e₁ = disable_at-exact now since site in
    let e₂ = delete_at-exact now since site₁ in
    let e₃ = enabled-exact now since site₂ in
    let e₄ = last_applied-exact now since site₃ in
    (
      e₄.1
          ∙ e₃.1
          ∙ ap (λ (s : StagingSite). s.status.disable_at) e₂
          ∙ ap (λ (s : StagingSite). s.status.disable_at) e₁,
      e₄.2
          ∙ e₃.2
          ∙ ap (λ (s : StagingSite). s.status.delete_at) e₂
          ∙ ap (λ (s : StagingSite). interval_end s.spec.delete_after since) e₁,
      e₄.0
          ∙ e₃.0
          ∙ ap (expected_enabled now) e₂
          ∙ ap (λ (s : StagingSite). expected_enabled now (delete_set since s)) e₁
          ∙ expected-eq now site.spec.enabled (interval_end site.spec.disable_after since),
      unchanged now since site,
    )
