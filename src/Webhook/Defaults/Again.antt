-- ===== src/Webhook/Defaults/Again.antt =====
-- `Default` of apis/site/v1/stagingsite_webhook.go on a site that it has set.
use kube_stager.Base.{
  or_else, false, Text, is_empty, pos, ℤ, insert, arith, ◌≡◌, refl, sym, subst, inl, inr,
  Bool-cases,
}
use kube_stager.Api.{StagingSite, TimeInterval}
use kube_stager.Controller.{Result, ok, Result-cases}
use kube_stager.Site.Status.{last_spec_change_at}
use kube_stager.Webhook.Defaults.{
  DefaultApi, default_site, default_names, default_password, default_interval,
  is_time_interval_empty, filled,
}

or_else_again :
    (value default : Text) → or_else (or_else value default) default ≡ or_else value default
or_else_again value default = ground arith

default_interval_again :
    (days : ℤ) (i : TimeInterval)
    → is_time_interval_empty (record { never = false; days = days; hours = pos 0; minutes = pos 0 })
      ≡ false
    → default_interval days (default_interval days i) ≡ default_interval days i
unfolding default_interval
default_interval_again days i h = elim (Bool-cases (is_time_interval_empty i)) [
  | inl e ↦ rw e (rw h refl)
  | inr e ↦ rw e (rw e refl)
]

-- The site with the time of its last change.
abbrev pub annotated_at : Text → StagingSite → StagingSite
annotated_at now site = record site {
  meta = record site.meta { annotations = insert last_spec_change_at now site.annotations };
}

module _ (api : DefaultApi) (now : Text) (generate : Result Text) where
  filled_again :
      (site : StagingSite) (password : Text)
      → is_empty password ≡ false
      → default_site
          (record api { now = now; generate = generate })
          (filled (default_names api site) password)
        ≡ ok (annotated_at now (filled (default_names api site) password))
  unfolding default_site default_names default_password filled
  filled_again site password h = rw h (
      rw (or_else_again site.spec.db_name) (
        rw (or_else_again site.spec.domain_prefix) (
          rw (or_else_again site.spec.username) (
            rw (default_interval_again (pos 2) site.spec.disable_after refl)
              (rw (default_interval_again (pos 7) site.spec.delete_after refl) refl)))))

  -- A site that has gone through the defaults once, and has a password since, keeps them: a second
  -- run, at another time and with another generated password, writes the annotation with its time
  -- and changes nothing else.
  pub default_site_again :
      (site defaulted : StagingSite)
      → default_site api site ≡ ok defaulted
      → is_empty defaulted.spec.password ≡ false
      → default_site (record api { now = now; generate = generate }) defaulted
        ≡ ok (annotated_at now defaulted)
  unfolding default_site filled
  default_site_again site defaulted h has_password =
      elim (Result-cases (default_password api (default_names api site).spec.password)) [
        | inr (x, e) ↦ ground arith
        | inl (password, e) ↦
            let same : filled (default_names api site) password ≡ defaulted = ground arith in
            let kept : is_empty password ≡ false =
              subst (λ d. is_empty d.spec.password ≡ false) (sym same) has_password in
            subst
              (λ d.
                default_site (record api { now = now; generate = generate }) d
                ≡ ok (annotated_at now d))
              same (filled_again site password kept)
      ]
