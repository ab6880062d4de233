-- ===== src/Site/Stages/Gates.antt =====
-- The gates between the stages of `doReconcile` (controllers/site/stagingsite_controller.go).
use kube_stager.Base.{
  ◌≡◌, refl, inl, inr, Bool, true, false, none, some, arith, Option-cases, ◌||◌, ◌&&◌, ◌≢◌, [], ◌∷◌,
}
use kube_stager.Api.{StagingSite}
use kube_stager.Controller.{done, ok, Result-cases}
use kube_stager.Site.Status.{Updated}
use kube_stager.Site.Saving.{SiteApi, Handlers, Handler, SiteOutcome}
use kube_stager.Site.Saving.Consistency.{with_handlers, save_site-with_handlers}
use kube_stager.Site.Stages.{
  after_stage, gate, ensure_configs_are_up_to_date, ensure_databases_are_created, with_migrations,
  after_initialisation, after_configs, run_migrations, run_initialisation, run_configs, run_stages,
  is_created, is_migrated, is_initialised, ensure_database_migration_jobs_are_created,
  ensure_databases_are_initialised, run_checks,
}

abbrev pub with_objects : Handlers → Handler → Handler → Handlers
with_objects handlers workloads networking = record handlers {
  workloads = workloads;
  networking = networking;
}

-- The handler never finds its part complete.
abbrev pub IsIncomplete : Handler → Type 0
IsIncomplete handler = (site : StagingSite) → (handler site).1 ≢ ok true

module _ (flag : StagingSite → Bool) (set_flag : StagingSite → Bool → StagingSite)
    (flag-set_flag : (site : StagingSite) (b : Bool) → flag (set_flag site b) ≡ b) where
  -- Checks that end in an incomplete part leave the flag unset.
  run_checks-unset :
      (a b : Handler) (site : StagingSite)
      → IsIncomplete b
      → (run_checks flag set_flag (a ∷ b ∷ []) site).1 ≡ none
      → flag (run_checks flag set_flag (a ∷ b ∷ []) site).0 ≡ false
  unfolding run_checks
  run_checks-unset a b site incomplete h = elim (Result-cases (a site).1) [
    | inr (x, e) ↦ ground arith
    | inl (c, e) ↦
        let site' = set_flag (a site).0 (flag (a site).0 && c) in
        elim (Result-cases (b site').1) [
          | inr (x, e') ↦ ground arith
          | inl (c', e') ↦
              ground (arith, incomplete site', flag-set_flag (b site').0 (flag (b site').0 && c'))
        ]
  ]

still_migrating :
    (handlers : Handlers) (site : StagingSite)
    → IsIncomplete handlers.migration_jobs_complete
    → (ensure_database_migration_jobs_are_created handlers site).error ≡ none
    → is_migrated (ensure_database_migration_jobs_are_created handlers site).site ≡ false
unfolding ensure_database_migration_jobs_are_created
still_migrating handlers site incomplete h = ground (
  arith,
  run_checks-unset is_migrated with_migrations (λ _ _. refl) handlers.migration_jobs_created
      handlers.migration_jobs_complete (with_migrations site true) incomplete,
)

module _ (api : SiteApi) (workloads networking : Handler) where
  abbrev pub other : SiteApi
  other = with_handlers api (with_objects api.handlers workloads networking)

  after_stage-same :
      (changed : Bool) (updated : Updated) (next next' : Bool → StagingSite → SiteOutcome)
      → ((b : Bool) (site : StagingSite) → next' b site ≡ next b site)
      → after_stage other changed updated next' ≡ after_stage api changed updated next
  after_stage-same changed updated next next' same = elim (Option-cases updated.error) [
    | inl e ↦ ground (arith, same (changed || updated.changed) updated.site)
    | inr (x, e) ↦ ground (
      arith,
      save_site-with_handlers api (with_objects api.handlers workloads networking)
          (changed || updated.changed) updated.site done (some x),
    )
  ]

  gate-same :
      (is_open changed : Bool) (site : StagingSite) (next next' : SiteOutcome)
      → next' ≡ next
      → gate other is_open changed site next' ≡ gate api is_open changed site next
  gate-same true changed site next next' same = same
  gate-same false changed site next next' same =
      save_site-with_handlers api (with_objects api.handlers workloads networking) changed site done
        none

  module _ (incomplete : IsIncomplete api.migration_jobs_complete) where
    run_migrations-same :
        (changed : Bool) (site : StagingSite)
        → run_migrations other changed site ≡ run_migrations api changed site
    unfolding run_migrations ensure_database_migration_jobs_are_created
    run_migrations-same changed site =
        let updated = ensure_database_migration_jobs_are_created api.handlers site in
        elim (Option-cases updated.error) [
          | inl e ↦ ground (
            arith,
            still_migrating api.handlers site incomplete e,
            save_site-with_handlers api (with_objects api.handlers workloads networking)
                (changed || updated.changed) updated.site done none,
          )
          | inr (x, e) ↦ ground (
            arith,
            save_site-with_handlers api (with_objects api.handlers workloads networking)
                (changed || updated.changed) updated.site done (some x),
          )
        ]

    run_initialisation-same :
        (changed : Bool) (site : StagingSite)
        → run_initialisation other changed site ≡ run_initialisation api changed site
    unfolding run_initialisation ensure_databases_are_initialised
    run_initialisation-same changed site =
        after_stage-same changed (ensure_databases_are_initialised api.handlers site)
          (after_initialisation api) (after_initialisation other)
          (λ b s.
            gate-same (is_initialised s) b s (run_migrations api b s) (run_migrations other b s)
              (run_migrations-same b s))

    run_configs-same :
        (changed : Bool) (site : StagingSite)
        → run_configs other changed site ≡ run_configs api changed site
    unfolding run_configs
    run_configs-same changed site =
        after_stage-same changed (ensure_configs_are_up_to_date api.handlers site)
          (after_configs api) (after_configs other)
          (λ b s.
            gate-same (s.status.configs_are_created && is_created s) b s
              (run_initialisation api b s) (run_initialisation other b s)
              (run_initialisation-same b s))

    pub run_stages-same : (site : StagingSite) → run_stages other site ≡ run_stages api site
    unfolding run_stages ensure_databases_are_created
    run_stages-same site =
        after_stage-same false (ensure_databases_are_created api.handlers site) (run_configs api)
          (run_configs other) run_configs-same
