-- ===== src/Task/Redis/Complete.antt =====
-- When `EnsureDatabasesAreCreated` of handlers/task/redis_handler.go answers that it is complete.
use kube_stager.Base.{
  is_nil, ◌≡◌, refl, inl, inr, Bool, none, [], ◌∷◌, arith, ◌&&◌, Assoc, Option-cases,
}
use kube_stager.Api.{RedisDatabase, StagingSite}
use kube_stager.Controller.{ok, Result-cases}
use kube_stager.Task.Database.{RedisApi, created, deleted, updated}
use kube_stager.Task.Changes.{first_free, Changes, changes_for, no_changes}
use kube_stager.Task.Redis.{
  Progress, numbered, written, delete_all, create_all, update_all, apply_changes,
  ensure_databases_are_created,
}

module _ (api : RedisApi) where
  -- A loop with no error has written if it had a database to write.
  delete_all-is_nil :
      (databases : Assoc RedisDatabase) (progress : Progress)
      → (delete_all api databases progress).1 ≡ none
      → is_nil (delete_all api databases progress).0.writes
        ≡ (is_nil databases && is_nil progress.writes)
  unfolding delete_all
  delete_all-is_nil [] progress h = refl
  delete_all-is_nil ((s, d) ∷ rest) progress h = elim (Option-cases (api.accepts (deleted d))) [
    | inl e ↦
        ground
          (arith, delete_all-is_nil rest (record progress { writes = deleted d ∷ progress.writes }))
    | inr (x, e) ↦ ground arith
  ]

  create_all-is_nil :
      (databases : Assoc RedisDatabase) (progress : Progress)
      → (create_all api databases progress).1 ≡ none
      → is_nil (create_all api databases progress).0.writes
        ≡ (is_nil databases && is_nil progress.writes)
  unfolding create_all
  create_all-is_nil [] progress h = refl
  create_all-is_nil ((s, d) ∷ rest) progress h =
      elim (Result-cases (first_free api progress.writes d.spec.environment_config)) [
        | inr (x, e) ↦ ground arith
        | inl (n, e) ↦ elim (Option-cases (api.accepts (created (numbered d n)))) [
          | inr (x, e') ↦ ground arith
          | inl e' ↦
              ground (arith, create_all-is_nil rest (written (created (numbered d n)) s n progress))
        ]
      ]

  update_all-is_nil :
      (databases : Assoc RedisDatabase) (progress : Progress)
      → (update_all api databases progress).1 ≡ none
      → is_nil (update_all api databases progress).0.writes
        ≡ (is_nil databases && is_nil progress.writes)
  unfolding update_all
  update_all-is_nil [] progress h = refl
  update_all-is_nil ((s, d) ∷ rest) progress h = elim (Option-cases (api.accepts (updated d))) [
    | inl e ↦
        ground
          (arith, update_all-is_nil rest (written (updated d) s d.spec.database_number progress))
    | inr (x, e) ↦ ground arith
  ]

  apply_changes-is_nil :
      (changes : Changes) (progress : Progress)
      → (apply_changes api changes progress).1 ≡ none
      → is_nil (apply_changes api changes progress).0.writes
        ≡ (no_changes changes && is_nil progress.writes)
  unfolding apply_changes
  apply_changes-is_nil changes progress h =
      let done_deleting = delete_all api changes.to_delete progress in
      let done_creating = create_all api changes.to_create done_deleting.0 in
      elim (Option-cases done_deleting.1) [
        | inr (x, e) ↦ ground arith
        | inl e ↦ elim (Option-cases done_creating.1) [
          | inr (x, e') ↦ ground arith
          | inl e' ↦ ground (
            arith,
            delete_all-is_nil changes.to_delete progress,
            create_all-is_nil changes.to_create done_deleting.0,
            update_all-is_nil changes.to_update done_creating.0,
          )
        ]
      ]

  -- A run that ends without an error answers that the databases are complete exactly where it has
  -- written nothing.
  pub complete_iff_nothing_written :
      (site : StagingSite) (complete : Bool)
      → (ensure_databases_are_created api site).1 ≡ ok complete
      → is_nil (ensure_databases_are_created api site).0.writes ≡ complete
  unfolding ensure_databases_are_created
  complete_iff_nothing_written site complete h =
      let start : Progress = record { writes = []; site = site } in
      elim (Result-cases (changes_for api site)) [
        | inr (x, e) ↦ ground arith
        | inl (changes, e) ↦ elim (Option-cases (apply_changes api changes start).1) [
          | inr (x, e') ↦ ground arith
          | inl e' ↦ ground (arith, apply_changes-is_nil changes start e')
        ]
      ]
