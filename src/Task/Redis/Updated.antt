-- ===== src/Task/Redis/Updated.antt =====
-- The numbers of the redis databases that `EnsureDatabasesAreCreated` updates.
use kube_stager.Base.{
  Bool, refl, Option, none, some, [], ◌∷◌, Assoc, All, ◌≡◌, inl, inr, Option-cases,
}
use kube_stager.Api.{RedisDatabase, StagingSite}
use kube_stager.Controller.{ok, Error, Result-cases}
use kube_stager.Task.Database.{Write, deleted, created, updated, RedisApi}
use kube_stager.Task.Changes.{no_changes, Changes, first_free, changes_for}
use kube_stager.Task.Changes.Updates.{IsSearched, changes_for-AllOf}
use kube_stager.Task.Redis.{
  Progress, then_run, answer_of, numbered, written, delete_all, create_all, update_all,
  apply_changes, ensure_databases_are_created,
}

module _ (api : RedisApi) where
  -- An update keeps the number 0, though a free number has been found. Nothing of other writes.
  abbrev pub IsUnnumbered : Write → Type 0
  IsUnnumbered (updated database) = IsSearched api database
  IsUnnumbered (created _) = Unit
  IsUnnumbered (deleted _) = Unit

  abbrev AllUnnumbered : Progress × Option Error → Type 0
  AllUnnumbered result = All IsUnnumbered result.0.writes

  delete_all-AllUnnumbered :
      (m : Assoc RedisDatabase) (progress : Progress)
      → All IsUnnumbered progress.writes
      → AllUnnumbered (delete_all api m progress)
  unfolding delete_all
  delete_all-AllUnnumbered [] progress h = h
  delete_all-AllUnnumbered ((service, database) ∷ m) progress h =
      elim (Option-cases (api.accepts (deleted database))) [
        | inr (x, e) ↦ rw (e, delete_all) h
        | inl e ↦
            rw (e, delete_all)
              (delete_all-AllUnnumbered m
                (record progress { writes = deleted database ∷ progress.writes }) (tt, h))
      ]

  create_all-AllUnnumbered :
      (m : Assoc RedisDatabase) (progress : Progress)
      → All IsUnnumbered progress.writes
      → AllUnnumbered (create_all api m progress)
  unfolding create_all
  create_all-AllUnnumbered [] progress h = h
  create_all-AllUnnumbered ((service, database) ∷ m) progress h =
      elim (Result-cases (first_free api progress.writes database.spec.environment_config)) [
        | inr (x, e) ↦ rw (e, create_all) h
        | inl (n, e) ↦ elim (Option-cases (api.accepts (created (numbered database n)))) [
          | inr (x, e') ↦ rw (e, create_all) (rw e' h)
          | inl e' ↦
              rw (e, create_all)
                (rw e' (
                  create_all-AllUnnumbered m
                    (written (created (numbered database n)) service n progress) (tt, h)))
        ]
      ]

  update_all-AllUnnumbered :
      (m : Assoc RedisDatabase) (progress : Progress)
      → All (λ kv. IsSearched api kv.1) m
      → All IsUnnumbered progress.writes
      → AllUnnumbered (update_all api m progress)
  unfolding update_all
  update_all-AllUnnumbered [] progress searched h = h
  update_all-AllUnnumbered ((service, database) ∷ m) progress searched h =
      elim (Option-cases (api.accepts (updated database))) [
        | inr (x, e) ↦ rw (e, update_all) h
        | inl e ↦
            rw (e, update_all)
              (update_all-AllUnnumbered m
                (written (updated database) service database.spec.database_number progress)
                searched.1 (searched.0, h))
      ]

  then_run-AllUnnumbered :
      (next : Progress → Progress × Option Error) (result : Progress × Option Error)
      → ((progress : Progress) → All IsUnnumbered progress.writes → AllUnnumbered (next progress))
      → AllUnnumbered result
      → AllUnnumbered (then_run next result)
  then_run-AllUnnumbered next (progress, some e) goes_on h = h
  then_run-AllUnnumbered next (progress, none) goes_on h = goes_on progress h

  apply_changes-AllUnnumbered :
      (changes : Changes) (progress : Progress)
      → All (λ kv. IsSearched api kv.1) changes.to_update
      → All IsUnnumbered progress.writes
      → AllUnnumbered (apply_changes api changes progress)
  unfolding apply_changes
  apply_changes-AllUnnumbered changes progress searched h =
      then_run-AllUnnumbered (update_all api changes.to_update)
        (then_run (create_all api changes.to_create) (delete_all api changes.to_delete progress))
        (λ p. update_all-AllUnnumbered changes.to_update p searched)
        (then_run-AllUnnumbered (create_all api changes.to_create)
          (delete_all api changes.to_delete progress) (create_all-AllUnnumbered changes.to_create)
          (delete_all-AllUnnumbered changes.to_delete progress h))

  answer_of-writes :
      (complete : Bool) (result : Progress × Option Error)
      → (answer_of complete result).0 ≡ result.0
  answer_of-writes complete (progress, none) = refl
  answer_of-writes complete (progress, some e) = refl

  -- If setting the owner of a database keeps its spec, each redis database that a run updates is written
  -- with the number 0, although a free number has been found for it in its environment; also a run
  -- that ends in an error has written no other.
  pub updated_number_is_zero :
      (site : StagingSite)
      → ((d d' : RedisDatabase) → api.set_controller_reference d ≡ ok d' → d'.spec ≡ d.spec)
      → All IsUnnumbered (ensure_databases_are_created api site).0.writes
  unfolding ensure_databases_are_created
  updated_number_is_zero site keeps = elim (Result-cases (changes_for api site)) [
    | inr (x, e) ↦ rw (e, ensure_databases_are_created) tt
    | inl (changes, e) ↦
        let start : Progress = record { writes = []; site = site } in
        rw (e, ensure_databases_are_created)
          (rw (answer_of-writes (no_changes changes) (apply_changes api changes start)) (
            apply_changes-AllUnnumbered changes start (changes_for-AllOf api keeps site changes e)
              tt))
  ]
