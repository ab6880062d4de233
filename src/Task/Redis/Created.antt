-- ===== src/Task/Redis/Created.antt =====
-- The numbers that `EnsureDatabasesAreCreated` of handlers/task/redis_handler.go gives out.
use kube_stager.Base.{
  ℕ, ◌≡◌, refl, inl, inr, Bool, true, false, List, [], ◌∷◌, arith, ◌&&◌, Text, text_eq, text_eq_iff,
  ◌==◌, All, Assoc, Option-cases,
}
use kube_stager.Api.{RedisDatabase, StagingSite, EnvironmentConfig}
use kube_stager.Controller.{Result, ok, err, Result-cases}
use kube_stager.Task.Allocation.{get_first_free_database_in_environment}
use kube_stager.Task.Allocation.Free.{is_reserved, first_available-cases}
use kube_stager.Task.Database.{RedisApi, Write, created, deleted, updated}
use kube_stager.Task.Changes.{first_free, Changes, changes_for}
use kube_stager.Task.Redis.{
  Progress, numbered, written, delete_all, create_all, update_all, apply_changes,
  ensure_databases_are_created,
}

-- The database has the environment and the number of one that was created.
unfoldable pub collides : RedisDatabase → Write → Bool
collides d (created d') =
    text_eq d.spec.environment_config.environment d'.spec.environment_config.environment
    && (d.spec.database_number == d'.spec.database_number)
collides d (deleted _) = false
collides d (updated _) = false

-- No two of the created databases share an environment and a number.
abbrev pub AreDistinct : List Write → Type 0
AreDistinct [] = Unit
AreDistinct (created d ∷ writes) = All (λ w. collides d w ≡ false) writes × AreDistinct writes
AreDistinct (deleted _ ∷ writes) = AreDistinct writes
AreDistinct (updated _ ∷ writes) = AreDistinct writes

-- The API server lists, with an environment, the databases that were just created in it.
abbrev pub IsListed : List RedisDatabase → Text → Write → Type 0
IsListed list environment (created d) =
    d.spec.environment_config.environment ≡ environment
    → is_reserved list d.spec.database_number ≡ true
IsListed list environment (deleted _) = Unit
IsListed list environment (updated _) = Unit

abbrev pub ReadsItsWrites : RedisApi → Type 0
ReadsItsWrites api =
    (writes : List Write) (environment : Text) (list : List RedisDatabase)
    → api.list_in_environment writes environment ≡ ok list
    → All (IsListed list environment) writes

abbrev listed_or_nil : Result (List RedisDatabase) → List RedisDatabase
listed_or_nil (ok list) = list
listed_or_nil (err _) = []

-- A free number is not among those that the API server lists.
first_free-unreserved :
    (api : RedisApi) (writes : List Write) (config : EnvironmentConfig) (n : ℕ)
    → first_free api writes config ≡ ok n
    → (api.list_in_environment writes config.environment
        ≡ ok (listed_or_nil (api.list_in_environment writes config.environment)))
      × (is_reserved (listed_or_nil (api.list_in_environment writes config.environment)) n ≡ false)
unfolding first_free get_first_free_database_in_environment
first_free-unreserved api writes config n h =
    elim (Result-cases (api.get_redis_config config.environment)) [
      | inr (x, e) ↦ ground arith
      | inl (c, e) ↦ elim (Result-cases (api.list_in_environment writes config.environment)) [
        | inr (x, e') ↦ ground arith
        | inl (list, e') ↦ ground (arith, first_available-cases c.available_database_count list)
      ]
    ]

listed-apart :
    (d : RedisDatabase) (n : ℕ) (list : List RedisDatabase) (writes : List Write)
    → All (IsListed list d.spec.environment_config.environment) writes
    → is_reserved list n ≡ false
    → All (λ w. collides (numbered d n) w ≡ false) writes
unfolding collides
listed-apart d n list [] listed free = tt
listed-apart d n list (created d' ∷ writes) listed free = (
  ground (
    arith,
    text_eq_iff d.spec.environment_config.environment d'.spec.environment_config.environment,
    listed.0,
  ),
  listed-apart d n list writes listed.1 free,
)
listed-apart d n list (deleted _ ∷ writes) listed free =
    (refl, listed-apart d n list writes listed.1 free)
listed-apart d n list (updated _ ∷ writes) listed free =
    (refl, listed-apart d n list writes listed.1 free)

delete_all-AreDistinct :
    (api : RedisApi) (databases : Assoc RedisDatabase) (progress : Progress)
    → AreDistinct progress.writes
    → AreDistinct (delete_all api databases progress).0.writes
unfolding delete_all
delete_all-AreDistinct api [] progress distinct = distinct
delete_all-AreDistinct api ((s, d) ∷ rest) progress distinct =
    elim (Option-cases (api.accepts (deleted d))) [
      | inl e ↦ ground (
        arith,
        delete_all-AreDistinct api rest (record progress { writes = deleted d ∷ progress.writes })
            distinct,
      )
      | inr (x, e) ↦ ground arith
    ]

update_all-AreDistinct :
    (api : RedisApi) (databases : Assoc RedisDatabase) (progress : Progress)
    → AreDistinct progress.writes
    → AreDistinct (update_all api databases progress).0.writes
unfolding update_all
update_all-AreDistinct api [] progress distinct = distinct
update_all-AreDistinct api ((s, d) ∷ rest) progress distinct =
    elim (Option-cases (api.accepts (updated d))) [
      | inl e ↦ ground (
        arith,
        update_all-AreDistinct api rest (written (updated d) s d.spec.database_number progress)
            distinct,
      )
      | inr (x, e) ↦ ground arith
    ]

module _ (api : RedisApi) (reads : ReadsItsWrites api) where
  -- What is created with a free number is apart from what was created before.
  created-apart :
      (writes : List Write) (d : RedisDatabase) (n : ℕ)
      → first_free api writes d.spec.environment_config ≡ ok n
      → All (λ w. collides (numbered d n) w ≡ false) writes
  created-apart writes d n h =
      let (listed, free) = first_free-unreserved api writes d.spec.environment_config n h in
      listed-apart d n _ writes (reads writes d.spec.environment_config.environment _ listed) free

  create_all-AreDistinct :
      (databases : Assoc RedisDatabase) (progress : Progress)
      → AreDistinct progress.writes
      → AreDistinct (create_all api databases progress).0.writes
  unfolding create_all
  create_all-AreDistinct [] progress distinct = distinct
  create_all-AreDistinct ((s, d) ∷ rest) progress distinct =
      elim (Result-cases (first_free api progress.writes d.spec.environment_config)) [
        | inr (x, e) ↦ ground arith
        | inl (n, e) ↦ elim (Option-cases (api.accepts (created (numbered d n)))) [
          | inr (x, e') ↦ ground arith
          | inl e' ↦ ground (
            arith,
            create_all-AreDistinct rest (written (created (numbered d n)) s n progress)
                (created-apart progress.writes d n e, distinct),
          )
        ]
      ]

  apply_changes-AreDistinct :
      (changes : Changes) (progress : Progress)
      → AreDistinct progress.writes
      → AreDistinct (apply_changes api changes progress).0.writes
  unfolding apply_changes
  apply_changes-AreDistinct changes progress distinct =
      let done_deleting = delete_all api changes.to_delete progress in
      let done_creating = create_all api changes.to_create done_deleting.0 in
      let kept = delete_all-AreDistinct api changes.to_delete progress distinct in
      let kept' = create_all-AreDistinct changes.to_create done_deleting.0 kept in
      elim (Option-cases done_deleting.1) [
        | inr (x, e) ↦ ground (arith, kept)
        | inl e ↦ elim (Option-cases done_creating.1) [
          | inr (x, e') ↦ ground (arith, kept')
          | inl e' ↦
              ground (arith, update_all-AreDistinct api changes.to_update done_creating.0 kept')
        ]
      ]

  -- Where the API server lists what was just created, a run gives no two new databases of an
  -- environment the same number, also where it ends in an error.
  pub created_numbers-AreDistinct :
      (site : StagingSite) → AreDistinct (ensure_databases_are_created api site).0.writes
  unfolding ensure_databases_are_created
  created_numbers-AreDistinct site = elim (Result-cases (changes_for api site)) [
    | inr (x, e) ↦ ground arith
    | inl (changes, e) ↦ ground (
      arith,
      Option-cases (apply_changes api changes (record { writes = []; site = site })).1,
      apply_changes-AreDistinct changes (record { writes = []; site = site }) tt,
    )
  ]
