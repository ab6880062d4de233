-- ===== src/Task/Changes/Updates.antt =====
-- What an update of a redis database does with its number.
use kube_stager.Base.{
  ◌≡◌, inl, inr, some, List, [], ◌∷◌, arith, Assoc, Text, insert, remove, lookup, Option-cases, All,
  is_empty, text_eq, Bool-cases, ap, subst, ℕ,
}
use kube_stager.Api.{RedisDatabase, StagingSite, StagingSiteService, ServiceConfig}
use kube_stager.Controller.{Result, ok, err, Result-cases}
use kube_stager.Task.Database.{
  RedisApi, get_populated_database, populate_fom_site, matches, update_from_expected,
}
use kube_stager.Task.Changes.{
  first_free, Changes, changes_for, expected_databases, note_expected, note_database,
  note_databases,
}

-- What every database of a map has.
AllOf : (RedisDatabase → Type 0) → Assoc RedisDatabase → Type 0
AllOf P m = All (λ kv. P kv.1) m

insert-AllOf :
    (P : RedisDatabase → Type 0) (k : Text) (d : RedisDatabase) (m : Assoc RedisDatabase)
    → P d
    → AllOf P m
    → AllOf P (insert k d m)
unfolding insert AllOf
insert-AllOf P k d [] h all = (h, tt)
insert-AllOf P k d ((j, e) ∷ m) h all = elim (Bool-cases (text_eq j k)) [
  | inl x ↦ rw x (h, all.1)
  | inr x ↦ rw x (all.0, insert-AllOf P k d m h all.1)
]

remove-AllOf :
    (P : RedisDatabase → Type 0) (k : Text) (m : Assoc RedisDatabase)
    → AllOf P m
    → AllOf P (remove k m)
unfolding remove AllOf
remove-AllOf P k [] all = tt
remove-AllOf P k ((j, e) ∷ m) all = elim (Bool-cases (text_eq j k)) [
  | inl x ↦ rw x (remove-AllOf P k m all.1)
  | inr x ↦ rw x (all.0, remove-AllOf P k m all.1)
]

abbrev IsZero : RedisDatabase → Type 0
IsZero d = d.spec.database_number ≡ 0

lookup-zero :
    (k : Text) (m : Assoc RedisDatabase) (d : RedisDatabase)
    → AllOf IsZero m
    → lookup k m ≡ some d
    → d.spec.database_number ≡ 0
unfolding AllOf
lookup-zero k [] d zeros h = ground arith
lookup-zero k ((j, e) ∷ m) d zeros h = ground (arith, zeros.0, lookup-zero k m d zeros.1)

module _ (api : RedisApi) where
  -- The number is 0, though a free one has been found in the environment.
  abbrev pub IsSearched : RedisDatabase → Type 0
  IsSearched d =
      (d.spec.database_number ≡ 0)
      × ((n : ℕ) × (first_free api [] d.spec.environment_config ≡ ok n))

  -- What is to be created has the number 0, and what is to be updated has it in spite of a search.
  abbrev HaveZero : Result Changes → Type 0
  HaveZero (err _) = Unit
  HaveZero (ok changes) = AllOf IsZero changes.to_create × AllOf IsSearched changes.to_update

  note_expected-HaveZero :
      (d expected : RedisDatabase) (changes : Changes)
      → expected.spec.database_number ≡ 0
      → HaveZero (ok changes)
      → HaveZero (note_expected api d expected changes)
  unfolding note_expected
  note_expected-HaveZero d expected changes h zeros =
      let service = d.spec.environment_config.service_name in
      let removed = remove-AllOf IsZero service changes.to_create zeros.0 in
      let config = (update_from_expected d expected).spec.environment_config in
      elim (Bool-cases (matches expected d)) [
        | inl e ↦ rw e (removed, zeros.1)
        | inr e ↦ elim (Result-cases (first_free api [] config)) [
          | inr (x, e') ↦ rw e (rw e' tt)
          | inl (n, e') ↦ rw e (
              rw e' (
                removed,
                insert-AllOf IsSearched service (update_from_expected d expected) changes.to_update
                    (h, (n, e')) zeros.1,
              ))
        ]
      ]

  note_database-HaveZero :
      (d : RedisDatabase) (changes : Changes)
      → HaveZero (ok changes)
      → HaveZero (note_database api d changes)
  unfolding note_database
  note_database-HaveZero d changes zeros =
      let service = d.spec.environment_config.service_name in
      elim (Option-cases (lookup service changes.to_create)) [
        | inl e ↦ ground (arith, zeros)
        | inr (expected, e) ↦ ground (
          arith,
          note_expected-HaveZero d expected changes
              (lookup-zero service changes.to_create expected zeros.0 e) zeros,
        )
      ]

  note_databases-HaveZero :
      (list : List RedisDatabase) (changes : Changes)
      → HaveZero (ok changes)
      → HaveZero (note_databases api list changes)
  unfolding note_databases
  note_databases-HaveZero [] changes zeros = zeros
  note_databases-HaveZero (d ∷ list) changes zeros =
      let noted = note_database-HaveZero d changes zeros in
      elim (Result-cases (note_database api d changes)) [
        | inr (x, e) ↦ ground arith
        | inl (changes', e) ↦
            ground (arith, note_databases-HaveZero list changes' (ground (arith, noted)))
      ]

  module _
      (keeps : (d d' : RedisDatabase)
        → api.set_controller_reference d ≡ ok d'
        → d'.spec ≡ d.spec) where
    populated-zero :
        (site : StagingSite) (config : ServiceConfig) (environment : Text) (d : RedisDatabase)
        → get_populated_database api site config environment ≡ ok d
        → d.spec.database_number ≡ 0
    unfolding get_populated_database populate_fom_site
    populated-zero site config environment d h =
        ap (λ s. s.database_number)
          (keeps (populate_fom_site api.md5_base36 site config environment) d h)

    expected_databases-AllOf :
        (site : StagingSite) (services : Assoc StagingSiteService) (m found : Assoc RedisDatabase)
        → AllOf IsZero m
        → expected_databases api site services m ≡ ok found
        → AllOf IsZero found
    unfolding expected_databases
    expected_databases-AllOf site [] m found zeros h = ground (arith, zeros)
    expected_databases-AllOf site ((name, service) ∷ services) m found zeros h =
        elim (Bool-cases (is_empty service.redis_environment)) [
          | inl e ↦ ground (arith, expected_databases-AllOf site services m found zeros)
          | inr e ↦ elim (Result-cases (api.get_service_config name)) [
            | inr (x, e₁) ↦ ground arith
            | inl (config, e₁) ↦
                elim (Result-cases
                  (get_populated_database api site config service.redis_environment)) [
                    | inr (x, e₂) ↦ ground arith
                    | inl (d, e₂) ↦ ground (
                      arith,
                      expected_databases-AllOf site services (insert name d m) found (
                          insert-AllOf IsZero name d m
                            (populated-zero site config service.redis_environment d e₂) zeros),
                    )
                  ]
          ]
        ]

    pub changes_for-AllOf :
        (site : StagingSite) (changes : Changes)
        → changes_for api site ≡ ok changes
        → All (λ kv. IsSearched kv.1) changes.to_update
    unfolding changes_for AllOf
    changes_for-AllOf site changes h = elim (Result-cases api.list_for_site) [
      | inr (x, e) ↦ ground arith
      | inl (list, e) ↦ elim (Result-cases (expected_databases api site site.spec.services [])) [
        | inr (x, e₁) ↦ ground arith
        | inl (expected, e₁) ↦
            let start : Changes = record { to_delete = []; to_update = []; to_create = expected } in
            let noted =
              note_databases-HaveZero list start
                (expected_databases-AllOf site site.spec.services [] expected tt e₁, tt) in
            let same : note_databases api list start ≡ ok changes = ground arith in
            (subst HaveZero same noted).1
      ]
    ]
