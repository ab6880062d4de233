-- ===== src/Webhook/Admission/Checked.antt =====
-- What the loop over the services of handlers/webhook/stagingsite.go has checked.
use kube_stager.Base.{
  Bool, true, false, not, ◌&&◌, ◌||◌, none, some, List, [], ◌∷◌, Text, bytes, is_empty, text_eq,
  text_eq_iff, text_eq_refl, Assoc, lookup, insert, has_key, lookup-insert, is_some, arith, ◌≡◌,
  refl, ap, ◌⊎◌, inl, inr, Bool-cases, Option-cases,
}
use kube_stager.Names.{slice_contains_string}
use kube_stager.Api.{StagingSiteService}
use kube_stager.Webhook.{admitted, Verdict-cases}
use kube_stager.Webhook.Admission.{
  Environments, Admitted, has_mongo, has_mysql, has_redis, with_defaults, note_environment,
  admit_configured, admit_service, admit_services,
}

-- No environment, or a known one that is recorded as used.
unfoldable pub is_noted : (Text → Bool) → List Text → Text → Bool
is_noted known used environment =
    is_empty environment || (known environment && slice_contains_string used environment)

-- A service with a config, an image tag and a source for its databases, whose environments are
-- known and recorded, as its name is.
unfoldable pub is_checked : Environments → Admitted → Text → StagingSiteService → Bool
unfolding is_noted
is_checked environments done name service =
    is_some (lookup name environments.service_configs)
    && (not (is_empty service.image_tag)
        && (not (is_empty service.db_init_source_environment_name)
            && (is_noted (has_mongo environments) done.used_mongo service.mongo_environment
                && (is_noted (has_mysql environments) done.used_mysql service.mysql_environment
                    && (is_noted (has_redis environments) done.used_redis service.redis_environment
                        && slice_contains_string done.service_names name)))))

-- The service of this name, if there is one, is checked.
unfoldable pub is_settled : Environments → Admitted → Text → Bool
unfolding is_checked
is_settled environments done name = elim (lookup name done.services) [
  | none ↦ true
  | some service ↦ is_checked environments done name service
]

note_environment_lem :
    (kind : Text) (known : Text → Bool) (service environment : Text) (used used' : List Text)
    → note_environment kind known service environment used ≡ admitted used'
    → (is_noted known used' environment ≡ true)
      × ((other : Text) → is_noted known used other ≡ true → is_noted known used' other ≡ true)
unfolding note_environment is_noted slice_contains_string
note_environment_lem kind known service environment used used' h =
    elim (Bool-cases (is_empty environment)) [
      | inl e ↦ (ground arith, λ other. λ k. ground arith)
      | inr e ↦ elim (Bool-cases (known environment)) [
        | inl e' ↦ (ground (arith, text_eq_refl environment), λ other. λ k. ground arith)
        | inr e' ↦ (ground arith, λ other. λ k. ground arith)
      ]
    ]

-- A service that was checked stays so when more is recorded.
is_checked-grows :
    (environments : Environments) (done done' : Admitted) (name : Text)
    (service : StagingSiteService)
    → ((e : Text)
        → is_noted (has_mongo environments) done.used_mongo e ≡ true
        → is_noted (has_mongo environments) done'.used_mongo e ≡ true)
    → ((e : Text)
        → is_noted (has_mysql environments) done.used_mysql e ≡ true
        → is_noted (has_mysql environments) done'.used_mysql e ≡ true)
    → ((e : Text)
        → is_noted (has_redis environments) done.used_redis e ≡ true
        → is_noted (has_redis environments) done'.used_redis e ≡ true)
    → (slice_contains_string done.service_names name ≡ true
        → slice_contains_string done'.service_names name ≡ true)
    → is_checked environments done name service ≡ true
    → is_checked environments done' name service ≡ true
unfolding is_checked
is_checked-grows environments done done' name service mongo mysql redis names h = ground (
  arith,
  mongo service.mongo_environment,
  mysql service.mysql_environment,
  redis service.redis_environment,
)

-- What is recorded of a service: the new service is checked, and the checked ones stay so.
recorded-is_settled :
    (environments : Environments) (name : Text) (service : StagingSiteService)
    (done done' : Admitted)
    → done'.services ≡ insert name service done.services
    → is_checked environments done' name service ≡ true
    → ((other : Text) (s : StagingSiteService)
        → is_checked environments done other s ≡ true
        → is_checked environments done' other s ≡ true)
    → (other : Text) → (text_eq name other ≡ true) ⊎ (is_settled environments done other ≡ true)
    → is_settled environments done' other ≡ true
unfolding is_settled
recorded-is_settled environments name service done done' services checked grows other settled =
    elim (Bool-cases (text_eq name other)) [
      | inl same ↦ ground (
        arith,
        lookup-insert name other service done.services,
        text_eq_iff name other,
        ap (lookup other) services,
      )
      | inr apart ↦ elim (Option-cases (lookup other done.services)) [
        | inl e ↦
            ground
              (arith, lookup-insert name other service done.services, ap (lookup other) services)
        | inr (s, e) ↦ ground (
          arith,
          lookup-insert name other service done.services,
          ap (lookup other) services,
          grows other s,
        )
      ]
    ]

module _ (environments : Environments) (name : Text) (service : StagingSiteService) where
  -- The record of a service whose three tests have passed.
  noted : Admitted → List Text → List Text → List Text → Admitted
  noted done mongo mysql redis = record {
    services = insert name service done.services;
    used_mongo = mongo;
    used_mysql = mysql;
    used_redis = redis;
    service_names = name ∷ done.service_names;
  }

  noted-is_settled :
      (done : Admitted) (mongo mysql redis : List Text)
      → is_some (lookup name environments.service_configs) ≡ true
      → is_empty service.image_tag ≡ false
      → is_empty service.db_init_source_environment_name ≡ false
      → note_environment
          (bytes "mongo")
          (has_mongo environments)
          name
          service.mongo_environment
          done.used_mongo
        ≡ admitted mongo
      → note_environment
          (bytes "mysql")
          (has_mysql environments)
          name
          service.mysql_environment
          done.used_mysql
        ≡ admitted mysql
      → note_environment
          (bytes "redis")
          (has_redis environments)
          name
          service.redis_environment
          done.used_redis
        ≡ admitted redis
      → (other : Text) → (text_eq name other ≡ true) ⊎ (is_settled environments done other ≡ true)
      → is_settled environments (noted done mongo mysql redis) other ≡ true
  unfolding noted is_checked slice_contains_string
  noted-is_settled done mongo mysql redis configured tagged sourced e₁ e₂ e₃ =
      let (new₁, old₁) = note_environment_lem _ _ _ _ _ _ e₁ in
      let (new₂, old₂) = note_environment_lem _ _ _ _ _ _ e₂ in
      let (new₃, old₃) = note_environment_lem _ _ _ _ _ _ e₃ in
      recorded-is_settled environments name service done (noted done mongo mysql redis) refl
        (ground (arith, text_eq_refl name))
        (λ k s.
          is_checked-grows environments done (noted done mongo mysql redis) k s old₁ old₂ old₃
            (λ h. ground arith))

  admit_configured-is_settled :
      (done done' : Admitted)
      → is_some (lookup name environments.service_configs) ≡ true
      → is_empty service.image_tag ≡ false
      → is_empty service.db_init_source_environment_name ≡ false
      → admit_configured environments name service done ≡ admitted done'
      → (other : Text) → (text_eq name other ≡ true) ⊎ (is_settled environments done other ≡ true)
      → is_settled environments done' other ≡ true
  unfolding admit_configured noted
  admit_configured-is_settled done done' configured tagged sourced h other settled =
      elim (Verdict-cases (
        note_environment (bytes "mongo") (has_mongo environments) name service.mongo_environment
          done.used_mongo)) [
            | inr (t, e) ↦ ground arith
            | inl (mongo, e₁) ↦
                elim (Verdict-cases (
                  note_environment (bytes "mysql") (has_mysql environments) name
                    service.mysql_environment done.used_mysql)) [
                      | inr (t, e) ↦ ground arith
                      | inl (mysql, e₂) ↦
                          elim (Verdict-cases (
                            note_environment (bytes "redis") (has_redis environments) name
                              service.redis_environment done.used_redis)) [
                                | inr (t, e) ↦ ground arith
                                | inl (redis, e₃) ↦ ground (
                                  arith,
                                  noted-is_settled done mongo mysql redis configured tagged sourced
                                      e₁ e₂ e₃ other settled,
                                )
                              ]
                    ]
          ]

admit_service-is_settled :
    (environments : Environments) (name : Text) (service : StagingSiteService)
    (done done' : Admitted)
    → admit_service environments name service done ≡ admitted done'
    → (other : Text) → (text_eq name other ≡ true) ⊎ (is_settled environments done other ≡ true)
    → is_settled environments done' other ≡ true
unfolding admit_service with_defaults
admit_service-is_settled environments name service done done' h other settled =
    elim (Option-cases (lookup name environments.service_configs)) [
      | inl e ↦ ground arith
      | inr (config, e) ↦
          admit_configured-is_settled environments name (with_defaults config service) done done'
            (rw e refl) (ground arith) (ground arith) (ground arith) other settled
    ]

pub admit_services-is_settled :
    (environments : Environments) (services : Assoc StagingSiteService) (done done' : Admitted)
    → admit_services environments services done ≡ admitted done'
    → (name : Text) → (has_key name services ≡ true) ⊎ (is_settled environments done name ≡ true)
    → is_settled environments done' name ≡ true
unfolding admit_services has_key
admit_services-is_settled environments [] done done' h name settled = ground arith
admit_services-is_settled environments ((k, service) ∷ services) done done' h name settled =
    elim (Verdict-cases (admit_service environments k service done)) [
      | inr (t, e) ↦ ground arith
      | inl (next, e) ↦
          admit_services-is_settled environments services next done' (ground arith) name
            (elim (Bool-cases (has_key name services)) [
              | inl later ↦ inl later
              | inr other ↦
                  inr (
                    admit_service-is_settled environments k service done next e name (ground arith))
            ])
    ]
