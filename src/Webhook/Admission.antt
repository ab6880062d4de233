-- ===== src/Webhook/Admission.antt =====
-- The admission of sites, `Handle` of handlers/webhook/stagingsite.go.
pub mod Checked
pub mod Labelled
use kube_stager.Base.{
  ℕ, Bool, true, false, not, Option, none, some, List, [], ◌∷◌, ◌++◌, Text, bytes, is_empty, pos,
  if◌then◌else◌, or_else, Assoc, lookup, insert,
}
use kube_stager.Api.{
  StagingSite, StagingSiteService, service_or_zero, ServiceConfig, MysqlConfig, MongoConfig,
  RedisConfig, mongo_environments_prefix, mysql_environments_prefix, redis_environments_prefix,
  services_prefix,
}
use kube_stager.Controller.{Result, ok, err, Error}
use kube_stager.Webhook.{Response, patched, denied, errored, Verdict, admitted, refused, ◌&&=◌}
use kube_stager.Webhook.Labels.{update_prefixed_labels}

-- The answers of the API server for a namespace, and of json.Marshal.
pub record AdmissionApi : Type 0 where
  pub get_service_configs : Text → Result (Assoc ServiceConfig)
  pub get_mysql_environments : Text → Result (Assoc MysqlConfig)
  pub get_mongo_environments : Text → Result (Assoc MongoConfig)
  pub get_redis_environments : Text → Result (Assoc RedisConfig)
  pub marshal : StagingSite → Option Error

-- What the handler has loaded.
pub record Environments : Type 0 where
  pub service_configs : Assoc ServiceConfig
  pub mysql_configs : Assoc MysqlConfig
  pub mongo_configs : Assoc MongoConfig
  pub redis_configs : Assoc RedisConfig

unfoldable pub add_services :
    Assoc ServiceConfig → Assoc StagingSiteService → Assoc StagingSiteService
add_services [] services = services
add_services ((_, config) ∷ configs) services =
    add_services configs
      (insert config.name (service_or_zero (lookup config.name services)) services)

unfoldable pub include_all : Environments → StagingSite → StagingSite
unfolding add_services
include_all environments site =
    if site.spec.include_all_services
    then (record site {
      spec = record site.spec {
        services = add_services environments.service_configs site.spec.services;
      };
    })
    else site

unfoldable pub with_defaults : ServiceConfig → StagingSiteService → StagingSiteService
with_defaults config service = record service {
  image_tag = or_else service.image_tag (bytes "latest");
  db_init_source_environment_name =
      or_else service.db_init_source_environment_name (bytes "master");
  mongo_environment = or_else service.mongo_environment config.spec.default_mongo_environment;
  mysql_environment = or_else service.mysql_environment config.spec.default_mysql_environment;
  redis_environment = or_else service.redis_environment config.spec.default_redis_environment;
}

-- A missing environment reads as the zero value, whose name is empty.
abbrev pub is_named {ℓ} : {E : Type ℓ} → (E → Text) → Option E → Bool
is_named name_of none = false
is_named name_of (some environment) = not (is_empty (name_of environment))

module _ (environments : Environments) where
  abbrev pub has_mongo : Text → Bool
  has_mongo environment = is_named (λ c. c.name) (lookup environment environments.mongo_configs)

  abbrev pub has_mysql : Text → Bool
  has_mysql environment = is_named (λ c. c.name) (lookup environment environments.mysql_configs)

  abbrev pub has_redis : Text → Bool
  has_redis environment = is_named (λ c. c.name) (lookup environment environments.redis_configs)

-- What the loop over the services has done. The maps of the used names are the lists of their keys,
-- the latest first, and so are the names of the services.
pub record Admitted : Type 0 where
  pub services : Assoc StagingSiteService
  pub used_mongo : List Text
  pub used_mysql : List Text
  pub used_redis : List Text
  pub service_names : List Text

-- The state before the loop.
abbrev pub started : Assoc StagingSiteService → Admitted
started services = record {
  services = services;
  used_mongo = [];
  used_mysql = [];
  used_redis = [];
  service_names = [];
}

invalid_environment : Text → Text → Text → Text
invalid_environment kind environment service =
    bytes "Invalid "
    ++ (kind
        ++ (bytes " environment '"
            ++ (environment ++ (bytes "' in service '" ++ (service ++ bytes "'")))))

-- The three tests on an environment: of its kind, whether it is known, and its name.
unfoldable pub note_environment :
    Text → (Text → Bool) → Text → Text → List Text → Verdict (List Text)
unfolding invalid_environment
note_environment kind known service environment used =
    if is_empty environment
    then admitted used
    else if known environment
    then admitted (environment ∷ used)
    else refused (invalid_environment kind environment service)

unfoldable pub admit_configured :
    Environments → Text → StagingSiteService → Admitted → Verdict Admitted
unfolding note_environment
admit_configured environments name service done =
    note_environment (bytes "mongo") (has_mongo environments) name service.mongo_environment
      done.used_mongo
    &&= λ mongo.
        note_environment (bytes "mysql") (has_mysql environments) name service.mysql_environment
          done.used_mysql
        &&= λ mysql.
            note_environment (bytes "redis") (has_redis environments) name service.redis_environment
              done.used_redis
            &&= λ redis. admitted (record {
              services = insert name service done.services;
              used_mongo = mongo;
              used_mysql = mysql;
              used_redis = redis;
              service_names = name ∷ done.service_names;
            })

missing_config : Text → Text
missing_config name = bytes "The service config '" ++ (name ++ bytes "' doesn't exist")

unfoldable pub admit_service :
    Environments → Text → StagingSiteService → Admitted → Verdict Admitted
unfolding admit_configured with_defaults missing_config
admit_service environments name service done = elim (lookup name environments.service_configs) [
  | none ↦ refused (missing_config name)
  | some config ↦ admit_configured environments name (with_defaults config service) done
]

unfoldable pub admit_services :
    Environments → Assoc StagingSiteService → Admitted → Verdict Admitted
unfolding admit_service
admit_services environments [] done = admitted done
admit_services environments ((name, service) ∷ services) done =
    admit_service environments name service done &&= admit_services environments services

unfoldable pub labelled : StagingSite → Admitted → StagingSite
unfolding update_prefixed_labels
labelled site done =
    let admitted_site : StagingSite = record site {
      spec = record site.spec { services = done.services };
    } in
    let with_mongo =
      update_prefixed_labels admitted_site mongo_environments_prefix done.used_mongo in
    let with_mysql = update_prefixed_labels with_mongo mysql_environments_prefix done.used_mysql in
    let with_redis = update_prefixed_labels with_mysql redis_environments_prefix done.used_redis in
    update_prefixed_labels with_redis services_prefix done.service_names

respond : AdmissionApi → StagingSite → Response StagingSite
respond api site = elim (api.marshal site) [ some e ↦ errored 500 e | none ↦ patched site ]

answer : AdmissionApi → StagingSite → Verdict Admitted → Response StagingSite
unfolding respond labelled
answer api site (refused text) = denied text
answer api site (admitted done) = respond api (labelled site done)

unfoldable pub admit_loaded : AdmissionApi → Environments → StagingSite → Response StagingSite
unfolding answer admit_services include_all
admit_loaded api environments decoded =
    let site = include_all environments decoded in
    elim (site.spec.services) [
      | [] ↦ denied (bytes "There are no services defined in the site")
      | _ ∷ _ ↦
          answer api site
            (admit_services environments site.spec.services (started site.spec.services))
    ]

unfoldable pub load : AdmissionApi → Text → Result Environments
load api namespace = elim (api.get_service_configs namespace) [
  | err e ↦ err e
  | ok configs ↦ elim (api.get_mysql_environments namespace) [
    | err e ↦ err e
    | ok mysql ↦ elim (api.get_mongo_environments namespace) [
      | err e ↦ err e
      | ok mongo ↦ elim (api.get_redis_environments namespace) [
        | err e ↦ err e
        | ok redis ↦ ok (record {
          service_configs = configs;
          mysql_configs = mysql;
          mongo_configs = mongo;
          redis_configs = redis;
        })
      ]
    ]
  ]
]

-- `decoded` is the answer of the decoder.
unfoldable pub handle : AdmissionApi → Result StagingSite → Response StagingSite
unfolding admit_loaded load
handle api (err e) = errored 400 e
handle api (ok site) = elim (load api site.namespace) [
  | err e ↦ errored 500 e
  | ok environments ↦ admit_loaded api environments site
]
