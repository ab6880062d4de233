-- ===== src/Examples/Webhooks.antt =====
-- Requests to the webhooks about a small site.
use kube_stager.Base.{
  Text, Assoc, Among, lookup, none, some, [], ◌∷◌, bytes, insert, remove, arith, ◌≡◌, refl,
  if◌then◌else◌,
}
use kube_stager.Api.{StagingSite, ServiceConfig, RedisConfig, Backup, BackupType, JobState}
use kube_stager.Controller.{Result, ok, err}
use kube_stager.Templates.{replace_template_variables_in_string_map}
use kube_stager.Templates.Found.{Occurs}
use kube_stager.Templates.Values.{ConfigReader, SiteTemplateHandler, get_template_values}
use kube_stager.Webhook.{Response, patched}
use kube_stager.Webhook.Labels.{carries}
use kube_stager.Webhook.Admission.{AdmissionApi, Environments, load, handle, with_defaults}
use kube_stager.Webhook.Deletion.{DeletionApi}
use kube_stager.Webhook.Deletion.Used.{ListsSite, IsKept, used_configs-IsKept}
use kube_stager.Webhook.Defaults.{DefaultApi, default_site}
use kube_stager.Webhook.Defaults.Again.{default_site_again, annotated_at}
use kube_stager.Webhook.Configs.{ConfigApi, handle_config, loaded_handler}
use kube_stager.Webhook.Configs.Accepted.{
  HasKnownDefaults, replaced_map, accepted_config_is_resolved,
}
use kube_stager.Webhook.Backups.{BackupApi}
use kube_stager.Examples.{digest, demo, meta_of, shop_config, shop_service}

abbrev redis_config : RedisConfig
redis_config = record {
  meta = meta_of (bytes "redis-0");
  host = bytes "redis";
  available_database_count = 4;
  port = 6379;
  is_tls_enabled = none;
  password = [];
}

abbrev environments : Environments
environments = record {
  service_configs = (bytes "shop", shop_config) ∷ [];
  mysql_configs = [];
  mongo_configs = [];
  redis_configs = (bytes "redis-0", redis_config) ∷ [];
}

abbrev admission_api : AdmissionApi
admission_api = record {
  get_service_configs = λ _. ok ((bytes "shop", shop_config) ∷ []);
  get_mysql_environments = λ _. ok [];
  get_mongo_environments = λ _. ok [];
  get_redis_environments = λ _. ok ((bytes "redis-0", redis_config) ∷ []);
  marshal = λ _. none;
}

abbrev requested : StagingSite
requested = record demo { spec = record demo.spec { services = (bytes "shop", shop_service) ∷ [] } }

abbrev site_of : Response StagingSite → StagingSite
site_of (patched site) = site
site_of _ = requested

abbrev accepted : StagingSite
accepted = site_of (handle admission_api (ok requested))

-- An API server that has the accepted site only.
abbrev deletion_api : DeletionApi
deletion_api = record {
  list_sites = λ _ label. ok (if carries label accepted then accepted ∷ [] else []);
  list_services = λ _ _ _. ok [];
}

deletion_api-ListsSite : ListsSite deletion_api accepted
deletion_api-ListsSite label list h k = ground arith

used_example : IsKept deletion_api accepted (bytes "shop") (with_defaults shop_config shop_service)
unfolding handle load with_defaults insert remove
used_example =
    used_configs-IsKept admission_api environments requested accepted (bytes "shop")
      (with_defaults shop_config shop_service) deletion_api deletion_api-ListsSite refl refl refl

-- The defaults of a site, twice.
abbrev default_api : DefaultApi
default_api = record { now = bytes "monday"; generate = ok (bytes "pass"); md5_base36 = digest }

abbrev site_or : Result StagingSite → StagingSite
site_or (ok site) = site
site_or (err _) = requested

abbrev nameless : StagingSite
nameless = record requested {
  spec = record requested.spec { domain_prefix = []; db_name = []; username = []; password = [] };
}

again_example :
    default_site
      (record default_api { now = bytes "tuesday"; generate = ok (bytes "word") })
      (site_or (default_site default_api nameless))
    ≡ ok (annotated_at (bytes "tuesday") (site_or (default_site default_api nameless)))
unfolding default_site
again_example =
    default_site_again default_api (bytes "tuesday") (ok (bytes "word")) nameless
      (site_or (default_site default_api nameless)) refl refl

-- A backup that is asked for by hand.
abbrev asked : Backup
asked = record {
  meta = meta_of (bytes "by-hand");
  site_name = bytes "demo";
  backup_type = BackupType.manual;
  status = record {
    detail = record { state = JobState.unset; job_started_at = none; job_finished_at = none };
    services = [];
  };
}

abbrev owned : Backup
owned = record asked { meta = record asked.meta { controller = some (bytes "demo") } }

abbrev backup_api : BackupApi
backup_api = record {
  get_site = λ _ _. ok demo;
  set_controller_reference =
      λ site job. ok (record job { meta = record job.meta { controller = some site.name } });
  marshal = λ _. none;
}

-- A service config with a config map.
abbrev mapped_config : ServiceConfig
mapped_config = record shop_config {
  spec = record shop_config.spec {
    config_maps = (bytes "env", (bytes "SITE", bytes "at ${site.name}") ∷ []) ∷ [];
  };
}

abbrev reader : ConfigReader
reader = record {
  list_mongo = λ _. ok [];
  list_mysql = λ _. ok [];
  list_redis = λ _. ok (redis_config ∷ []);
  list_services = λ _. ok (shop_config ∷ []);
}

abbrev config_api : ConfigApi
config_api = record {
  reader = reader;
  list_by_short_name = λ _ _. ok (shop_config ∷ []);
  pod_yaml = record { marshal = λ spec. ok spec.manifest; unmarshal = λ _ spec. ok spec };
  service_yaml = record { marshal = λ spec. ok spec; unmarshal = λ _ spec. ok spec };
  ingress_yaml = record { marshal = λ spec. ok spec; unmarshal = λ _ spec. ok spec };
  md5_base36 = digest;
}

config_example :
    (handler : SiteTemplateHandler) × (loaded_handler config_api mapped_config ≡ ok handler)
    × HasKnownDefaults mapped_config handler
    × ((name : Text) (m : Assoc Text) (k v : Text)
        → Among (name, m) mapped_config.spec.config_maps
        → lookup k (replaced_map config_api handler name m) ≡ some v
        → ¬ Occurs v)
unfolding handle_config loaded_handler replace_template_variables_in_string_map get_template_values
    insert
config_example = accepted_config_is_resolved config_api mapped_config refl
