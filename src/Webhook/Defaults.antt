-- ===== src/Webhook/Defaults.antt =====
-- The defaulting of sites: `Default` of apis/site/v1/stagingsite_webhook.go, with
-- apis/site/v1/stagingsite_helpers.go.
pub mod Again
use kube_stager.Base.{
  or_else, Bool, true, false, not, ◌&&◌, List, [], ◌∷◌, Text, bytes, is_empty, take, length, ltb, ℤ,
  pos, eq_ℤ, if◌then◌else◌, Assoc, lookup, insert, Option, none, some,
}
use kube_stager.Names.{sanitise_db_value, sanitise_and_shorten_db_value}
use kube_stager.Api.{
  service_or_zero, StagingSite, StagingSiteService, StagingSiteServiceStatus, TimeInterval,
  ServiceConfig,
}
use kube_stager.Controller.{Result, ok, err, ◌>>=◌}
use kube_stager.Site.Status.{last_spec_change_at}

-- The formatted time, the generated password, and the digest of names.
pub record DefaultApi : Type 0 where
  pub now : Text
  pub generate : Result Text
  pub md5_base36 : Text → Text

unfoldable pub is_time_interval_empty : TimeInterval → Bool
is_time_interval_empty i =
    not i.never && (eq_ℤ i.days (pos 0) && (eq_ℤ i.hours (pos 0) && eq_ℤ i.minutes (pos 0)))

unfoldable pub default_interval : ℤ → TimeInterval → TimeInterval
unfolding is_time_interval_empty
default_interval days i =
    if is_time_interval_empty i
    then (record { never = false; days = days; hours = pos 0; minutes = pos 0 })
    else i

-- r.Name[0:63], where the name is longer.
abbrev cut_name : Text → Text
cut_name name = if ltb 63 (length name) then take 63 name else name

unfoldable pub default_names : DefaultApi → StagingSite → StagingSite
unfolding sanitise_and_shorten_db_value
default_names api site =
    let db_name =
      or_else site.spec.db_name (sanitise_and_shorten_db_value api.md5_base36 site.name 63) in
    record site {
      meta = record site.meta { annotations = insert last_spec_change_at api.now site.annotations };
      spec = record site.spec {
        domain_prefix = or_else site.spec.domain_prefix (cut_name site.name);
        db_name = db_name;
        username =
            or_else site.spec.username (sanitise_and_shorten_db_value api.md5_base36 db_name 16);
      };
    }

unfoldable pub default_password : DefaultApi → Text → Result Text
unfolding sanitise_db_value
default_password api password = elim (is_empty password) [
  | false ↦ ok password
  | true ↦ api.generate >>= λ generated. ok (sanitise_db_value generated)
]

unfoldable pub filled : StagingSite → Text → StagingSite
unfolding default_interval
filled named password = record named {
  spec = record named.spec {
    password = password;
    disable_after = default_interval (pos 2) named.spec.disable_after;
    delete_after = default_interval (pos 7) named.spec.delete_after;
  };
}

unfoldable pub default_site : DefaultApi → StagingSite → Result StagingSite
unfolding default_names default_password filled
default_site api site =
    let named = default_names api site in
    default_password api named.spec.password >>= λ password. ok (filled named password)

-- The environments of a service in a site: those of the site before those of the config.
unfoldable pub get_mongo_config_for_service : StagingSite → ServiceConfig → Text
get_mongo_config_for_service site config =
    or_else (service_or_zero (lookup config.name site.spec.services)).mongo_environment
      config.spec.default_mongo_environment

unfoldable pub get_mysql_config_for_service : StagingSite → ServiceConfig → Text
get_mysql_config_for_service site config =
    or_else (service_or_zero (lookup config.name site.spec.services)).mysql_environment
      config.spec.default_mysql_environment

unfoldable pub get_redis_config_for_service : StagingSite → ServiceConfig → Text
get_redis_config_for_service site config =
    or_else (service_or_zero (lookup config.name site.spec.services)).redis_environment
      config.spec.default_redis_environment
