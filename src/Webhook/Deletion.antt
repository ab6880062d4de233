-- ===== src/Webhook/Deletion.antt =====
-- The webhooks on deletion: handlers/webhook/mysqlconfig_delete.go, mongoconfig_delete.go,
-- redisconfig_delete.go and serviceconfig_delete.go. The first three have the same body, but for a
-- prefix of labels and an index.
pub mod Used
use kube_stager.Base.{List, [], ◌∷◌, ◌++◌, map, Text, bytes}
use kube_stager.Api.{
  StagingSite, ServiceConfig, mongo_environments_prefix, mysql_environments_prefix,
  redis_environments_prefix, services_prefix,
}
use kube_stager.Controller.{Result, ok, err, bracketed}
use kube_stager.Webhook.{Response, allowed, denied, errored}

-- The answers of the API server: the sites of a namespace with a label of the value "true", and the
-- service configs of a namespace by an index.
pub record DeletionApi : Type 0 where
  pub list_sites : Text → Text → Result (List StagingSite)
  pub list_services : Text → Text → Text → Result (List ServiceConfig)

sites_use : Text → List StagingSite → Text
unfolding bracketed
sites_use what sites =
    bytes "There are sites using this "
    ++ (what ++ (bytes ": " ++ bracketed (map (λ site. site.name) sites)))

services_default : List ServiceConfig → Text
unfolding bracketed
services_default services =
    bytes "There are services using this environment as a default: "
    ++ bracketed (map (λ service. service.name) services)

defaults_checked : Result (List ServiceConfig) → Response (Unit {0})
unfolding services_default
defaults_checked (err e) = errored 500 e
defaults_checked (ok []) = allowed
defaults_checked (ok (service ∷ services)) = denied (services_default (service ∷ services))

unfoldable pub environment_delete : Text → Text → DeletionApi → Text → Text → Response (Unit {0})
unfolding sites_use defaults_checked
environment_delete prefix index api namespace name =
    elim (api.list_sites namespace (prefix ++ name)) [
      | err e ↦ errored 500 e
      | ok [] ↦ defaults_checked (api.list_services namespace index name)
      | ok (site ∷ sites) ↦ denied (sites_use (bytes "environment") (site ∷ sites))
    ]

-- The handlers take the namespace and the name of the request.
unfoldable pub mysql_config_delete : DeletionApi → Text → Text → Response (Unit {0})
unfolding environment_delete
mysql_config_delete =
    environment_delete mysql_environments_prefix (bytes ".spec.defaultMysqlEnvironment")

unfoldable pub mongo_config_delete : DeletionApi → Text → Text → Response (Unit {0})
unfolding environment_delete
mongo_config_delete =
    environment_delete mongo_environments_prefix (bytes ".spec.defaultMongoEnvironment")

unfoldable pub redis_config_delete : DeletionApi → Text → Text → Response (Unit {0})
unfolding environment_delete
redis_config_delete =
    environment_delete redis_environments_prefix (bytes ".spec.defaultRedisEnvironment")

unfoldable pub service_config_delete : DeletionApi → Text → Text → Response (Unit {0})
unfolding sites_use
service_config_delete api namespace name =
    elim (api.list_sites namespace (services_prefix ++ name)) [
      | err e ↦ errored 500 e
      | ok [] ↦ allowed
      | ok (site ∷ sites) ↦ denied (sites_use (bytes "service") (site ∷ sites))
    ]
