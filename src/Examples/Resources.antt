-- ===== src/Examples/Resources.antt =====
-- The config maps, workloads and ingresses of a small site.
use kube_stager.Base.{
  true, false, Option, none, some, List, [], ◌∷◌, Text, bytes, pos, insert, remove, has_key, lookup,
  subst, AreUnique, arith, ◌≡◌, refl, Assoc,
}
use kube_stager.Api.{
  StagingSite, ServiceConfig, Container, PodSpec, ConfigMap, Deployment, label_service, label_type,
}
use kube_stager.Controller.{Result, ok, err}
use kube_stager.Templates.{Yaml}
use kube_stager.Templates.Values.{ConfigReader}
use kube_stager.Sync.{expected_from}
use kube_stager.Sync.Compared.{find_service}
use kube_stager.Sync.Refined.{stored, target}
use kube_stager.Sync.Desired.{IsDesired}
use kube_stager.Pods.{service_of_config}
use kube_stager.Pods.Envs.{AreSetUp, deployed, containers-AreSetUp}
use kube_stager.Resources.{ResourceApi, Ensured}
use kube_stager.Resources.Desired.{enabled_services}
use kube_stager.Resources.Workloads
use kube_stager.Resources.Workloads.Ready.{deployments-AreDesired, health_is_readiness, all_ready}
use kube_stager.Resources.Networking
use kube_stager.Resources.Networking.Reached.{IsFilled, missing_objects_are_created}
use kube_stager.Resources.Configs
use kube_stager.Resources.Configs.Expected.{asked, AreNamed}
use kube_stager.Resources.Configs.Stored.{config_maps-AreStored}
use kube_stager.Examples.{digest, demo, meta_of, shop_config, shop_service}

-- A service with variables and resources of its own.
abbrev with_shop : StagingSite
with_shop = record demo {
  spec = record demo.spec {
    services =
        (
          bytes "shop",
          record shop_service {
            extra_envs = (bytes "DEBUG", bytes "1") ∷ (bytes "COLOUR", bytes "red") ∷ [];
            resource_overrides = (bytes "web", bytes "large") ∷ [];
          },
        )
        ∷ [];
  };
}

abbrev web : Container
web = record {
  name = bytes "web";
  env = record { name = bytes "PORT"; value = bytes "80" } ∷ [];
  resources = bytes "small";
}

abbrev cache : Container
cache = record { name = bytes "cache"; env = []; resources = bytes "small" }

abbrev web_spec : PodSpec
web_spec = record {
  containers = web ∷ cache ∷ [];
  restart_policy = bytes "Always";
  manifest = bytes "image";
}

containers_example :
    AreSetUp
      (service_of_config with_shop shop_config)
      (web ∷ cache ∷ [])
      (deployed with_shop shop_config web_spec).containers
containers_example = containers-AreSetUp with_shop shop_config web_spec

-- The config of a service, with a service, an ingress and a config map.
abbrev config_named : Text → ServiceConfig
config_named name = record shop_config {
  meta = meta_of name;
  spec = record shop_config.spec {
    config_maps = (bytes "env", (bytes "URL", bytes "http") ∷ []) ∷ [];
    service_spec = some (bytes "port 80");
    ingress_spec = some (bytes "host");
  };
}

abbrev reader : ConfigReader
reader = record {
  list_mongo = λ _. ok [];
  list_mysql = λ _. ok [];
  list_redis = λ _. ok [];
  list_services = λ _. ok [];
}

abbrev api_of : {O : Type 0} → List O → ResourceApi O
api_of list = record {
  list_for_site = ok list;
  get_service_config = λ name. ok (config_named name);
  reader = reader;
  set_controller_reference = λ object. ok object;
  accepts = λ _. none;
  md5_base36 = digest;
}

abbrev pod_yaml : Yaml PodSpec
pod_yaml = record { marshal = λ spec. ok spec.manifest; unmarshal = λ _ spec. ok spec }

abbrev text_yaml : Yaml Text
text_yaml = record { marshal = λ spec. ok spec; unmarshal = λ text _. ok text }

-- A deployment whose pod is not ready, and one of a service that is gone.
abbrev deployment_of : Text → Deployment
deployment_of service = record {
  meta = record (meta_of service) { labels = (label_service, service) ∷ [] };
  replicas = pos 1;
  selector = [];
  template_labels = [];
  template_spec = web_spec;
  ready_replicas = pos 0;
}

abbrev deployments : List Deployment
deployments = deployment_of (bytes "shop") ∷ deployment_of (bytes "cart") ∷ []

abbrev ensured_workloads : Ensured Deployment
ensured_workloads =
    Workloads.ensure_workload_objects_are_up_to_date pod_yaml (api_of deployments) with_shop

-- The deployment of the service that is gone is deleted.
deployments_example :
    IsDesired Workloads.deployment_service Workloads.revised
      (Workloads.wanted_deployment pod_yaml (api_of deployments) with_shop)
      (enabled_services true with_shop.spec.services)
      deployments
      (record { writes = ensured_workloads.writes; answer = ensured_workloads.answer })
      (bytes "cart")
unfolding has_key Workloads.ensure_workload_objects_are_up_to_date insert remove
deployments_example =
    deployments-AreDesired pod_yaml (api_of deployments) with_shop deployments true (bytes "cart")
      refl (refl, tt) ((refl, tt), (tt, tt)) refl

abbrev expected_deployments : Result (Assoc Deployment) → Assoc Deployment
expected_deployments (ok expected) = expected
expected_deployments (err _) = []

abbrev expected_here : Assoc Deployment
expected_here = expected_deployments (
    expected_from (Workloads.wanted_deployment pod_yaml (api_of deployments) with_shop)
      with_shop.spec.services [])

-- One replica is asked for, and none is ready.
health_example :
    ensured_workloads.site.status.workload_health
    ≡ Workloads.health_of (all_ready expected_here deployments)
unfolding has_key expected_from Workloads.wanted_deployment insert
health_example =
    health_is_readiness pod_yaml (api_of deployments) with_shop deployments expected_here refl refl
      refl ((refl, tt), (tt, tt))

abbrev networking : Networking.NetworkingApi
networking = record {
  service_yaml = text_yaml;
  ingress_yaml = text_yaml;
  service_api = api_of [];
  ingress_api = api_of [];
}

abbrev networked : Networking.Networked
networked = Networking.ensure_networking_objects_are_up_to_date networking with_shop

-- A service and an ingress are created.
networking_example :
    IsFilled networking with_shop Networking.service_of_service
      (Networking.wanted_service text_yaml (api_of []) with_shop)
      []
      networked.service_writes
      (bytes "shop")
    × IsFilled networking with_shop Networking.service_of_ingress
        (Networking.wanted_ingress text_yaml (api_of []) with_shop)
        []
        networked.ingress_writes
        (bytes "shop")
unfolding has_key Networking.ensure_networking_objects_are_up_to_date insert
networking_example =
    missing_objects_are_created networking with_shop [] [] false (bytes "shop") refl refl (refl, tt)
      tt tt refl

-- A config map with data of an earlier version.
abbrev old_config_map : ConfigMap
old_config_map = record {
  meta = record (meta_of (bytes "demo-env")) {
    labels = (label_service, bytes "shop") ∷ (label_type, bytes "env") ∷ [];
  };
  entries = [];
}

abbrev maps_api : ResourceApi ConfigMap
maps_api = api_of (old_config_map ∷ [])

named_here : AreNamed maps_api with_shop
unfolding has_key
named_here name config h =
    let e : config_named name ≡ config = ground arith in
    subst (λ (c : ServiceConfig). (c.name ≡ name) × AreUnique c.spec.config_maps) e
      (refl, (refl, tt))

-- The config map is updated.
config_maps_example :
    (object : Option ConfigMap) × (asked maps_api with_shop
        (bytes "shop")
        (bytes "env")
        (lookup (bytes "shop") with_shop.spec.services)
      ≡ ok object)
    × (stored
          (Configs.ensure_configs_are_up_to_date maps_api with_shop).writes
          (find_service Configs.key_of (old_config_map ∷ []))
          (Configs.make_configmap_key (bytes "shop") (bytes "env"))
        ≡ target Configs.key_of Configs.revised_config_map
            (find_service Configs.key_of
              (old_config_map ∷ [])
              (Configs.make_configmap_key (bytes "shop") (bytes "env")))
            object)
unfolding has_key Configs.ensure_configs_are_up_to_date insert remove
config_maps_example =
    config_maps-AreStored maps_api with_shop (old_config_map ∷ []) false (bytes "shop")
      (bytes "env") refl named_here refl (refl, tt) (refl, tt) (tt, tt) refl
