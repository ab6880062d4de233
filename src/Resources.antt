-- ===== src/Resources.antt =====
-- What the handlers of handlers/site share: each compares the objects that exist with those that the
-- site asks for, and writes the differences. A disabled site loses its deployments, services and
-- ingresses.
pub mod Desired
pub mod Workloads
pub mod Networking
pub mod Configs
use kube_stager.Base.{
  Bool, true, false, not, Option, none, some, List, [], ◌∷◌, ◌++◌, map, Text, pos, Assoc,
  if◌then◌else◌,
}
use kube_stager.Api.{
  ObjectMeta, StagingSite, StagingSiteService, ServiceConfig, label_site, label_service,
}
use kube_stager.Controller.{Result, ok, err, ◌>>=◌, Error}
use kube_stager.Templates.Values.{ConfigReader, new_site, load_configs, get_template_values}
use kube_stager.Sync.{
  Write, deleted, updated, created, Changes, Run, changes_from, write_all, run_writes, no_run,
  ensure_created,
}

-- The answers of the API server for the objects of one kind, and the digest of names.
pub record ResourceApi (O : Type 0) : Type 0 where
  pub list_for_site : Result (List O)
  pub get_service_config : Text → Result ServiceConfig
  pub reader : ConfigReader
  pub set_controller_reference : O → Result O
  pub accepts : Write O → Option Error
  pub md5_base36 : Text → Text

-- A handler changes the status of the site that it is given, and writes objects.
pub record Ensured (O : Type 0) : Type 0 where
  pub site : StagingSite
  pub writes : List (Write O)
  pub answer : Result Bool

-- `!=` of flags.
abbrev pub differs : Bool → Bool → Bool
differs true b = not b
differs false b = b

-- NewSite and LoadConfigs, and the values of the template variables.
unfoldable pub loaded_values :
    (Text → Text) → ConfigReader → StagingSite → ServiceConfig → Result (Assoc Text)
unfolding load_configs get_template_values
loaded_values md5_base36 reader site config =
    load_configs reader (new_site site config) >>= λ handler.
    ok (get_template_values md5_base36 handler)

abbrev pub object_labels : StagingSite → ServiceConfig → Assoc Text
object_labels site config = (label_site, site.name) ∷ (label_service, config.name) ∷ []

abbrev pub object_meta : Text → StagingSite → Assoc Text → Assoc Text → ObjectMeta
object_meta name site labels annotations = record {
  name = name;
  namespace = site.namespace;
  labels = labels;
  annotations = annotations;
  finalizers = [];
  deletion_timestamp = none;
  creation_timestamp = pos 0;
  controller = none;
}

module _ {O : Type 0} (key_of : O → Text) (accepts : Write O → Option Error) where
  -- The loops over the three maps: deletions, updates, creations.
  unfoldable pub write_changes : Changes O → Run O
  unfolding write_all run_writes
  write_changes changes =
      run_writes accepts
        (write_all deleted changes.to_delete
          ++ (write_all updated changes.to_update ++ write_all created changes.to_create))
        true

  unfoldable pub delete_each : List O → Run O
  unfolding write_all run_writes
  delete_each list =
      run_writes accepts (write_all deleted (map (λ object. (key_of object, object)) list)) true

  -- Services and ingresses are never revised, so that there are no updates.
  unfoldable pub change_objects : (O → O → Option O) → List O → Assoc O → Run O
  unfolding changes_from write_changes
  change_objects revised list expected = write_changes (changes_from key_of revised list expected)

module _ {O : Type 0} (key_of : O → Text) (revised : O → O → Option O) (api : ResourceApi O) where
  unfoldable pub ensure_objects :
      Bool → (Text → StagingSiteService → Result (Option O)) → Assoc StagingSiteService → Run O
  unfolding ensure_created delete_each change_objects
  ensure_objects enabled wanted services = elim (api.list_for_site) [
    | err e ↦ no_run e
    | ok list ↦
        if enabled
        then ensure_created (ok list) wanted services (change_objects key_of api.accepts revised)
        else delete_each key_of api.accepts list
  ]
