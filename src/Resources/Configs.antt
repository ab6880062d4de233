-- ===== src/Resources/Configs.antt =====
-- handlers/site/config_handler.go.
pub mod Expected
pub mod Stored
use kube_stager.Base.{
  Bool, true, false, ◌&&◌, Option, none, some, List, [], ◌∷◌, ◌++◌, Text, bytes, Assoc, lookup,
  insert, if◌then◌else◌,
}
use kube_stager.Names.{make_configmap_name}
use kube_stager.Api.{
  StagingSite, StagingSiteService, ServiceConfig, ConfigMap, label_site, label_service, label_type,
  service_label, type_label,
}
use kube_stager.Controller.{Result, ok, err, ◌>>=◌, Error}
use kube_stager.Templates.{replace_template_variables_in_string_map}
use kube_stager.Task.Database.{equal_maps}
use kube_stager.Sync.{Run, no_run}
use kube_stager.Resources.{
  ResourceApi, Ensured, differs, loaded_values, object_meta, change_objects,
}

abbrev pub make_configmap_key : Text → Text → Text
make_configmap_key service configmap = service ++ (b'.' ∷ configmap)

abbrev pub key_of : ConfigMap → Text
key_of map = make_configmap_key (service_label map.meta) (type_label map.meta)

-- reflect.DeepEqual of the data; a nil map and an empty one are not told apart.
unfoldable pub revised_config_map : ConfigMap → ConfigMap → Option ConfigMap
unfolding equal_maps
revised_config_map existing expected =
    if equal_maps expected.entries existing.entries
    then none
    else some (record existing { entries = expected.entries })

abbrev result_of : Assoc Text × Option Error → Result (Assoc Text)
result_of (m, none) = ok m
result_of (m, some e) = err e

new_config_map : (Text → Text) → StagingSite → ServiceConfig → Text → Assoc Text → ConfigMap
unfolding make_configmap_name
new_config_map md5_base36 site config type_name entries = record {
  meta =
      object_meta (make_configmap_name md5_base36 site config type_name) site
        ((label_site, site.name) ∷ (label_service, config.name) ∷ (label_type, type_name) ∷ []) [];
  entries = entries;
}

module _ (api : ResourceApi ConfigMap) (site : StagingSite) where
  unfoldable pub create_config_map : ServiceConfig → Text → Assoc Text → Result ConfigMap
  unfolding loaded_values replace_template_variables_in_string_map new_config_map
  create_config_map config type_name entries =
      loaded_values api.md5_base36 api.reader site config >>= λ values.
      result_of
        (replace_template_variables_in_string_map entries (bytes "configmap data") (values ∷ []))
      >>= λ replaced.
          api.set_controller_reference
            (new_config_map api.md5_base36 site config type_name replaced)

  -- The loop over the config maps of a service.
  unfoldable pub expected_of_config :
      ServiceConfig → Assoc (Assoc Text) → Assoc ConfigMap → Result (Assoc ConfigMap)
  unfolding create_config_map
  expected_of_config config [] expected = ok expected
  expected_of_config config ((type_name, entries) ∷ maps) expected =
      elim (create_config_map config type_name entries) [
        | err e ↦ err e
        | ok made ↦
            expected_of_config config maps
              (insert (make_configmap_key config.name type_name) made expected)
      ]

  -- The loop over the services.
  unfoldable pub expected_config_maps :
      Assoc StagingSiteService → Assoc ConfigMap → Result (Assoc ConfigMap)
  unfolding expected_of_config
  expected_config_maps [] expected = ok expected
  expected_config_maps ((name, _) ∷ services) expected = elim (api.get_service_config name) [
    | err e ↦ err e
    | ok config ↦ elim (expected_of_config config config.spec.config_maps expected) [
      | err e ↦ err e
      | ok expected' ↦ expected_config_maps services expected'
    ]
  ]

  unfoldable pub ensure_configmaps_are_up_to_date : Run ConfigMap
  unfolding expected_config_maps change_objects revised_config_map
  ensure_configmaps_are_up_to_date = elim (api.list_for_site) [
    | err e ↦ no_run e
    | ok list ↦ elim (expected_config_maps site.spec.services []) [
      | err e ↦ no_run e
      | ok expected ↦ change_objects key_of api.accepts revised_config_map list expected
    ]
  ]

  unfoldable pub ensure_configs_are_up_to_date : Ensured ConfigMap
  unfolding ensure_configmaps_are_up_to_date
  ensure_configs_are_up_to_date =
      let run = ensure_configmaps_are_up_to_date in
      elim (run.answer) [
        | err e ↦ record { site = site; writes = run.writes; answer = err e }
        | ok complete ↦ record {
          site = record site { status = record site.status { configs_are_created = complete } };
          writes = run.writes;
          answer = ok (differs site.status.configs_are_created complete);
        }
      ]
