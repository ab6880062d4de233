-- ===== src/Jobs.antt =====
-- The handlers of handlers/job, which the site controller calls.
pub mod Init
pub mod Migration
pub mod Final
use kube_stager.Base.{Text, [], none, pos, ◌++◌, ◌∷◌}
use kube_stager.Names.{shorten_human_readable_value}
use kube_stager.Api.{ObjectMeta, StagingSite, ServiceConfig, label_site, label_service}

-- The metadata of a job of a service, as PopulateFomSite writes them.
unfoldable pub job_meta : (Text → Text) → StagingSite → ServiceConfig → ObjectMeta
unfolding shorten_human_readable_value
job_meta md5_base36 site config = record {
  name =
      shorten_human_readable_value md5_base36 site.name (pos 50) ++ (b'-' ∷ config.spec.short_name);
  namespace = site.namespace;
  labels = (label_site, site.name) ∷ (label_service, config.name) ∷ [];
  annotations = [];
  finalizers = [];
  deletion_timestamp = none;
  creation_timestamp = pos 0;
  controller = none;
}
