-- ===== src/Api/Objects.antt =====
-- The objects of Kubernetes that handlers/site keeps, with the fields that it reads or writes.
use kube_stager.Base.{Option, none, some, [], Text, ℤ, Assoc, lookup}
use kube_stager.Api.Meta.{ObjectMeta, label_service, label_type}
use kube_stager.Api.Config.{PodSpec}

pub record ConfigMap : Type 0 where
  pub meta : ObjectMeta
  pub entries : Assoc Text

pub record Deployment : Type 0 where
  pub meta : ObjectMeta
  pub replicas : ℤ
  pub selector : Assoc Text
  pub template_labels : Assoc Text
  pub template_spec : PodSpec
  -- Of the status.
  pub ready_replicas : ℤ

-- A service of Kubernetes; its spec is the selector and the rest as text.
pub record KubeService : Type 0 where
  pub meta : ObjectMeta
  pub selector : Assoc Text
  pub manifest : Text

pub record Ingress : Type 0 where
  pub meta : ObjectMeta
  pub manifest : Text

-- The value of a label, which is empty where the object does not have it.
abbrev text_or_empty : Option Text → Text
text_or_empty none = []
text_or_empty (some value) = value

abbrev pub service_label : ObjectMeta → Text
service_label meta = text_or_empty (lookup label_service meta.labels)

abbrev pub type_label : ObjectMeta → Text
type_label meta = text_or_empty (lookup label_type meta.labels)
