-- ===== src/Mount/Clone.antt =====
-- The shadow of a workload and its service
-- (operator/gefyra/bridge_mount/carrier2mount/__init__.py). A uuid that the code draws is an
-- argument.
pub mod Labels
pub mod Selection
use gefyra.Prelude.{
  Bool, true, false, not, List, [], ◌∷◌, ◌++◌, Option, none, some, Text, codes, text_eq,
  if◌then◌else◌, has_text,
}
use gefyra.Prelude.Dict.{Dict, lookup, insert}
use gefyra.Result.{Result, ok, err, key_error, ◌>>=◌}
use gefyra.Cluster.{
  Container, Metadata, Controller, Pod, Service, Workload, deployment, stateful_set, pod,
}
use gefyra.Mount.Names.{
  generate_k8s_conform_name, generate_duplicate_workload_name, generate_duplicate_svc_name,
  split_target_type_name, workload_suffix, max_name,
}
use gefyra.Mount.Upstreams.{get_ports_for_workload}

-- What `_get_duplication_labels` makes of a value.
abbrev pub duplicate_value : Text → Text
duplicate_value v = generate_k8s_conform_name v workload_suffix max_name

duplicate_from : Dict Text → Dict Text → Dict Text
duplicate_from acc [] = acc
duplicate_from acc ((k, v) ∷ labels) = duplicate_from (insert k (duplicate_value v) acc) labels

unfoldable pub get_duplication_labels : Dict Text → Dict Text
unfolding duplicate_from
get_duplication_labels labels = duplicate_from [] labels

abbrev pub annotation_filter : List Text
annotation_filter =
    codes "kubectl.kubernetes.io/last-applied-configuration"
    ∷ codes "deployment.kubernetes.io/revision"
    ∷ []

unfoldable pub clean_annotations : Dict Text → Dict Text
clean_annotations [] = []
clean_annotations ((k, v) ∷ annotations) =
    let rest = clean_annotations annotations in
    if has_text k annotation_filter then rest else (k, v) ∷ rest

-- `d or {}`
abbrev pub or_empty : Option (Dict Text) → Dict Text
or_empty none = []
or_empty (some d) = d

abbrev pub duplication_id : Text
duplication_id = codes "bridge.gefyra.dev/duplication-id"

abbrev clone_metadata : Metadata → Metadata
clone_metadata m = record {
  name = generate_duplicate_workload_name m.name;
  labels = some (get_duplication_labels (or_empty m.labels));
  annotations = some (clean_annotations (or_empty m.annotations));
  resource_version = none;
  uid = none;
}

abbrev clone_controller : Text → Controller → Controller
clone_controller uuid w = record {
  metadata = clone_metadata w.metadata;
  template_labels =
      some (insert duplication_id uuid (get_duplication_labels (or_empty w.template_labels)));
  match_labels = some (get_duplication_labels (or_empty w.match_labels));
  containers = w.containers;
}

unfoldable pub clone_workload_structure : Text → Workload → Workload
unfolding get_duplication_labels clean_annotations
clone_workload_structure uuid (deployment w) = deployment (clone_controller uuid w)
clone_workload_structure uuid (stateful_set w) = stateful_set (clone_controller uuid w)
clone_workload_structure uuid (pod w) =
    let labels = insert duplication_id uuid (get_duplication_labels (or_empty w.metadata.labels)) in
    let metadata = clone_metadata w.metadata in
    pod (record w { metadata = record metadata { labels = some labels } })

-- The labels of the pods of a workload.
abbrev pub pod_labels : Workload → Option (Dict Text)
pod_labels (deployment w) = w.template_labels
pod_labels (stateful_set w) = w.template_labels
pod_labels (pod w) = w.metadata.labels

abbrev pub metadata_of : Workload → Metadata
metadata_of (deployment w) = w.metadata
metadata_of (stateful_set w) = w.metadata
metadata_of (pod w) = w.metadata

abbrev pub or_key_error {ℓ} : {A : Type ℓ} → Option A → Result A
or_key_error none = err key_error
or_key_error (some a) = ok a

-- `_get_svc_for_workload`; the namespace is the one that the service is created in
unfoldable pub get_svc_for_workload : Text → Text → Text → Workload → Result Service
get_svc_for_workload target container namespace workload = do
  split ← split_target_type_name target
  id ← or_key_error (lookup duplication_id (or_empty (pod_labels workload)))
  ports ← get_ports_for_workload workload container
  ok (record {
    name = generate_duplicate_svc_name split.0 container;
    namespace = namespace;
    labels = or_empty (metadata_of workload).labels;
    selector = (duplication_id, id) ∷ [];
    ports = ports;
  })
