-- ===== src/Scenarios/Mounts.antt =====
-- Bridge mounts: names, shadows, upstreams and TLS files.
use gefyra.Prelude.{◌≤◌, ◌≡◌, ◌↔◌, refl, [], ◌∷◌, none, some, Text, codes, text_eq, length, show}
use gefyra.Prelude.Dict.{Dict, lookup, insert}
use gefyra.Result.{Result, ok}
use gefyra.Cluster.{Container, Service, Workload, deployment}
use gefyra.Mount.Names
use gefyra.Mount.Names.{
  Kind, generate_k8s_conform_name, generate_duplicate_workload_name, gefyra_workload_name,
  gefyra_target, split_target_type_name, workload_suffix, kind_of, lower,
}
use gefyra.Mount.Names.Shapes.{uninstall_name_iff}
use gefyra.Mount.Clone.{duplication_id, clone_workload_structure, get_svc_for_workload}
use gefyra.Mount.Clone.Selection.{Selects}

split_sts : split_target_type_name (codes "STS/my-db") ≡ ok (codes "my-db", Kind.stateful_set)
unfolding split_target_type_name
split_sts = refl

uninstall_name_iff_example :
    (gefyra_workload_name (codes "STS/my-db")
      ≡ ok (generate_duplicate_workload_name (codes "my-db")))
    ↔ (length (codes "my-db") ≤ 56)
uninstall_name_iff_example =
    uninstall_name_iff (codes "STS/my-db") (codes "my-db") Kind.stateful_set split_sts

abbrev app_label : Text
app_label = codes "app"

abbrev web_labels : Dict Text
web_labels = (app_label, codes "web") ∷ []

web-Selects : Selects web_labels web_labels
web-Selects k v e = e

abbrev web_container : Container
web_container = record {
  name = codes "web";
  image = codes "web:1";
  command = none;
  args = none;
  ports = some (80 ∷ []);
  startup_probe = none;
  readiness_probe = none;
  liveness_probe = none;
}

abbrev web_workload : Workload
web_workload = deployment (record {
  metadata = record {
    name = codes "web";
    labels = some web_labels;
    annotations = none;
    resource_version = some (codes "7");
    uid = some (codes "x");
  };
  template_labels = some web_labels;
  match_labels = some web_labels;
  containers = web_container ∷ [];
})

web_svc : Result Service
web_svc =
    get_svc_for_workload (codes "deploy/web") (codes "web") (codes "prod")
      (clone_workload_structure (codes "u1") web_workload)

abbrev expected_svc : Service
expected_svc = record {
  name = codes "web-web-gefyra-svc";
  namespace = codes "prod";
  labels = (app_label, codes "web-gefyra") ∷ [];
  selector = (duplication_id, codes "u1") ∷ [];
  ports = record { name = codes "80-0"; port = 80; target_port = 80 } ∷ [];
}

web_svc_built :
    get_svc_for_workload
      (codes "deploy/web")
      (codes "web")
      (codes "prod")
      (clone_workload_structure (codes "u1") web_workload)
    ≡ ok expected_svc
unfolding get_svc_for_workload clone_workload_structure split_target_type_name lookup insert text_eq
    gefyra.Mount.Upstreams.get_ports_for_workload Names.generate_duplicate_svc_name
    generate_k8s_conform_name show
web_svc_built = refl
