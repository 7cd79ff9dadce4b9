-- ===== src/Scenarios/Admission.antt =====
-- Requests that are admitted and refused.
use gefyra.Prelude.{List, ◌≡◌, ◌↔◌, [], ◌∷◌, some, Text, codes, text_eq, All}
use gefyra.Prelude.Dict.{Dict}
use gefyra.Result.{ok}
use gefyra.Carrier.Admission.{BridgeRequest, ExistingMount, MountRequest, validate_bridge}
use gefyra.Carrier.Admission.Accepted.{HasLabels, IsApart, validate_bridge_iff}

abbrev mounts : List ExistingMount
mounts = record { target = codes "deploy/web"; target_namespace = codes "prod" } ∷ []

abbrev mount_request : MountRequest
mount_request = record {
  target = some (codes "deploy/web");
  target_namespace = some (codes "test");
  target_container = some (codes "web");
}

abbrev request : BridgeRequest Text
request = record {
  labels =
      some (
        (codes "gefyra.dev/bridge-mount", codes "m") ∷ (codes "gefyra.dev/client", codes "c") ∷ []);
  target = codes "m";
  destination_ip = codes "10.0.0.2";
  provider_parameter = [];
}

validate_bridge_iff_example :
    (validate_bridge text_eq request (ok (codes "ACTIVE")) (ok (request ∷ [])) ≡ ok tt) ↔ (
      (labels : Dict Text) × HasLabels request.labels labels
      × (ok (codes "ACTIVE") ≡ ok (codes "ACTIVE"))
      × All (IsApart text_eq request labels) (request ∷ []))
validate_bridge_iff_example =
    validate_bridge_iff text_eq request (ok (codes "ACTIVE")) (request ∷ [])
