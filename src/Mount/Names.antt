-- ===== src/Mount/Names.antt =====
-- Names of shadow workloads and services (operator/gefyra/bridge_mount/utils.py) and the parsing of
-- a target (operator/gefyra/bridge_mount/carrier2mount/__init__.py).
pub mod Shapes
pub mod Targets
use gefyra.Prelude.{
  ℕ, zero, suc, ◌+◌, ◌-◌, ◌≤◌, ◌<◌, ◌≡◌, refl, Bool, true, false, ◌||◌, List, [], ◌∷◌, ◌++◌, arith,
  Text, codes, leb, if◌then◌else◌, length, take, has_text, split_once, Cut, whole, parts, map,
  text_eq,
}
use gefyra.Result.{Result, ok, err, mount_exception, mount_target_exception, ◌>>=◌}

-- `name[:k]` where `k` is `max_length - len(suffix)`, which Python counts from the end if negative.
abbrev slice_to : Text → ℕ → ℕ → Text
slice_to name max_length used =
    if leb used max_length
    then take (max_length - used) name
    else take (length name - (used - max_length)) name

unfoldable pub generate_k8s_conform_name : Text → Text → ℕ → Text
generate_k8s_conform_name name suffix max_length =
    if leb (length name + length suffix) max_length
    then name ++ suffix
    else slice_to name max_length (length suffix) ++ suffix

-- the default of `max_length`
abbrev pub max_name : ℕ
max_name = 63

abbrev pub workload_suffix : Text
workload_suffix = codes "-gefyra"

abbrev pub svc_suffix : Text
svc_suffix = codes "-gefyra-svc"

unfoldable pub generate_duplicate_svc_name : Text → Text → Text
generate_duplicate_svc_name workload_name container_name =
    generate_k8s_conform_name (workload_name ++ (codes "-" ++ container_name)) svc_suffix max_name

unfoldable pub generate_duplicate_workload_name : Text → Text
generate_duplicate_workload_name workload_name =
    generate_k8s_conform_name workload_name workload_suffix max_name

unfoldable pub get_duplicate_svc_fqdn : Text → Text → Text → Text
unfolding generate_duplicate_svc_name
get_duplicate_svc_fqdn workload_name container_name namespace =
    generate_duplicate_svc_name workload_name container_name
    ++ (codes "." ++ (namespace ++ codes ".svc.cluster.local"))

-- The classes V1Deployment, V1StatefulSet and V1Pod.
pub data Kind : Type 0 where
  deployment stateful_set pod : Kind

-- `s.lower()` on ASCII letters; workload kinds and probe schemes are ASCII.
abbrev pub lower_code : ℕ → ℕ
lower_code c = if leb 65 c then (if leb c 90 then c + 32 else c) else c

unfoldable pub lower : Text → Text
lower = map lower_code

unfoldable pub kind_of : Text → Result Kind
kind_of kind =
    if has_text kind (codes "deployment" ∷ codes "deploy" ∷ codes "deployments" ∷ [])
    then ok deployment
    else if has_text kind (codes "statefulset" ∷ codes "sts" ∷ codes "statefulsets" ∷ [])
    then ok stateful_set
    else if has_text kind (codes "pod" ∷ codes "po" ∷ codes "pods" ∷ [])
    then ok pod
    else err mount_exception

abbrev split_parts : Cut → Result (Text × Kind)
split_parts (whole target) = err mount_target_exception
split_parts (parts kind name) = do type ← kind_of (lower kind); ok (name, type)

unfoldable pub split_target_type_name : Text → Result (Text × Kind)
unfolding kind_of lower text_eq split_once
split_target_type_name target = split_parts (split_once b'/' target)

-- `_gefyra_workload_name`
unfoldable pub gefyra_workload_name : Text → Result Text
gefyra_workload_name target = do
  split ← split_target_type_name target
  ok (split.0 ++ workload_suffix)

abbrev kind_word : Kind → Text
kind_word deployment = codes "deployment"
kind_word stateful_set = codes "statefulset"
kind_word pod = codes "pod"

-- `_gefyra_workload_type`
unfoldable pub gefyra_workload_type : Text → Result Text
gefyra_workload_type target = do split ← split_target_type_name target; ok (kind_word split.1)

-- `gefyra_svc_name`
unfoldable pub gefyra_svc_name : Text → Text → Result Text
gefyra_svc_name target container = do
  split ← split_target_type_name target
  ok (generate_duplicate_svc_name split.0 container)

-- The target that `_gefyra_pods` reads the shadow's pods by.
unfoldable pub gefyra_target : Text → Result Text
unfolding gefyra_workload_type gefyra_workload_name
gefyra_target target = do
  type ← gefyra_workload_type target
  name ← gefyra_workload_name target
  ok (type ++ (codes "/" ++ name))
