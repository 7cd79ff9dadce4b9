-- ===== src/Mount/Health.antt =====
-- Whether the pods of a mount run (operator/gefyra/bridge_mount/carrier2mount/__init__.py and
-- operator/gefyra/utils.py). A StopIteration that leaves a coroutine is a RuntimeError.
pub mod Quantified
pub mod Meaning
use gefyra.Prelude.{
  ℕ, Bool, true, false, ◌&&◌, List, [], ◌∷◌, Option, none, some, Text, codes, text_eq,
  if◌then◌else◌,
}
use gefyra.Result.{Result, ok, err, runtime_error, or_raise, ◌>>=◌}
use gefyra.Cluster.{Container, ContainerStatus, LivePod}

-- `async_any`, over the results of the awaited elements: it stops at the first that is true.
unfoldable pub async_any {ℓ} : {A : Type ℓ} → (A → Result Bool) → List A → Result Bool
async_any f [] = ok false
async_any f (x ∷ xs) = let later = async_any f xs in f x >>= λ b. if b then ok true else later

-- `async_all`: it stops at the first that is false.
unfoldable pub async_all {ℓ} : {A : Type ℓ} → (A → Result Bool) → List A → Result Bool
async_all f [] = ok true
async_all f (x ∷ xs) = let later = async_all f xs in f x >>= λ b. if b then later else ok false

-- `_pod_is_running`
unfoldable pub pod_is_running : LivePod → Bool
pod_is_running p = text_eq p.phase (codes "Running")

-- The status of the container with a name: the first one.
unfoldable pub status_of : Text → List ContainerStatus → Option ContainerStatus
status_of name [] = none
status_of name (s ∷ ss) = if text_eq s.name name then some s else status_of name ss

abbrev is_true : Option Bool → Bool
is_true none = false
is_true (some b) = b

-- A `running` state with a `started_at`, which is not empty
abbrev has_started : Option (Option Text) → Bool
has_started none = false
has_started (some none) = false
has_started (some (some [])) = false
has_started (some (some (c ∷ s))) = true

unfoldable pub is_healthy : LivePod → ContainerStatus → Bool
is_healthy p s = pod_is_running p && s.ready && is_true s.started && has_started s.running

abbrev healthy_with : LivePod → Text → Option (List ContainerStatus) → Result Bool
healthy_with p name none = ok false
healthy_with p name (some []) = ok false
healthy_with p name (some (s ∷ ss)) = do
  status ← or_raise runtime_error (status_of name (s ∷ ss))
  ok (is_healthy p status)

-- `pod_ready_and_healthy`
unfoldable pub pod_ready_and_healthy : Text → LivePod → Result Bool
unfolding status_of is_healthy pod_is_running
pod_ready_and_healthy name p = healthy_with p name p.container_statuses

-- `_original_pods_ready` and `_duplicated_pods_ready`, on the pods as they are read
unfoldable pub original_pods_ready : Text → List LivePod → Result Bool
original_pods_ready name = async_all (pod_ready_and_healthy name)

unfoldable pub duplicated_pods_ready : Text → List LivePod → Result Bool
duplicated_pods_ready name = async_any (pod_ready_and_healthy name)

-- The containers of a pod that have the mount's name run the image.
unfoldable pub containers_have : Text → Text → List Container → Bool
containers_have name image [] = true
containers_have name image (c ∷ cs) =
    let rest = containers_have name image cs in
    if text_eq c.name name then text_eq c.image image && rest else rest

-- `_carrier_installed`
unfoldable pub carrier_installed : Text → Text → List LivePod → Bool
carrier_installed name image [] = true
carrier_installed name image (p ∷ ps) =
    containers_have name image p.containers && carrier_installed name image ps
