-- ===== src/Carrier/Pods.antt =====
-- Adding and removing a bridge in all pods of a mount (`ready`, `add_proxy_route` and
-- `remove_proxy_route` of operator/gefyra/bridge/carrier2/__init__.py). The updates that run
-- concurrently touch different pods and are made one after the other; of the exceptions that they
-- raise the first in this order is the one that is raised.
pub mod Gathered
pub mod Routed
use gefyra.Prelude.{
  ℕ, Bool, true, false, ◌&&◌, List, [], ◌∷◌, Option, none, some, Text, if◌then◌else◌,
}
use gefyra.Prelude.Dict.{Dict}
use gefyra.Result.{Result, ok, err, Error, runtime_error, temporary_error, or_raise, ◌>>=◌}
use gefyra.Cluster.{ContainerStatus, LivePod, Service}
use gefyra.Lifecycle.Machine.{Action, ◌>=>◌, ◌>&&>◌, done, raise}
use gefyra.Carrier.Config.{Bridge, Carrier2Config, CarrierRule, add_bridge_rules_for_mount}
use gefyra.Carrier.Provider.{base_carrier_config}
use gefyra.Mount.Tls.{SecretRef, Params}
use gefyra.Mount.Health.{pod_ready_and_healthy}

-- A configuration that was committed to a pod.
pub record Commit : Type 0 where
  pub pod : Text
  pub config : Carrier2Config

-- The `updated` attribute of the provider, and the commits, the last one first.
pub record World : Type 0 where
  pub updated : Bool
  pub commits : List Commit

-- The provider's bridge and mount, and what is read in a run.
pub record Served (Raw : Type 0) : Type 0 where
  pub bridge_name : Text
  pub container : Text
  pub mount_ready : Result Bool
  pub pods : Result (List LivePod)
  pub svc : Result Service
  pub read_secret : SecretRef → Result Text
  pub parameter : Option Params
  pub bridges : Result (List (Bridge Raw))
  pub validate : Dict Raw → Result CarrierRule

-- `all([f(pod) for pod in pods])`, where the list is made first
unfoldable pub all_of : (LivePod → Result Bool) → List LivePod → Result Bool
all_of f [] = ok true
all_of f (p ∷ ps) = let later = all_of f ps in f p >>= λ b. later >>= λ c. ok (b && c)

module _ {Raw : Type 0} (served : Served Raw)
    (outcome : List Commit → Commit → Result (Unit {0})) where
  open served use {svc, read_secret, parameter, validate}

  abbrev read {ℓ} : {A : Type ℓ} → Result A → Action World A
  read r w = (w, r)

  abbrev true_or_raise : Bool → Action World (Unit {0})
  true_or_raise b = if b then done else raise temporary_error

  -- `ready`, which returns True or raises
  unfoldable pub ready : Action World Bool
  unfolding all_of
  ready = read served.mount_ready >=> λ mounted.
      true_or_raise mounted
      >&&> (read served.pods >=> λ ps.
          read (all_of (pod_ready_and_healthy served.container) ps) >=> λ healthy.
          true_or_raise healthy >&&> λ w. (w, ok true))

  -- A commit that fails leaves nothing behind.
  abbrev committed : World → Commit → Result (Unit {0}) → World × Result (Unit {0})
  committed w c (ok u) = (record w { commits = c ∷ w.commits }, ok tt)
  committed w c (err e) = (w, err e)

  unfoldable pub commit : Commit → Action World (Unit {0})
  commit c w = committed w c (outcome w.commits c)

  -- `update_carrier_config_add` and `update_carrier_config_remove` on a pod, up to the commit: first
  -- the base configuration, then the bridges as they are listed
  unfoldable pub config_with : Option Text → Option Text → LivePod → Result Carrier2Config
  config_with add rm p = do
    base ← base_carrier_config svc read_secret parameter served.container p.containers
    bridges ← served.bridges
    add_bridge_rules_for_mount validate bridges add rm base

  abbrev pub added_config : LivePod → Result Carrier2Config
  added_config = config_with (some served.bridge_name) none

  abbrev pub removed_config : LivePod → Result Carrier2Config
  removed_config = config_with none (some served.bridge_name)

  unfoldable pub update_pod : (LivePod → Result Carrier2Config) → LivePod → Action World (Unit {0})
  unfolding commit
  update_pod f p = read (f p) >=> λ config. commit (record { pod = p.name; config = config })

  -- `asyncio.gather`: all updates are run, whatever one of them raises.
  abbrev first_error : Result (Unit {0}) → World × Result (Unit {0}) → World × Result (Unit {0})
  first_error (ok u) r = r
  first_error (err e) (w, r) = (w, err e)

  unfoldable pub gather :
      (LivePod → Action World (Unit {0})) → List LivePod → Action World (Unit {0})
  gather f [] w = (w, ok tt)
  gather f (p ∷ ps) w = first_error (f p w).1 (gather f ps (f p w).0)

  abbrev set_updated : Action World (Unit {0})
  set_updated w = (record w { updated = true }, ok tt)

  abbrev true_or_refuse : Bool → Action World (Unit {0})
  true_or_refuse b = if b then done else raise runtime_error

  -- The update of all pods, once the provider is ready.
  unfoldable pub update_pods : (LivePod → Result Carrier2Config) → Action World (Unit {0})
  unfolding ready update_pod gather
  update_pods f =
      ready >=> λ r. true_or_refuse r >&&> (read served.pods >=> λ ps. gather (update_pod f) ps)

  -- `add_proxy_route`
  unfoldable pub add_proxy_route : Action World (Unit {0})
  unfolding update_pods config_with
  add_proxy_route w =
      let run = (update_pods added_config >&&> set_updated) w in
      if w.updated then (w, ok tt) else run

  -- `remove_proxy_route`
  unfoldable pub remove_proxy_route : Action World (Unit {0})
  unfolding update_pods config_with
  remove_proxy_route = update_pods removed_config
