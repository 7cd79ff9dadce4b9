-- ===== src/Mount/Ready.antt =====
-- Whether a mount is ready, and the update of injected TLS files on the way (`ready` and `prepared` of
-- operator/gefyra/bridge_mount/carrier2mount/__init__.py, `update_tls_file` of
-- operator/gefyra/bridge_mount/utils.py). What is read does not change in a run.
pub mod Healthy
pub mod Upstreams
pub mod Skipped
use gefyra.Prelude.{
  ℕ, Bool, true, false, not, ◌&&◌, ◌||◌, List, [], ◌∷◌, Option, none, some, Text, codes, text_eq,
  strip, if◌then◌else◌, any,
}
use gefyra.Result.{
  Result, ok, err, Error, runtime_error, value_error, type_error, index_error,
  bridge_install_exception, or_raise, ◌>>=◌,
}
use gefyra.Cluster.{Container, LivePod}
use gefyra.Lifecycle.Machine.{Action, ◌>=>◌, ◌>&&>◌, done, raise, catching}
use gefyra.Carrier.Config.{Carrier2Config, Carrier2Proxy}
use gefyra.Mount.Upstreams.{or_type_error}
use gefyra.Mount.Tls.{
  Params, SecretRef, TlsValue, plain, from_secret, Scope, Which, certificate, key, select_tls,
  tls_param_from_key_secret, injected_file,
}
use gefyra.Mount.Health.{
  async_any, async_all, pod_ready_and_healthy, original_pods_ready, duplicated_pods_ready,
  carrier_installed,
}
use gefyra.Mount.Calls.{Call, inject_file, commit, Trace, Step, call, read, is_runtime_error}

-- The mount, the operator's configuration, and what is read in a run.
pub record Watched : Type 0 where
  pub container : Text
  pub carrier_image : Text
  pub params : Params
  pub original_pods : Result (List LivePod)
  pub gefyra_pods : Result (List LivePod)
  pub read_secret : SecretRef → Result Text
  -- the lines of a file in a pod, and the configuration that a pod has
  pub read_file : Text → Text → Result (List Text)
  pub read_config : Text → Result Carrier2Config

-- `content_from_container[0]`
abbrev first_line : List Text → Result Text
first_line [] = err index_error
first_line (l ∷ ls) = ok l

abbrev secret_of : TlsValue → Result SecretRef
secret_of (plain v) = err type_error
secret_of (from_secret s) = ok s

-- An upstream list that is there and not empty.
abbrev pub has_upstream : Carrier2Proxy → Bool
has_upstream p = elim p.cluster_upstream [
  | none ↦ false
  | some ups ↦ elim ups [ [] ↦ false | u ∷ us ↦ true ]
]

module _ (mount : Watched) (outcome : Trace → Call → Result (Unit {0})) where
  open mount use {params}

  -- Whether the file that was injected differs from the secret.
  unfoldable pub file_differs : Text → Which → Option (Scope × TlsValue) → Result Bool
  file_differs pod which none = err value_error
  file_differs pod which (some (scope, v)) = do
    secret ← secret_of v
    wanted ← mount.read_secret secret
    lines ← mount.read_file pod (injected_file which scope)
    line ← first_line lines
    ok (not (text_eq (strip wanted) (strip line)))

  abbrev pub returning : Bool → Action Trace Bool
  returning b trace = (trace, ok b)

  -- `update_tls_file`
  unfoldable pub update_tls_file : Text → Which → ℕ → Action Trace Bool
  unfolding file_differs call
  update_tls_file pod which port =
      let inject =
        (call outcome (inject_file pod mount.container which port) >=> λ u. returning true) in
      read outcome (file_differs pod which (select_tls which params port)) >=> λ differs.
      if differs then inject else returning false

  -- `updated = await update(certificate)`, if a secret has it
  abbrev update_certificate : Text → ℕ → Bool → Action Trace Bool
  update_certificate pod port updated =
      if tls_param_from_key_secret certificate params port
      then update_tls_file pod certificate port
      else returning updated

  -- `updated = updated or await update(key)`, if a secret has it
  abbrev update_key : Text → ℕ → Bool → Action Trace Bool
  update_key pod port updated =
      if tls_param_from_key_secret key params port
      then if updated then returning true else update_tls_file pod key port
      else returning updated

  -- The loop over the ports, with `updated`.
  unfoldable pub update_files : Text → List ℕ → Bool → Action Trace Bool
  unfolding update_tls_file
  update_files pod [] updated = returning updated
  update_files pod (port ∷ ports) updated =
      update_certificate pod port updated >=> λ u. update_key pod port u >=> update_files pod ports

  abbrev commit_config : Text → Carrier2Config → Step
  commit_config pod config =
      catching is_runtime_error (raise bridge_install_exception) (call outcome (commit pod config))

  -- What is done for a container of the mount's name, with whether the loop goes on.
  unfoldable pub check_container : Text → Container → Action Trace Bool
  unfolding update_files call
  check_container pod c = read outcome (or_type_error c.ports) >=> λ ports.
      read outcome (mount.read_config pod) >=> λ config.
      let go_on =
        (update_files pod ports false >=> λ updated.
        (if updated then commit_config pod config else done) >=> λ u. returning true) in
      if any has_upstream config.proxy then go_on else returning false

  -- The loops over the containers of a pod and over the pods.
  unfoldable pub check_containers : Text → List Container → Action Trace Bool
  unfolding check_container
  check_containers pod [] = returning true
  check_containers pod (c ∷ cs) =
      let rest = check_containers pod cs in
      let here = (check_container pod c >=> λ go_on. if go_on then rest else returning false) in
      if text_eq c.name mount.container then here else rest

  unfoldable pub check_pods : List LivePod → Action Trace Bool
  unfolding check_containers
  check_pods [] = returning true
  check_pods (p ∷ ps) =
      let rest = check_pods ps in
      check_containers p.name p.containers >=> λ go_on. if go_on then rest else returning false

  -- `_upstream_set`
  abbrev pub upstream_set_on : List LivePod → Action Trace Bool
  upstream_set_on [] = returning false
  upstream_set_on (p ∷ ps) = check_pods (p ∷ ps)

  unfoldable pub upstream_set : Action Trace Bool
  unfolding check_pods
  upstream_set = read outcome mount.original_pods >=> upstream_set_on

  -- The four conditions, each on the pods as they are read.
  unfoldable pub shadow_ready : Action Trace Bool
  unfolding duplicated_pods_ready
  shadow_ready = read outcome (mount.gefyra_pods >>= duplicated_pods_ready mount.container)

  unfoldable pub carrier_there : Action Trace Bool
  carrier_there =
      read outcome (
        mount.original_pods >>= λ ps. ok (carrier_installed mount.container mount.carrier_image ps))

  unfoldable pub originals_ready : Action Trace Bool
  unfolding original_pods_ready
  originals_ready = read outcome (mount.original_pods >>= original_pods_ready mount.container)

  -- `a and b`
  infixr 4 ◌also◌
  abbrev pub ◌also◌ : Action Trace Bool → Action Trace Bool → Action Trace Bool
  a also b = a >=> λ x. if x then b else returning false

  -- The message for a mount that is not ready evaluates all four conditions again.
  abbrev pub reported : Action Trace Bool
  reported = shadow_ready >=> λ a.
      carrier_there >=> λ b. originals_ready >=> λ c. upstream_set >=> λ d. returning false

  -- The conditions one after the other, up to the first that fails.
  unfoldable pub conditions : Action Trace Bool
  conditions = shadow_ready also carrier_there also originals_ready also upstream_set

  -- The counts of the pods, which are read, and the message.
  abbrev pub concluded : Bool → Action Trace Bool
  concluded r = read outcome mount.gefyra_pods >=> λ shadow.
      read outcome mount.original_pods >=> λ original. if r then returning true else reported

  -- `ready`
  unfoldable pub ready : Action Trace Bool
  unfolding conditions shadow_ready carrier_there originals_ready upstream_set
  ready = conditions >=> concluded

  -- `prepared`; the count of the replicas is only logged
  unfoldable pub prepared : Action Trace Bool
  unfolding shadow_ready
  prepared = read outcome mount.gefyra_pods >=> λ shadow.
      read outcome mount.original_pods >=> λ original. shadow_ready
