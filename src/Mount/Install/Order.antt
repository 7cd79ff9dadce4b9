-- ===== src/Mount/Install/Order.antt =====
-- The order of the calls that installing a mount makes: which calls may come after which.
pub mod Held
use gefyra.Prelude.{
  ℕ, ◌≡◌, refl, Bool, true, false, List, [], ◌∷◌, some, arith, Text, codes, text_eq, text_eq_refl,
  if◌then◌else◌, any, Bool-cases, inl, inr,
}
use gefyra.Result.{
  Result, ok, err, Error, temporary_error, bridge_install_exception, runtime_error, api_exception,
}
use gefyra.Cluster.{Container, LivePod}
use gefyra.Lifecycle.Machine.{◌>=>◌, ◌>&&>◌, done, raise, catching, caught, and_then}
use gefyra.Carrier.Config.{Carrier2Config}
use gefyra.Mount.Tls.{Which, certificate, key, tls_param_from_key_secret}
use gefyra.Mount.Calls.{
  Call, add_original, create_originals, patch_pod, await_restart, inject_file, commit, Trace, Step,
  OriginalConfig, original_of, call, read, is_missing, is_api_exception, is_runtime_error, recorded,
}
use gefyra.Mount.Install.{
  Target, original_key, Mounted, find_target, config_for, store_pod_original_config, patch_target,
  inject_one, inject_files, in_time, install_pod, install_pods, install, has_many_owners,
}

-- A call that stores the original configuration under a key, and a wait for a pod.
unfoldable pub stores : Text → Call → Bool
stores name (add_original k c) = text_eq k name
stores name (create_originals k c) = text_eq k name
stores name c = false

unfoldable pub awaits : Text → Call → Bool
awaits pod (await_restart p) = text_eq p pod
awaits pod c = false

-- A pod is patched only after its original configuration was stored; files are injected and a
-- configuration is committed only after its restart was awaited.
unfoldable pub allowed : Text → Call → Trace → Bool
unfolding stores awaits
allowed namespace (patch_pod pod cs) before = any (stores (original_key namespace pod)) before
allowed namespace (inject_file pod c which port) before = any (awaits pod) before
allowed namespace (commit pod c) before = any (awaits pod) before
allowed namespace c before = true

abbrev pub IsOrdered : Text → Trace → Type 0
IsOrdered namespace [] = Unit
IsOrdered namespace (c ∷ before) = (allowed namespace c before ≡ true) × IsOrdered namespace before
