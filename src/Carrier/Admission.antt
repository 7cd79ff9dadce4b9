-- ===== src/Carrier/Admission.antt =====
-- Admission of bridges (`validate` in operator/gefyra/bridge/carrier2/__init__.py) and of bridge
-- mounts (`validate` in operator/gefyra/bridge_mount/carrier2mount/__init__.py). What the Kubernetes
-- API returns, errors included, is an argument; provider parameters are compared by a parameter.
pub mod Accepted
use gefyra.Prelude.{
  ℕ, Bool, true, false, ◌&&◌, ◌||◌, not, List, [], ◌∷◌, Option, none, some, Text, codes, text_eq,
  ◌==◌, if◌then◌else◌, all, length,
}
use gefyra.Prelude.Dict.{Dict, lookup, has_key}
use gefyra.Result.{or_raise, Result, ok, err, admission_error, key_error, ◌>>=◌, ◌>>◌}
use gefyra.Mount.Names.{split_target_type_name}

-- A GefyraBridge, requested or existing, as far as it is compared.
pub record BridgeRequest (P : Type 0) : Type 0 where
  pub labels : Option (Dict Text)
  pub target : Text
  pub destination_ip : Text
  pub provider_parameter : P

abbrev has_value : Option Text → Text → Bool
has_value none v = false
has_value (some w) v = text_eq w v

-- `a == b` for dictionaries: the same keys with the same values, in any order
unfoldable pub dict_eq : Dict Text → Dict Text → Bool
dict_eq a b = length a == length b && all (λ e. has_value (lookup e.0 b) e.1) a

abbrev pub has_labels : Option (Dict Text) → Bool
has_labels none = false
has_labels (some labels) =
    has_key (codes "gefyra.dev/bridge-mount") labels && has_key (codes "gefyra.dev/client") labels

abbrev guard : Bool → Result (Unit {0})
guard true = ok tt
guard false = err admission_error

-- `except Exception: raise AdmissionError`
abbrev admit {ℓ} : {A : Type ℓ} → Result A → Result A
admit (ok a) = ok a
admit (err e) = err admission_error

module _ {P : Type 0} (same_parameter : P → P → Bool) where
  -- The test on an existing bridge; its labels are read only for the same target.
  unfoldable pub is_duplicate : BridgeRequest P → BridgeRequest P → Result Bool
  is_duplicate request existing =
      if text_eq existing.target request.target
      then (or_raise key_error existing.labels >>= λ old.
          or_raise key_error request.labels >>= λ new. ok (
            dict_eq old new
            && (text_eq existing.destination_ip request.destination_ip
                && same_parameter existing.provider_parameter request.provider_parameter)))
      else ok false

  unfoldable pub check_existing : BridgeRequest P → List (BridgeRequest P) → Result (Unit {0})
  unfolding is_duplicate
  check_existing request [] = ok tt
  check_existing request (e ∷ es) = is_duplicate request e >>= λ duplicate.
      if duplicate then err admission_error else check_existing request es

  -- `Carrier2.validate`, with the state of the mount and the existing bridges as they are read
  unfoldable pub validate_bridge :
      BridgeRequest P → Result Text → Result (List (BridgeRequest P)) → Result (Unit {0})
  unfolding check_existing
  validate_bridge request mount_state bridges = do
    guard (has_labels request.labels)
    state ← admit mount_state
    guard (text_eq state (codes "ACTIVE"))
    existing ← admit bridges
    check_existing request existing

-- A GefyraBridgeMount request; `none` is a field that is not there.
pub record MountRequest : Type 0 where
  pub target : Option Text
  pub target_namespace : Option Text
  pub target_container : Option Text

pub record ExistingMount : Type 0 where
  pub target : Text
  pub target_namespace : Text

-- `required_field not in bridge_request or bridge_request[required_field] == ""`, as an error
abbrev pub required : Option Text → Result Text
required none = err admission_error
required (some []) = err admission_error
required (some (c ∷ s)) = ok (c ∷ s)

unfoldable pub check_mounts : Text → Text → List ExistingMount → Result (Unit {0})
check_mounts target namespace [] = ok tt
check_mounts target namespace (m ∷ ms) =
    if text_eq m.target target && text_eq m.target_namespace namespace
    then err admission_error
    else check_mounts target namespace ms

-- `Carrier2BridgeMount.validate`, with the existing mounts as they are read
unfoldable pub validate_mount : MountRequest → Result (List ExistingMount) → Result (Unit {0})
unfolding check_mounts
validate_mount request mounts = do
  target ← required request.target
  namespace ← required request.target_namespace
  container ← required request.target_container
  split ← admit (split_target_type_name target)
  existing ← admit mounts
  check_mounts target namespace existing
