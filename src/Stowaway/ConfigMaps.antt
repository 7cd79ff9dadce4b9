-- ===== src/Stowaway/ConfigMaps.antt =====
-- The Kubernetes API on one ConfigMap, as the Stowaway provider calls it
-- (read_namespaced_config_map, patch_namespaced_config_map and replace_namespaced_config_map). The
-- service is not part of the repository: it is this interface, with what its documentation says of
-- a call that succeeds.
use gefyra.Prelude.{◌≡◌, sym, [], Option, none, some, Text}
use gefyra.Prelude.Dict.{Dict, update}
use gefyra.Result.{Result, ok}

-- The data of a ConfigMap, which may be absent.
abbrev pub Data : Type 0
Data = Option (Dict Text)

-- Data with the entries of a patch merged in.
abbrev pub merge : Data → Dict Text → Data
merge none d = some (update [] d)
merge (some e) d = some (update e d)

pub record ConfigMapApi : Type 1 where
  pub Store : Type 0
  pub read : Store → Result Data
  pub patch : Dict Text → Store → Result Store
  pub replace : Data → Store → Result Store
  pub read-patch :
      (s t : Store) (d : Dict Text) (e : Data)
      → read s ≡ ok e
      → patch d s ≡ ok t
      → read t ≡ ok (merge e d)
  pub read-replace : (s t : Store) (d : Data) → replace d s ≡ ok t → read t ≡ ok d

pub plain-patch :
    (s t : Data) (d : Dict Text) (e : Data)
    → ok s ≡ ok e
    → ok (merge s d) ≡ ok t
    → ok t ≡ ok (merge e d)
plain-patch s t d e r p = cc

pub plain-replace : (s t d : Data) → ok d ≡ ok t → ok t ≡ ok d
plain-replace s t d p = sym p

-- A store that holds the data and never fails.
abbrev pub plain_api : ConfigMapApi
plain_api = record {
  Store = Data;
  read = ok;
  patch = λ d s. ok (merge s d);
  replace = λ d s. ok d;
  read-patch = λ s t d e r p. plain-patch s t d e r p;
  read-replace = λ s t d p. plain-replace s t d p;
}
