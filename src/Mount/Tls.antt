-- ===== src/Mount/Tls.antt =====
-- TLS material in the parameters of a mount (operator/gefyra/bridge_mount/utils.py). The secrets that
-- the Kubernetes API holds are the parameter `read_secret`.
pub mod Files
use gefyra.Prelude.{
  ℕ, Bool, true, false, ◌&&◌, List, [], ◌∷◌, ◌++◌, Option, none, some, Text, codes, text_eq, ◌==◌,
  if◌then◌else◌, show,
}
use gefyra.Prelude.Dict.{Dict, lookup, is_some}
use gefyra.Result.{Result, ok, err, value_error, ◌>>=◌}
use gefyra.Carrier.Config.{CarrierTls}

-- `{"secret": {"name": …, "key": …, "namespace": …}}`
pub record SecretRef : Type 0 where
  pub name : Text
  pub key : Text
  pub namespace : Text

-- A value is a text, or a dictionary with a `secret`.
pub data TlsValue : Type 0 where
  plain : Text → TlsValue
  from_secret : SecretRef → TlsValue

-- The entries of a `tls` dictionary.
pub record TlsSettings : Type 0 where
  pub certificate : Option TlsValue
  pub key : Option TlsValue
  pub sni : Option TlsValue

-- The parameters: what the entry of a port has under `tls`, and the top-level `tls`.
pub record Params : Type 0 where
  pub ports : Dict (Option TlsSettings)
  pub tls : Option TlsSettings

-- The two values that the code passes for `which`.
pub data Which : Type 0 where
  certificate key : Which

abbrev pub get_which : Which → TlsSettings → Option TlsValue
get_which certificate s = s.certificate
get_which key s = s.key

-- Where a setting stands: under a port, or for all ports.
pub data Scope : Type 0 where
  for_port : ℕ → Scope
  for_all : Scope

-- `rport and str(rport) in params and "tls" in params[str(rport)]`, and that `tls` entry
abbrev flatten_entry : Option (Option TlsSettings) → Option TlsSettings
flatten_entry none = none
flatten_entry (some s) = s

unfoldable pub port_settings : Params → ℕ → Option TlsSettings
port_settings params rport =
    if rport == 0 then none else flatten_entry (lookup (show rport) params.ports)

abbrev chain {ℓ κ} : {A : Type ℓ} {B : Type κ} → Option A → (A → Option B) → Option B
chain none f = none
chain (some a) f = f a

abbrev or_global : Option TlsValue → ℕ → Option TlsValue → Option (Scope × TlsValue)
or_global (some v) rport global = some (for_port rport, v)
or_global none rport none = none
or_global none rport (some v) = some (for_all, v)

-- The value that a port uses: its own, or else the one for all ports.
unfoldable pub select_tls : Which → Params → ℕ → Option (Scope × TlsValue)
select_tls which params rport =
    or_global (chain (port_settings params rport) (get_which which)) rport
      (chain params.tls (get_which which))

abbrev is_secret : Option (Scope × TlsValue) → Bool
is_secret none = false
is_secret (some (scope, plain v)) = false
is_secret (some (scope, from_secret s)) = true

-- `_tls_param_from_key_secret`
unfoldable pub tls_param_from_key_secret : Which → Params → ℕ → Bool
tls_param_from_key_secret which params rport = is_secret (select_tls which params rport)

abbrev scope_word : Scope → Text
scope_word (for_port rport) = show rport
scope_word for_all = codes "all"

-- `INJECTED_TLS_CERT.format(port=…)` and `INJECTED_TLS_KEY.format(port=…)`
unfoldable pub injected_file : Which → Scope → Text
injected_file certificate scope =
    codes "/tmp/from_k8s_secret_cert_" ++ (scope_word scope ++ codes ".pem")
injected_file key scope = codes "/tmp/from_k8s_secret_key_" ++ (scope_word scope ++ codes ".pem")

-- The file that `inject_tls_file` writes, or the ValueError that it raises.
abbrev file_of : Which → Option (Scope × TlsValue) → Result Text
file_of which none = err value_error
file_of which (some (scope, v)) = ok (injected_file which scope)

unfoldable pub inject_tls_file_name : Which → Params → ℕ → Result Text
inject_tls_file_name which params rport = file_of which (select_tls which params rport)

-- A certificate with its key, under the scope that has both.
abbrev pair_of : Scope → TlsSettings → Option (Scope × TlsSettings × TlsValue × TlsValue)
pair_of scope s = chain s.certificate (λ c. chain s.key (λ k. some (scope, s, c, k)))

abbrev first_some {ℓ} : {A : Type ℓ} → Option A → Option A → Option A
first_some none o = o
first_some (some a) o = some a

unfoldable pub select_pair : Params → ℕ → Option (Scope × TlsSettings × TlsValue × TlsValue)
select_pair params rport =
    first_some (chain (port_settings params rport) (pair_of (for_port rport)))
      (chain params.tls (pair_of for_all))

-- The path that Carrier2 reads: the injected file, or the path that is given.
abbrev pub path_of : Which → Scope → TlsValue → Text
path_of which scope (plain path) = path
path_of which scope (from_secret s) = injected_file which scope

module _ (read_secret : SecretRef → Result Text) where
  abbrev sni_of : Option TlsValue → Result (Option Text)
  sni_of none = ok none
  sni_of (some (plain name)) = ok (some name)
  sni_of (some (from_secret s)) = do name ← read_secret s; ok (some name)

  abbrev tls_of : Option (Scope × TlsSettings × TlsValue × TlsValue) → Result (Option CarrierTls)
  tls_of none = ok none
  tls_of (some (scope, s, c, k)) = do
    sni ← sni_of s.sni
    ok (
        some (record {
          certificate = path_of certificate scope c;
          key = path_of key scope k;
          sni = sni;
        }))

  -- `_get_tls_from_provider_parameters`
  unfoldable pub get_tls_from_provider_parameters : Params → ℕ → Result (Option CarrierTls)
  get_tls_from_provider_parameters params rport = tls_of (select_pair params rport)
