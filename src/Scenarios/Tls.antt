-- ===== src/Scenarios/Tls.antt =====
-- TLS settings with secrets.
use gefyra.Prelude.{◌≡◌, refl, [], ◌∷◌, none, some, Text, codes, text_eq, true, show}
use gefyra.Prelude.Dict.{lookup}
use gefyra.Result.{Result, ok}
use gefyra.Carrier.Config.{CarrierTls}
use gefyra.Mount.Tls.{
  SecretRef, TlsSettings, Params, from_secret, Which, certificate, key, for_port, for_all,
  port_settings, tls_param_from_key_secret, injected_file, inject_tls_file_name,
  get_tls_from_provider_parameters,
}
use gefyra.Mount.Tls.Files.{is_paired, file_read, inject_tls_file_name-read}

abbrev secret : SecretRef
secret = record { name = codes "s"; key = codes "k"; namespace = codes "n" }

abbrev pair : TlsSettings
pair = record {
  certificate = some (from_secret secret);
  key = some (from_secret secret);
  sni = none;
}

abbrev lone : TlsSettings
lone = record { certificate = some (from_secret secret); key = none; sni = none }

abbrev paired_params : Params
paired_params = record { ports = (codes "443", some pair) ∷ []; tls = none }

abbrev lone_params : Params
lone_params = record { ports = (codes "443", some lone) ∷ []; tls = some pair }

abbrev no_secret : SecretRef → Result Text
no_secret r = ok []

abbrev own_files : CarrierTls
own_files = record {
  certificate = codes "/tmp/from_k8s_secret_cert_443.pem";
  key = codes "/tmp/from_k8s_secret_key_443.pem";
  sni = none;
}

abbrev shared_files : CarrierTls
shared_files = record {
  certificate = codes "/tmp/from_k8s_secret_cert_all.pem";
  key = codes "/tmp/from_k8s_secret_key_all.pem";
  sni = none;
}

own_run : get_tls_from_provider_parameters no_secret paired_params 443 ≡ ok (some own_files)
unfolding get_tls_from_provider_parameters gefyra.Mount.Tls.select_pair port_settings lookup text_eq
    show injected_file
own_run = refl

own_pair : is_paired (port_settings paired_params 443) ≡ true
unfolding port_settings lookup text_eq show
own_pair = refl

own_secret : tls_param_from_key_secret certificate paired_params 443 ≡ true
unfolding tls_param_from_key_secret gefyra.Mount.Tls.select_tls port_settings lookup text_eq show
own_secret = refl

inject_tls_file_name-read_example :
    inject_tls_file_name certificate paired_params 443 ≡ ok (file_read certificate own_files)
inject_tls_file_name-read_example =
    inject_tls_file_name-read no_secret paired_params 443 own_files own_run certificate own_pair
      own_secret

shared_run : get_tls_from_provider_parameters no_secret lone_params 443 ≡ ok (some shared_files)
unfolding get_tls_from_provider_parameters gefyra.Mount.Tls.select_pair port_settings lookup text_eq
    show injected_file
shared_run = refl

lone_entry : port_settings lone_params 443 ≡ some lone
unfolding port_settings lookup text_eq show
lone_entry = refl
