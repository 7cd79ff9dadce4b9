-- ===== src/Mount/Tls/Files.antt =====
-- The files that are injected for a port and the files that its proxy reads.
use gefyra.Prelude.{
  ◌&&◌, ◌++◌, leb, drop, ◌∙◌, sym, All, show-digits, ℕ, ◌≡◌, ◌≢◌, ap, Bool, bool_eq, true, false,
  [], ◌∷◌, Option, none, some, arith, Text, show,
}
use gefyra.Result.{Result, ok}
use gefyra.Carrier.Config.{CarrierTls}
use gefyra.Mount.Tls.{
  codes, SecretRef, TlsValue, from_secret, TlsSettings, Params, Which, certificate, key, for_port,
  for_all, port_settings, select_tls, select_pair, tls_param_from_key_secret, injected_file,
  inject_tls_file_name, get_tls_from_provider_parameters,
}

abbrev has_value : Option TlsValue → Bool
has_value none = false
has_value (some v) = true

abbrev pub is_paired : Option TlsSettings → Bool
is_paired none = true
is_paired (some s) = bool_eq (has_value s.certificate) (has_value s.key)

-- What a proxy reads.
abbrev pub file_read : Which → CarrierTls → Text
file_read certificate t = t.certificate
file_read key t = t.key

module _ (read_secret : SecretRef → Result Text) (params : Params) (rport : ℕ) (t : CarrierTls)
    (read : get_tls_from_provider_parameters read_secret params rport ≡ ok (some t)) where
  -- If the entry of a port has a certificate and a key, or neither, then the file that is injected
  -- from a secret for the port is the file that the port's proxy reads, for the certificate as for
  -- the key.
  pub inject_tls_file_name-read :
      (which : Which)
      → is_paired (port_settings params rport) ≡ true
      → tls_param_from_key_secret which params rport ≡ true
      → inject_tls_file_name which params rport ≡ ok (file_read which t)
  unfolding inject_tls_file_name tls_param_from_key_secret select_tls select_pair
      get_tls_from_provider_parameters
  inject_tls_file_name-read certificate paired secret = ground (arith, read)
  inject_tls_file_name-read key paired secret = ground (arith, read)

digits-ne_word :
    (s rest : Text)
    → All (λ c. (leb 48 c && leb c 57) ≡ true) s
    → s ++ codes ".pem" ≢ codes "all.pem"
digits-ne_word [] rest h e = ground (arith, e)
digits-ne_word (c ∷ s) rest h e = ground (arith, e, h.0)

injected_file-ne :
    (rport : ℕ) → injected_file certificate (for_port rport) ≢ injected_file certificate for_all
unfolding injected_file
injected_file-ne rport e =
    digits-ne_word (show rport) [] (show-digits rport) (ap (λ (s : Text). drop 26 s) e)

-- If the entry of a port has a certificate from a secret and no key, and the entry for all ports
-- has both, then the certificate is injected into the port's file, and the proxy reads another
-- one.
pub unpaired_reads_other :
    (read_secret : SecretRef → Result Text) (params : Params) (rport : ℕ) (t : CarrierTls)
    (s g : TlsSettings) (r r' : SecretRef)
    → get_tls_from_provider_parameters read_secret params rport ≡ ok (some t)
    → port_settings params rport ≡ some s
    → s.certificate ≡ some (from_secret r)
    → s.key ≡ none
    → params.tls ≡ some g
    → g.certificate ≡ some (from_secret r')
    → (inject_tls_file_name certificate params rport
        ≡ ok (injected_file certificate (for_port rport)))
      × (t.certificate ≡ injected_file certificate for_all)
      × (t.certificate ≢ injected_file certificate (for_port rport))
unfolding inject_tls_file_name select_tls select_pair get_tls_from_provider_parameters
unpaired_reads_other read_secret params rport t s g r r' read own c k all c' =
    let other : t.certificate ≡ injected_file certificate for_all = ground (arith, read) in
    (ground arith, other, λ e. injected_file-ne rport (sym e ∙ other))
