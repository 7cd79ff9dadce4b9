-- ===== src/Mount/Ready/Skipped.antt =====
-- Files that an update passes over (`_upstream_set` of
-- operator/gefyra/bridge_mount/carrier2mount/__init__.py).
use gefyra.Prelude.{ℕ, ◌≡◌, refl, Bool, true, false, [], ◌∷◌, Text}
use gefyra.Result.{Result, ok}
use gefyra.Mount.Tls.{Which, certificate, key, select_tls, tls_param_from_key_secret}
use gefyra.Mount.Calls.{Call, inject_file, Trace, call}
use gefyra.Mount.Ready.{Watched, file_differs, update_tls_file, update_files}

module _ (mount : Watched) (outcome : Trace → Call → Result (Unit {0})) where
  open mount use {params, container}

  -- What the update of one file comes to: the file of a port's secret is another one, or the same.
  abbrev pub Differs : Text → Which → ℕ → Bool → Type 0
  Differs pod which port b =
      (tls_param_from_key_secret which params port ≡ true)
      × (file_differs mount outcome pod which (select_tls which params port) ≡ ok b)

  update_tls_file-changed :
      (pod : Text) (which : Which) (port : ℕ) (w : Trace)
      → Differs pod which port true
      → outcome w (inject_file pod container which port) ≡ ok tt
      → update_tls_file mount outcome pod which port w
        ≡ (inject_file pod container which port ∷ w, ok true)
  unfolding update_tls_file call
  update_tls_file-changed pod which port w h fine = rw (h.1, fine) refl

  update_tls_file-same :
      (pod : Text) (which : Which) (port : ℕ) (w : Trace)
      → Differs pod which port false
      → update_tls_file mount outcome pod which port w ≡ (w, ok false)
  unfolding update_tls_file
  update_tls_file-same pod which port w h = rw h.1 refl

  -- If both files of a port come from secrets and the certificate has changed, then one pass
  -- injects the certificate and leaves the key as it is, whether it has changed or not; and if the
  -- certificate of one port has changed, that of the next one has not, and their keys do not come
  -- from secrets, then the pass injects the certificate and reports that nothing was updated, so
  -- that the configuration is not committed again.
  pub update_files_skips :
      (pod : Text) (port next : ℕ) (w : Trace)
      → Differs pod certificate port true
      → outcome w (inject_file pod container certificate port) ≡ ok tt
      → (tls_param_from_key_secret key params port ≡ true
          → update_files mount outcome pod (port ∷ []) false w
            ≡ (inject_file pod container certificate port ∷ w, ok true))
        × (tls_param_from_key_secret key params port ≡ false
            → tls_param_from_key_secret key params next ≡ false
            → Differs pod certificate next false
            → update_files mount outcome pod (port ∷ next ∷ []) false w
              ≡ (inject_file pod container certificate port ∷ w, ok false))
  unfolding update_files
  update_files_skips pod port next w changed fine =
      let first = update_tls_file-changed pod certificate port w changed fine in
      (
        λ k. rw (changed.0, first, k) refl,
        λ k l same.
            rw
              (
                changed.0,
                first,
                k,
                same.0,
                update_tls_file-same pod certificate next
                    (inject_file pod container certificate port ∷ w) same,
                l,
              )
              refl,
      )
