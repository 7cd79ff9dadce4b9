-- ===== src/Lifecycle/Clients/Callbacks/Connected.antt =====
-- Connecting and disconnecting a client.
use gefyra.Prelude.{
  ◌≡◌, refl, sym, ap, ◌∙◌, subst, ◌⊎◌, inl, inr, ℕ, Bool, true, false, ◌==◌, some, Text, codes,
  Bool-cases,
}
use gefyra.Prelude.Dict.{Dict, has_key}
use gefyra.Result.{Result, ok, err, Error, Result-cases, api_exception, temporary_error}
use gefyra.Lifecycle.Machine.{and_then-eq-ok, caught, raise}
use gefyra.Stowaway.ConfigMaps.{ConfigMapApi}
use gefyra.Stowaway.Peers.{peer_exists}
use gefyra.Stowaway.Wireguard.{get_wireguard_connection_details}
use gefyra.Lifecycle.Clients.Callbacks.{
  Client, World, Call, write_config, recorded, call, is_unreadable, details_if, get_peer_config,
  enable_connection, unless_500, write_details,
}

module _ (api : ConfigMapApi) (client : Client)
    (outcome : World api → Call → Result (Unit {0})) where
  abbrev W : Type 0
  W = World api

  -- What is written for the details, or how it fails so that it is passed over.
  abbrev pub IsEnabled : Dict Text → W → W → Type 0
  IsEnabled d w v =
      ((v ≡ recorded api w (write_config (some d)))
        × (has_key (codes "Interface.Address") d ≡ true))
      ⊎ ((status : ℕ) × (outcome w (write_config (some d)) ≡ err (api_exception status))
          × ((status == 500) ≡ false)
          × (v ≡ w))

  passed_over :
      (u v : W) (e : Error)
      → unless_500 api outcome (u, err e) ≡ (v, ok tt)
      → (status : ℕ) × (e ≡ api_exception status) × ((status == 500) ≡ false) × (v ≡ u)
  passed_over u v (api_exception status) e = elim (Bool-cases (status == 500)) [
    | inl server ↦ cc (ap (λ (y : W × Result (Unit {0})). y.1) (rw server at e))
    | inr other ↦
        (status, refl, other, ap (λ (y : W × Result (Unit {0})). y.0) (sym (rw other at e)))
  ]
  passed_over u v x e = cc (ap (λ (y : W × Result (Unit {0})). y.1) e)

  write_details-IsEnabled :
      (d : Dict Text) (w v : W)
      → write_details api client outcome d w ≡ (v, ok tt)
      → IsEnabled d w v
  unfolding call
  write_details-IsEnabled d w v e = elim (Result-cases (outcome w (write_config (some d)))) [
    | inl (u, fine) ↦ elim (Bool-cases (has_key (codes "Interface.Address") d)) [
      | inl there ↦
          inl (ap (λ (y : W × Result (Unit {0})). y.0) (sym (rw (fine, there) at e)), there)
      | inr lost ↦ cc (ap (λ (y : W × Result (Unit {0})). y.1) (rw (fine, lost) at e))
    ]
    | inr (x, failed) ↦
        let (status, same, other, kept) = passed_over w v x (rw failed at e) in
        inr (status, failed ∙ ap err same, other, kept)
  ]

  uncaught :
      (r : W × Result (Dict Text)) (u : W) (d : Dict Text)
      → caught is_unreadable (raise temporary_error) r ≡ (u, ok d)
      → r ≡ (u, ok d)
  uncaught (w, ok c) u d = λ e. e
  uncaught (w, err x) u d = elim (Bool-cases (is_unreadable x)) [
    | inl known ↦ rw known (λ e. cc (ap (λ (y : W × Result (Dict Text)). y.1) e))
    | inr other ↦ rw other (λ e. e)
  ]

  peer_read_if :
      (w u : W) (d : Dict Text) (x : W) (b : Bool)
      → ◌≡◌ {A = W × Result Bool} (w, peer_exists api client.name w.peers) (x, ok b)
      → details_if api client b x ≡ (u, ok d)
      → (u ≡ w)
        × (peer_exists api client.name w.peers ≡ ok true)
        × (get_wireguard_connection_details client.pod client.conf client.pubkey ≡ ok d)
  peer_read_if w u d x true e f = (
    ap (λ (y : W × Result (Dict Text)). y.0) (sym f) ∙ ap (λ (y : W × Result Bool). y.0) (sym e),
    ap (λ (y : W × Result Bool). y.1) e,
    ap (λ (y : W × Result (Dict Text)). y.1) f,
  )
  peer_read_if w u d x false e f = cc (ap (λ (y : W × Result (Dict Text)). y.1) f)

  peer_read :
      (w u : W) (d : Dict Text)
      → get_peer_config api client w ≡ (u, ok d)
      → (u ≡ w)
        × (peer_exists api client.name w.peers ≡ ok true)
        × (get_wireguard_connection_details client.pod client.conf client.pubkey ≡ ok d)
  unfolding get_peer_config
  peer_read w u d e =
      let (x, b, e1, e2) = and_then-eq-ok u (w, peer_exists api client.name w.peers) _ e in
      peer_read_if w u d x b e1 e2

  -- If enabling a connection succeeds, then the client is a peer of Stowaway, its connection
  -- details are read, and either they have its address and are written to the client, which is all
  -- that changes, or the writing is refused with a status other than 500 and nothing is written.
  pub enable_connection_lem :
      (w v : W)
      → enable_connection api client outcome w ≡ (v, ok tt)
      → (d : Dict Text) × (peer_exists api client.name w.peers ≡ ok true)
        × (get_wireguard_connection_details client.pod client.conf client.pubkey ≡ ok d)
        × IsEnabled d w v
  unfolding enable_connection
  enable_connection_lem w v e =
      let (u, d, e1, e2) =
        and_then-eq-ok v
          (caught is_unreadable (raise temporary_error) (get_peer_config api client w))
          (write_details api client outcome) e in
      let (same, there, read) = peer_read w u d (uncaught _ u d e1) in
      (d, there, read, subst (λ (x : W). IsEnabled d x v) same (write_details-IsEnabled d u v e2))
