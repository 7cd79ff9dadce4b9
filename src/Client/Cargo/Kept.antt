-- ===== src/Client/Cargo/Kept.antt =====
-- What the client's WireGuard file keeps of the peer's file in Stowaway.
use gefyra.Prelude.{
  text_eq, ◌≡◌, refl, sym, ap, ◌∙◌, inl, inr, true, false, List, [], ◌∷◌, Option, some, Text, codes,
  All, strip, split_on, Option-cases,
}
use gefyra.Prelude.Dict.{Dict, lookup, insert, has_key, lookup-insert}
use gefyra.Result.{Result, ok, or_raise, runtime_error, >>=-eq-ok, ok-injective}
use gefyra.Stowaway.Peers.Names.{split_on-Lacks}
use gefyra.Stowaway.Wireguard.{read_wireguard_config, get_wireguard_connection_details}
use gefyra.Stowaway.Wireguard.Fields.{IsField, HasFields, lookup-IsField, read_lines-HasFields}
use gefyra.Client.Cargo.{stowaway_config_from, formatted, create_wireguard_config}
use gefyra.Client.Cargo.Reread.{IsMtu, mtu_found, IsReread, AreFields, reread, read_of-IsReread}

-- The keys of a peer's file whose values the client's file has too.
abbrev pub kept_keys : List Text
kept_keys =
    codes "Interface.Address"
    ∷ codes "Interface.PrivateKey"
    ∷ codes "Interface.DNS"
    ∷ codes "Peer.PublicKey"
    ∷ codes "Peer.PresharedKey"
    ∷ []

-- The fields of a peer's file are fields of what the client makes of it.
formatted-IsField :
    (k : Text) (config d : Dict Text)
    → lookup k config ≡ lookup k d
    → HasFields d
    → has_key k config ≡ true
    → IsField (formatted (lookup k config))
formatted-IsField k config d same h there = elim (Option-cases (lookup k config)) [
  | inl missing ↦ cc (missing, there)
  | inr (v, found) ↦ rw found (lookup-IsField k d v h (sym same ∙ found))
]

formatted-lookup :
    (k : Text) (config : Dict Text)
    → has_key k config ≡ true
    → some (formatted (lookup k config)) ≡ lookup k config
formatted-lookup k config there = elim (Option-cases (lookup k config)) [
  | inl missing ↦ cc (missing, there)
  | inr (v, found) ↦ rw found refl
]

read_wireguard_config-HasFields : (raw : Text) → HasFields (read_wireguard_config raw)
unfolding read_wireguard_config
read_wireguard_config-HasFields raw =
    read_lines-HasFields (split_on b'\n' raw) _ (split_on-Lacks b'\n' raw) tt

-- The details that are read of a peer's files.
details_of :
    (pod : Result (Option Text)) (conf pubkey : Text → Result Text) (config : Dict Text)
    → get_wireguard_connection_details pod conf pubkey ≡ ok config
    → (raw key : Text) × (config
        ≡ insert (codes "Interface.PublicKey") key (read_wireguard_config raw))
unfolding get_wireguard_connection_details
details_of pod conf pubkey config e =
    let found = >>=-eq-ok pod _ e in
    let name = >>=-eq-ok (or_raise runtime_error found.0) _ found.2 in
    let raw = >>=-eq-ok (conf name.0) _ name.2 in
    let key = >>=-eq-ok (pubkey name.0) _ raw.2 in (raw.0, strip key.0, sym (ok-injective key.2))

-- The other keys are not touched by the public key.
module _ (config d : Dict Text) (key : Text)
    (e : config ≡ insert (codes "Interface.PublicKey") key d) where
  beside :
      (k : Text) → text_eq (codes "Interface.PublicKey") k ≡ false → lookup k config ≡ lookup k d
  beside k other =
      ap (λ (c : Dict Text). lookup k c) e
      ∙ lookup-insert (codes "Interface.PublicKey") k key d
      ∙ rw other refl

  kept : All (λ k. lookup k config ≡ lookup k d) kept_keys
  unfolding text_eq
  kept = (beside _ refl, (beside _ refl, (beside _ refl, (beside _ refl, (beside _ refl, tt)))))

fields_of :
    (config d : Dict Text)
    → HasFields d
    → All (λ k. lookup k config ≡ lookup k d) kept_keys
    → All (λ k. has_key k config ≡ true) kept_keys
    → AreFields (stowaway_config_from config)
unfolding stowaway_config_from
fields_of config d h b t = (
  formatted-IsField _ config d b.0 h t.0,
  formatted-IsField _ config d b.1.0 h t.1.0,
  formatted-IsField _ config d b.1.1.0 h t.1.1.0,
  formatted-IsField _ config d b.1.1.1.0 h t.1.1.1.0,
  formatted-IsField _ config d b.1.1.1.1.0 h t.1.1.1.1.0,
)

-- What is found in the client's file is what the details have.
lookups :
    (config d : Dict Text) (endpoint : Text) (mtu : Option Text)
    → All (λ k. has_key k config ≡ true) kept_keys
    → IsReread (stowaway_config_from config) endpoint mtu d
    → All (λ k. lookup k d ≡ lookup k config) kept_keys
unfolding stowaway_config_from
lookups config d endpoint mtu t r = (
  r.0 ∙ formatted-lookup _ config t.0,
  (
    r.1 ∙ formatted-lookup _ config t.1.0,
    (
      r.2 ∙ formatted-lookup _ config t.1.1.0,
      (
        r.3 ∙ formatted-lookup _ config t.1.1.1.0,
        (r.4 ∙ formatted-lookup _ config t.1.1.1.1.0, tt),
      ),
    ),
  ),
)

-- If the details of a peer were read from its files in Stowaway and have its address, its private
-- key, the name server, the server's public key and the preshared key, then the WireGuard file
-- that the client writes from them, read in the same way, has the same values for these keys, the
-- given endpoint, and the MTU if it was given and is not empty, given that the endpoint and the
-- MTU are single lines without blanks round them and without a section heading.
pub read_wireguard_config-create_wireguard_config :
    (pod : Result (Option Text)) (conf pubkey : Text → Result Text) (config : Dict Text)
    (endpoint : Text) (mtu : Option Text)
    → get_wireguard_connection_details pod conf pubkey ≡ ok config
    → All (λ k. has_key k config ≡ true) kept_keys
    → IsField endpoint
    → IsMtu mtu
    → let d =
        read_wireguard_config
          (create_wireguard_config (stowaway_config_from config) endpoint mtu) in
      All (λ k. lookup k d ≡ lookup k config) kept_keys
      × (lookup (codes "Peer.Endpoint") d ≡ some endpoint)
      × (lookup (codes "Interface.MTU") d ≡ mtu_found mtu)
read_wireguard_config-create_wireguard_config pod conf pubkey config endpoint mtu e there f m =
    let from = details_of pod conf pubkey config e in
    let d = read_wireguard_config from.0 in
    let params = stowaway_config_from config in
    let fields =
      fields_of config d (read_wireguard_config-HasFields from.0) (kept config d from.1 from.2)
        there in
    let found = read_of-IsReread params endpoint mtu in
    rw (reread params endpoint mtu fields f m)
      (lookups config _ endpoint mtu there found, found.5, found.6)
