-- ===== src/Client/Cargo/Reread.antt =====
-- What the client's WireGuard file keeps of the peer's file in Stowaway.
use gefyra.Prelude.{
  text_eq, starts_with, contains_text, strip, ◌≡◌, refl, ap, ◌∙◌, [], ◌∷◌, Option, none, some, Text,
  codes, lacks-Lacks,
}
use gefyra.Prelude.Dict.{Dict, lookup, insert}
use gefyra.Stowaway.Wireguard.{Reading, read_wireguard_config}
use gefyra.Stowaway.Wireguard.Fields.{IsField}
use gefyra.Stowaway.Wireguard.Lines.{
  put, read_text, assigned_line, interface_line, peer_line, last_line,
}
use gefyra.Client.Cargo.{
  StowawayConfig, formatted, mtu_line, pre_up, post_up, post_down, peer_section,
  create_wireguard_config,
}

-- The MTU as a field, and the line for it.
abbrev pub IsMtu : Option Text → Type 0
IsMtu none = Unit
IsMtu (some mtu) = IsField mtu

abbrev put_mtu : Option Text → Reading → Reading
put_mtu none r = r
put_mtu (some []) r = r
put_mtu (some (c ∷ mtu)) r = put (codes "MTU") (c ∷ mtu) r

mtu_read :
    (mtu : Option Text) (rest : Text) (r : Reading)
    → IsMtu mtu
    → read_text (mtu_line mtu rest) r ≡ read_text rest (put_mtu mtu r)
mtu_read none rest r h = refl
mtu_read (some []) rest r h = refl
mtu_read (some (c ∷ mtu)) rest r h = assigned_line (codes "MTU") (c ∷ mtu) rest r refl h

pre_up-IsField : IsField pre_up
unfolding strip contains_text starts_with
pre_up-IsField = (lacks-Lacks b'\n' pre_up refl, refl, refl, refl)

post_up-IsField : IsField post_up
unfolding strip contains_text starts_with
post_up-IsField = (lacks-Lacks b'\n' post_up refl, refl, refl, refl)

post_down-IsField : IsField post_down
unfolding strip contains_text starts_with
post_down-IsField = (lacks-Lacks b'\n' post_down refl, refl, refl, refl)

const-IsField : IsField (codes "21") × IsField (codes "0.0.0.0/0")
unfolding strip contains_text starts_with
const-IsField = (
  (lacks-Lacks b'\n' (codes "21") refl, refl, refl, refl),
  (lacks-Lacks b'\n' (codes "0.0.0.0/0") refl, refl, refl, refl),
)

-- The texts that the file is made of are fields.
abbrev pub AreFields : StowawayConfig → Type 0
AreFields params =
    IsField (formatted params.iaddress)
    × IsField (formatted params.iprivatekey)
    × IsField (formatted params.idns)
    × IsField (formatted params.ppublickey)
    × IsField (formatted params.presharedkey)

module _ (params : StowawayConfig) (endpoint : Text) (mtu : Option Text) where
  abbrev interface_put : Reading → Reading
  interface_put r = put (codes "PostDown") post_down (
      put (codes "PostUp") post_up (
        put (codes "PreUp") pre_up (
          put (codes "DNS") (formatted params.idns) (
            put (codes "PrivateKey") (formatted params.iprivatekey)
              (put_mtu mtu (put (codes "Address") (formatted params.iaddress) r))))))

  abbrev peer_put : Reading → Reading
  peer_put r = put (codes "AllowedIPs") (codes "0.0.0.0/0") (
      put (codes "PersistentKeepalive") (codes "21") (
        put (codes "PresharedKey") (formatted params.presharedkey) (
          put (codes "Endpoint") endpoint
            (put (codes "PublicKey") (formatted params.ppublickey) r))))

  peer_section-read :
      (r : Reading)
      → AreFields params
      → IsField endpoint
      → read_text (peer_section params endpoint) r ≡ peer_put (record r { prefix = codes "Peer" })
  unfolding peer_section
  peer_section-read r f e =
      peer_line _ r
      ∙ assigned_line (codes "PublicKey") _ _ _ refl f.3
      ∙ assigned_line (codes "Endpoint") _ _ _ refl e
      ∙ assigned_line (codes "PresharedKey") _ _ _ refl f.4
      ∙ assigned_line (codes "PersistentKeepalive") _ _ _ refl const-IsField.0
      ∙ assigned_line (codes "AllowedIPs") _ _ _ refl const-IsField.1
      ∙ last_line _

  create-read :
      (r : Reading)
      → AreFields params
      → IsField endpoint
      → IsMtu mtu
      → read_text (create_wireguard_config params endpoint mtu) r
        ≡ peer_put (record (interface_put (record r { prefix = codes "Interface" })) {
          prefix = codes "Peer";
        })
  unfolding create_wireguard_config
  create-read r f e m =
      interface_line _ r
      ∙ assigned_line (codes "Address") _ _ _ refl f.0
      ∙ mtu_read mtu _ _ m
      ∙ assigned_line (codes "PrivateKey") _ _ _ refl f.1
      ∙ assigned_line (codes "DNS") _ _ _ refl f.2
      ∙ assigned_line (codes "PreUp") _ _ _ refl pre_up-IsField
      ∙ assigned_line (codes "PostUp") _ _ _ refl post_up-IsField
      ∙ assigned_line (codes "PostDown") _ _ _ refl post_down-IsField
      ∙ peer_section-read _ f e

  -- What the reader makes of the client's file.
  unfoldable pub read_of : Dict Text
  read_of =
      (peer_put (record (interface_put (record { prefix = codes "Interface"; data_ = [] })) {
        prefix = codes "Peer";
      })).data_

  pub reread :
      AreFields params
      → IsField endpoint
      → IsMtu mtu
      → read_wireguard_config (create_wireguard_config params endpoint mtu) ≡ read_of
  unfolding read_wireguard_config read_of
  reread f e m =
      ap (λ (r : Reading). r.data_)
        (create-read (record { prefix = codes "none"; data_ = [] }) f e m)

-- What the reader finds for the MTU.
abbrev pub mtu_found : Option Text → Option Text
mtu_found none = none
mtu_found (some []) = none
mtu_found (some (c ∷ mtu)) = some (c ∷ mtu)

-- What is read of the client's file.
abbrev pub IsReread : StowawayConfig → Text → Option Text → Dict Text → Type 0
IsReread params endpoint mtu d =
    (lookup (codes "Interface.Address") d ≡ some (formatted params.iaddress))
    × (lookup (codes "Interface.PrivateKey") d ≡ some (formatted params.iprivatekey))
    × (lookup (codes "Interface.DNS") d ≡ some (formatted params.idns))
    × (lookup (codes "Peer.PublicKey") d ≡ some (formatted params.ppublickey))
    × (lookup (codes "Peer.PresharedKey") d ≡ some (formatted params.presharedkey))
    × (lookup (codes "Peer.Endpoint") d ≡ some endpoint)
    × (lookup (codes "Interface.MTU") d ≡ mtu_found mtu)

pub read_of-IsReread :
    (params : StowawayConfig) (endpoint : Text) (mtu : Option Text)
    → IsReread params endpoint mtu (read_of params endpoint mtu)
unfolding read_of lookup insert strip text_eq
read_of-IsReread params endpoint none = (refl, refl, refl, refl, refl, refl, refl)
read_of-IsReread params endpoint (some []) = (refl, refl, refl, refl, refl, refl, refl)
read_of-IsReread params endpoint (some (c ∷ mtu)) = (refl, refl, refl, refl, refl, refl, refl)
