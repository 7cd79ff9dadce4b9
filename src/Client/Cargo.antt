-- ===== src/Client/Cargo.antt =====
-- The WireGuard file of the local Cargo container (`create_wireguard_config` of
-- client/gefyra/local/cargo.py), from the providerConfig of the client's object (`_init_data` of
-- client/gefyra/types/client.py and client/gefyra/types/stowaway.py).
pub mod Reread
pub mod Kept
use gefyra.Prelude.{List, [], ◌∷◌, ◌++◌, Option, none, some, Text, codes, split_on}
use gefyra.Prelude.Dict.{Dict, lookup}

-- StowawayConfig, where a field that is missing in the object is None
pub record StowawayConfig : Type 0 where
  pub iaddress : Option Text
  pub idns : Option Text
  pub iport : Option Text
  pub iprivatekey : Option Text
  pub pallowedips : Option Text
  pub pendpoint : Option Text
  pub ppublickey : Option Text
  pub presharedkey : Option Text

unfoldable pub stowaway_config_from : Dict Text → StowawayConfig
stowaway_config_from config = record {
  iaddress = lookup (codes "Interface.Address") config;
  idns = lookup (codes "Interface.DNS") config;
  iport = lookup (codes "Interface.ListenPort") config;
  iprivatekey = lookup (codes "Interface.PrivateKey") config;
  pallowedips = lookup (codes "Peer.AllowedIPs") config;
  pendpoint = lookup (codes "Peer.Endpoint") config;
  ppublickey = lookup (codes "Peer.PublicKey") config;
  presharedkey = lookup (codes "Peer.PresharedKey") config;
}

-- What an f-string makes of a value that may be None.
abbrev pub formatted : Option Text → Text
formatted none = codes "None"
formatted (some v) = v

-- `f"{k} = {v}\n"` before the rest
abbrev pub line_for : Text → Text → Text → Text
line_for k v rest = k ++ (codes " = " ++ (v ++ (b'\n' ∷ rest)))

-- `f"MTU = {mtu}\n" if mtu else ""` before the rest
abbrev pub mtu_line : Option Text → Text → Text
mtu_line none rest = rest
mtu_line (some []) rest = rest
mtu_line (some (c ∷ mtu)) rest = line_for (codes "MTU") (c ∷ mtu) rest

abbrev pub pre_up : Text
pre_up = codes "sysctl -w net.ipv4.ip_forward=1"

abbrev pub post_up : Text
post_up =
    codes
      "iptables -A FORWARD -i %i -j ACCEPT; iptables -A FORWARD -o %i -j ACCEPT; iptables -t nat -A POSTROUTING -o $(ip -4 -o addr show | grep \"\\.149/\" | awk '{print $2}' | cut -d'@' -f1) -j MASQUERADE"

abbrev pub post_down : Text
post_down =
    codes
      "iptables -D FORWARD -i %i -j ACCEPT; iptables -D FORWARD -o %i -j ACCEPT; iptables -t nat -D POSTROUTING -o $(ip -4 -o addr show | grep \"\\.149/\" | awk '{print $2}' | cut -d'@' -f1) -j MASQUERADE"

-- The section of the peer.
unfoldable pub peer_section : StowawayConfig → Text → Text
peer_section params endpoint =
    codes "[Peer]\n"
    ++ line_for (codes "PublicKey") (formatted params.ppublickey) (
        line_for (codes "Endpoint") endpoint (
          line_for (codes "PresharedKey") (formatted params.presharedkey) (
            line_for (codes "PersistentKeepalive") (codes "21")
              (line_for (codes "AllowedIPs") (codes "0.0.0.0/0") []))))

-- `create_wireguard_config`
unfoldable pub create_wireguard_config : StowawayConfig → Text → Option Text → Text
unfolding peer_section
create_wireguard_config params endpoint mtu =
    codes "[Interface]\n"
    ++ line_for (codes "Address") (formatted params.iaddress) (
        mtu_line mtu (
          line_for (codes "PrivateKey") (formatted params.iprivatekey) (
            line_for (codes "DNS") (formatted params.idns) (
              line_for (codes "PreUp") pre_up (
                line_for (codes "PostUp") post_up
                  (line_for (codes "PostDown") post_down (peer_section params endpoint)))))))
