-- ===== src/Scenarios/Wireguard.antt =====
-- Runs of the readers of WireGuard files and of its status.
use gefyra.Prelude.{
  ◌≢◌, ℕ, ap, arith, Occurs-cons, ◌≡◌, refl, true, List, [], ◌∷◌, none, some, Text, codes, All,
  lacks-Lacks, every_line-Lacks, Occurs, Occurs-here, strip, strip_left, text_eq, split_on,
  split_once, contains_text, starts_with, int, join_with,
}
use gefyra.Prelude.Dict.{Dict, lookup, insert}
use gefyra.Result.{Result, ok}
use gefyra.Stowaway.Wireguard.{get_wireguard_connection_details, read_wireguard_config}
use gefyra.Client.Cargo.{stowaway_config_from, create_wireguard_config}
use gefyra.Client.Cargo.Kept.{kept_keys, read_wireguard_config-create_wireguard_config}
use gefyra.Stowaway.Status.{WgValue, text, parse_wg_output}
use gefyra.Stowaway.Status.Sections.{
  FieldLine, Section, lines_of, interface_shown, peer_shown, parse_wg_output-lines,
}
use gefyra.Stowaway.Watch.{
  find_peer, WatchedClient, Patched, Patch, patch_of, set_wireguard, read_wireguard_status,
}
use gefyra.Stowaway.Watch.Written.{IsOwn}
use gefyra.Stowaway.Watch.Status.{
  IsFirst, read_wireguard_status-IsOwn, read_wireguard_status-Occurs,
}

abbrev peer_file : Text
peer_file =
    codes
      "[Interface]\nAddress = 10.0.0.2\nPrivateKey = pri=\nListenPort = 51820\nDNS = 10.0.0.1\n\n[Peer]\nPublicKey = pub=\nPresharedKey = psk=\nEndpoint = 1.2.3.4:31820\n"

abbrev details : Dict Text
details =
    (codes "Interface.Address", codes "10.0.0.2")
    ∷ (codes "Interface.PrivateKey", codes "pri=")
    ∷ (codes "Interface.ListenPort", codes "51820")
    ∷ (codes "Interface.DNS", codes "10.0.0.1")
    ∷ (codes "Peer.PublicKey", codes "pub=")
    ∷ (codes "Peer.PresharedKey", codes "psk=")
    ∷ (codes "Peer.Endpoint", codes "1.2.3.4:31820")
    ∷ (codes "Interface.PublicKey", codes "own=")
    ∷ []

details-read :
    get_wireguard_connection_details
      (ok (some (codes "stowaway-0")))
      (λ pod. ok peer_file)
      (λ pod. ok (codes "own=\n"))
    ≡ ok details
unfolding get_wireguard_connection_details insert strip text_eq split_on split_once contains_text
    starts_with
details-read = refl

read_wireguard_config-create_wireguard_config_example :
    let d = read_wireguard_config (
      create_wireguard_config
        (stowaway_config_from details)
        (codes "5.6.7.8:31820")
        (some (codes "1340"))) in
    All (λ k. lookup k d ≡ lookup k details) kept_keys
    × (lookup (codes "Peer.Endpoint") d ≡ some (codes "5.6.7.8:31820"))
    × (lookup (codes "Interface.MTU") d ≡ some (codes "1340"))
unfolding lookup text_eq strip contains_text starts_with
read_wireguard_config-create_wireguard_config_example =
    read_wireguard_config-create_wireguard_config (ok (some (codes "stowaway-0")))
      (λ pod. ok peer_file) (λ pod. ok (codes "own=\n")) details (codes "5.6.7.8:31820")
      (some (codes "1340")) details-read (refl, (refl, (refl, (refl, (refl, tt)))))
      (lacks-Lacks b'\n' (codes "5.6.7.8:31820") refl, refl, refl, refl)
      (lacks-Lacks b'\n' (codes "1340") refl, refl, refl, refl)

abbrev port_line : FieldLine
port_line = record {
  line = codes "  listening port: 51820";
  key = codes "listening port";
  value = codes "51820";
}

abbrev endpoint_line : FieldLine
endpoint_line = record {
  line = codes "  endpoint: 1.2.3.4:31";
  key = codes "endpoint";
  value = codes "1.2.3.4:31";
}

abbrev handshake_line : FieldLine
handshake_line = record {
  line = codes "  latest handshake: 1 minute ago";
  key = codes "latest handshake";
  value = codes "1 minute ago";
}

abbrev transfer_line : FieldLine
transfer_line = record {
  line = codes "  transfer: 1.2 MiB received, 3 B sent";
  key = codes "transfer";
  value = codes "1.2 MiB received, 3 B sent";
}

abbrev wg0 : Section
wg0 = record { heading = codes "interface: wg0"; name = codes " wg0"; fields = port_line ∷ [] }

abbrev peer_a : Section
peer_a = record {
  heading = codes "peer: a=";
  name = codes " a=";
  fields = endpoint_line ∷ handshake_line ∷ transfer_line ∷ [];
}

abbrev peer_b : Section
peer_b = record { heading = codes "peer: b="; name = codes " b="; fields = [] }

abbrev output : Text
output =
    codes
      "interface: wg0\n  listening port: 51820\n\npeer: a=\n  endpoint: 1.2.3.4:31\n  latest handshake: 1 minute ago\n  transfer: 1.2 MiB received, 3 B sent\n\npeer: b=\n"

parse_wg_output-lines_example :
    parse_wg_output output
    ≡ record { interface = interface_shown wg0; peers = peer_shown peer_a ∷ peer_shown peer_b ∷ [] }
unfolding strip text_eq starts_with join_with
parse_wg_output-lines_example =
    parse_wg_output-lines output wg0 (peer_a ∷ peer_b ∷ []) refl
      (every_line-Lacks b'\n' (lines_of wg0 (peer_a ∷ peer_b ∷ [])) refl)
      (refl, ((refl, lacks-Lacks b':' port_line.key refl, refl, refl, refl, refl), tt))
      (
        (
          refl,
          (
            (refl, lacks-Lacks b':' endpoint_line.key refl, refl, refl, refl, refl),
            (
              (refl, lacks-Lacks b':' handshake_line.key refl, refl, refl, refl, refl),
              ((refl, lacks-Lacks b':' transfer_line.key refl, refl, refl, refl, refl), tt),
            ),
          ),
        ),
        ((refl, tt), tt),
      )

abbrev watched : WatchedClient
watched = record {
  name = codes "c";
  is_active = ok true;
  public_key = ok (codes "a=");
  status = some none;
}

abbrev always : List Patched → Patched → Result (Unit {0})
always w q = ok tt

read_wireguard_status-IsOwn_example :
    All
      (IsOwn (watched ∷ []) (parse_wg_output output).peers)
      (read_wireguard_status always (ok (watched ∷ [])) (ok true) (ok (some output)) []).0
read_wireguard_status-IsOwn_example =
    read_wireguard_status-IsOwn always (watched ∷ []) (ok true) output

-- A client of the second peer, whose status is out of date.
abbrev outdated : WatchedClient
outdated = record {
  name = codes "d";
  is_active = ok true;
  public_key = ok (codes "b=");
  status = some (some []);
}

abbrev first_code : WgValue → ℕ
first_code (text (c ∷ s)) = c
first_code v = 0

other_key : text (codes "a=") ≢ text (codes "b=")
other_key e = let clash : 97 ≡ 98 = ap first_code e in absurd (omega (arith, clash))

second_peer : IsFirst outdated.public_key (parse_wg_output output).peers (peer_shown peer_b)
unfolding parse_wg_output peer_shown text_eq strip strip_left starts_with split_on int lookup insert
    split_once
second_peer = record {
  wanted = codes "b=";
  before = peer_shown peer_a ∷ [];
  after = [];
  is_read = refl;
  whole = refl;
  own = refl;
  others = ((text (codes "a="), refl, other_key), tt);
}

read_wireguard_status-Occurs_example :
    Occurs
      (patch_of (codes "d") (set_wireguard (peer_shown peer_b)))
      (read_wireguard_status always
        (ok (watched ∷ outdated ∷ []))
        (ok true)
        (ok (some output))
        []).0
unfolding peer_shown gefyra.Stowaway.Watch.status_eq
read_wireguard_status-Occurs_example =
    read_wireguard_status-Occurs always (watched ∷ outdated ∷ []) output outdated
      (peer_shown peer_b) (some []) []
      (Occurs-cons outdated watched (outdated ∷ []) (Occurs-here outdated [])) refl second_peer refl
      refl (λ e. cc e) (λ v patch. refl)
