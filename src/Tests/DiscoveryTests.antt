-- ===== src/Tests/DiscoveryTests.antt =====
-- The theorems on the discovery on the local network, applied to samples.
use linker.Prelude.{
  true, false, All, pos, ℕ, some, ◌≡◌, refl, List, [], ◌∷◌, replicate, nat_Eq, string_Eq, arith,
}
use linker.Python.Exc.{ok, err, connection_error}
use linker.Python.Text.{codes}
use linker.Python.Value.{str, obj, field, end}
use linker.Tuya.Frame.{TuyaFrame}
use linker.Tuya.Frame6699.{frame_6699, parse_6699, header_6699}
use linker.Tuya.Payload.{aes_decrypt}
use linker.Python.Bytes.{pack_u32, be32}
use linker.Tuya.Frame6699.RoundTrip.{parse_6699-frame_6699}
use linker.Tuya.Discovery.{
  Json, json_payloads, trimmed, truthy, is_device_id, is_known_version, discovery_item, first_item,
  parse_discovery_json,
}
use linker.Tuya.Discovery.Sources.{IsFrom, parse_discovery_json-IsFrom}
use linker.Tuya.Config.{TuyaDiscoveryOptions}
use linker.Tuya.Discovery.{Found}
use linker.Tuya.Scan.{
  Lan, bind_all, ask, collect, discovery_local_ip, parse_discovery_datagram, datagram_payloads,
  payloads_6699, payloads_55aa, first_found, scan, discover_sync,
}
use linker.Tuya.Scan.Senders.{IsHeard, HeardBefore, discover_sync-IsHeard}
use linker.Tests.Samples.{gcm, crypto, digests}

abbrev answer : TuyaFrame
answer = record { sequence = 0; command = 37; payload = 123 ∷ 125 ∷ [] }

parse_6699-frame_6699_example :
    (bytes : List ℕ) × (frame_6699 gcm (replicate 12 1) 0 37 (123 ∷ 125 ∷ []) [] ≡ ok bytes)
    × (parse_6699 gcm bytes [] ≡ ok answer)
parse_6699-frame_6699_example =
    parse_6699-frame_6699 gcm answer (replicate 12 1) [] refl (omega arith) (omega arith)
      (omega arith)

-- A datagram that names another address.
abbrev json : Json
json = record {
  loads = λ bytes. some (obj (field "gwId" (str "lamp0001") (field "ip" (str "10.0.0.9") end)));
  show_float = λ x. "";
}

found :
    parse_discovery_json json (codes "{}") "10.0.0.7"
    ≡ some (record { id = "lamp0001"; ip = "10.0.0.7" })
unfolding parse_discovery_json json_payloads trimmed truthy is_device_id is_known_version
    discovery_item first_item
found = refl

parse_discovery_json-IsFrom_example :
    IsFrom "10.0.0.7" (record { id = "lamp0001"; ip = "10.0.0.7" })
parse_discovery_json-IsFrom_example = parse_discovery_json-IsFrom json (codes "{}") "10.0.0.7" found

-- Two sockets open, one reports a reset, a datagram arrives from 10.0.0.7, and one too late from 10.0.0.8.
abbrev pub lan : Lan
lan = record {
  crypto = crypto;
  gcm = gcm;
  digests = digests;
  json = json;
  dumps = λ v. 123 ∷ 125 ∷ [];
  udp_key = replicate 16 1;
  nonce = replicate 12 1;
  bind = λ port. ok tt;
  bind_sender = ok tt;
  probe = λ target port. ok "10.0.0.2";
  parse_address = λ ip. some (record { version = 4; is_loopback = false; is_unspecified = false });
  send_to = λ request target. ok tt;
  started = 100;
  rounds =
      record { now = 100; received = err (connection_error "reset") ∷ [] }
      ∷ record { now = 150; received = ok (codes "{}", "10.0.0.7") ∷ [] }
      ∷ record { now = 600; received = ok (codes "{}", "10.0.0.8") ∷ [] }
      ∷ [];
}

abbrev options : TuyaDiscoveryOptions
options = record {
  enabled = true;
  broadcast_address = "255.255.255.255";
  ports = pos 6666 ∷ pos 6667 ∷ [];
}

abbrev scanned : List Found
scanned = record { id = "lamp0001"; ip = "10.0.0.7" } ∷ []

lamp_scanned : discover_sync lan options 500 ≡ ok scanned
unfolding discover_sync scan bind_all ask collect discovery_local_ip parse_discovery_datagram
    datagram_payloads payloads_6699 payloads_55aa first_found parse_discovery_json json_payloads
    trimmed truthy is_device_id is_known_version discovery_item first_item frame_6699 header_6699
    pack_u32 be32 aes_decrypt
lamp_scanned = refl

discover_sync-IsHeard_example :
    All (λ (f : Found). IsHeard (HeardBefore 600 lan.rounds) f.id f.ip) scanned
discover_sync-IsHeard_example = discover_sync-IsHeard lan options 500 scanned lamp_scanned
