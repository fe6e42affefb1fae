-- ===== src/Tuya/Scan.antt =====
-- tuya.py: `_parse_discovery_datagram`, `_discovery_local_ip` and `_discover_sync`.
pub mod Senders
use linker.Prelude.{
  ℕ, ◌+◌, ltb, String, Bool, true, false, not, ◌&&◌, Option, none, some, List, [], ◌∷◌, ◌++◌, ℤ,
  nat_eq, nat_Eq, string_Eq, str_eq, list_eq, take, if◌then◌else◌,
}
use linker.Python.Exc.{
  Exc, Result, ok, err, is_protocol_error, is_value_error, is_os_error, ◌>>=◌, ◌>>◌,
}
use linker.Python.Dict.{Dict, put}
use linker.Python.Bytes.{be32}
use linker.Python.Value.{Value, str, obj, end, field}
use linker.Tuya.Config.{TuyaDiscoveryOptions}
use linker.Tuya.Discovery.{Json, Found, parse_discovery_json}
use linker.Tuya.Frame.{TuyaFrame, Digests, prefix, parse_frame}
use linker.Tuya.Frame6699.{Gcm, prefix_6699, frame_6699, parse_6699}
use linker.Tuya.Payload.{Cryptography, aes_decrypt, without_retcode}

-- What `ipaddress.ip_address` says of the address of a probe.
pub record ProbeAddress : Type 0 where
  pub version : ℕ
  pub is_loopback : Bool
  pub is_unspecified : Bool

-- A pass of the loop of a scan: the clock at its head, and what `recvfrom` returns or raises for the sockets that
-- can be read before the deadline.
pub record Round : Type 0 where
  pub now : ℕ
  pub received : List (Result (List ℕ × String))

-- The sockets and the libraries of a scan. `bind` and `bind_sender` open the sockets, `probe` is the
-- address of a socket that is connected to a target. `started` is `time.monotonic()` when the deadline is set,
-- and `rounds` are the passes of the loop in their order: when the last one is over, so is the time. `udp_key` is DISCOVERY_UDP_KEY, an MD5 digest.
pub record Lan : Type 0 where
  pub crypto : Cryptography
  pub gcm : Gcm
  pub digests : Digests
  pub json : Json
  pub dumps : Value → List ℕ
  pub udp_key : List ℕ
  pub nonce : List ℕ
  pub bind : ℤ → Result (Unit {0})
  pub bind_sender : Result (Unit {0})
  pub probe : String → ℕ → Result String
  pub parse_address : String → Option ProbeAddress
  pub send_to : List ℕ → String → Result (Unit {0})
  pub started : ℕ
  pub rounds : List Round

-- A frame's payload, or none where `except TuyaProtocolError: return None`.
abbrev pub framed : Result TuyaFrame → Result (Option TuyaFrame)
framed (ok frame) = ok (some frame)
framed (err e) = if is_protocol_error e then ok none else err e

-- `except (TuyaProtocolError, ValueError)`: the payload is passed over.
abbrev pub decrypted : Result (List ℕ) → List (List ℕ) → Result (List (List ℕ))
decrypted (ok payload) rest = ok (payload ∷ rest)
decrypted (err e) rest = if is_value_error e then ok rest else err e

module _ (lan : Lan) where
  -- The payloads of a 6699 frame, which the device encrypts and authenticates.
  unfoldable pub payloads_6699 : Option TuyaFrame → List (List ℕ)
  payloads_6699 none = []
  payloads_6699 (some frame) = if nat_eq frame.command 37 then frame.payload ∷ [] else []

  -- The payload of a 55AA frame as it is, then what it decrypts to with its return code and without.
  unfoldable pub payloads_55aa : Option TuyaFrame → Result (List (List ℕ))
  payloads_55aa none = ok []
  payloads_55aa (some frame) =
      let bare = without_retcode frame.payload in
      (if list_eq frame.payload bare
        then ok []
        else decrypted (aes_decrypt lan.crypto bare lan.udp_key) [])
      >>= λ last. decrypted (aes_decrypt lan.crypto frame.payload lan.udp_key) last >>= λ rest.
          ok (frame.payload ∷ rest)

  -- The texts that a datagram may hold, in the order in which they are tried.
  unfoldable pub datagram_payloads : List ℕ → Result (List (List ℕ))
  unfolding payloads_6699 payloads_55aa
  datagram_payloads datagram =
      if list_eq (take 4 datagram) (be32 prefix_6699)
      then framed (parse_6699 lan.gcm datagram lan.udp_key) >>= (λ frame. ok (payloads_6699 frame))
      else if list_eq (take 4 datagram) (be32 prefix)
      then framed (parse_frame lan.digests datagram "3.1" []) >>= payloads_55aa
      else decrypted (aes_decrypt lan.crypto datagram lan.udp_key) [] >>= λ rest.
          ok (datagram ∷ rest)

  abbrev pub or_found : Option Found → Option Found → Option Found
  or_found (some item) rest = some item
  or_found none rest = rest

  unfoldable pub first_found : List (List ℕ) → String → Option Found
  first_found [] ip = none
  first_found (payload ∷ payloads) ip =
      or_found (parse_discovery_json lan.json payload ip) (first_found payloads ip)

  -- `_parse_discovery_datagram`
  unfoldable pub parse_discovery_datagram : List ℕ → String → Result (Option Found)
  unfolding datagram_payloads first_found
  parse_discovery_datagram datagram ip =
      datagram_payloads datagram >>= λ payloads. ok (first_found payloads ip)

  -- A usable IPv4 address.
  abbrev is_local_ip : Option ProbeAddress → Bool
  is_local_ip none = false
  is_local_ip (some a) = nat_eq a.version 4 && (not a.is_loopback && not a.is_unspecified)

  abbrev probed : Result String → Option String → Option String
  probed (ok address) rest = if is_local_ip (lan.parse_address address) then some address else rest
  probed (err e) rest = rest

  -- `_discovery_local_ip`, where a probe raises nothing but OSError and the address of a socket parses.
  unfoldable pub discovery_local_ip : String → Option String
  discovery_local_ip broadcast_address =
      probed (lan.probe broadcast_address 7000) (probed (lan.probe "192.0.2.1" 1) none)

  unfoldable pub bind_all : List ℤ → Result (Unit {0})
  bind_all [] = ok tt
  bind_all (port ∷ ports) = lan.bind port >> bind_all ports

  abbrev request_body : String → Value
  request_body ip = obj (field "from" (str "app") (field "ip" (str ip) end))

  -- The request for a device's information.
  unfoldable pub ask : Option String → String → Result (Unit {0})
  ask none broadcast_address = ok tt
  ask (some ip) broadcast_address =
      frame_6699 lan.gcm lan.nonce 0 37 (lan.dumps (request_body ip)) lan.udp_key >>= λ request.
      lan.send_to request broadcast_address

  abbrev pub keep : Option Found → Dict String String → Dict String String
  keep none found = found
  keep (some item) found = if str_eq item.id "" then found else put found item.id item.ip

  -- The loop over the sockets that can be read. An OSError of `recvfrom` is passed over.
  unfoldable pub collect :
      List (Result (List ℕ × String)) → Dict String String → Result (Dict String String)
  unfolding parse_discovery_datagram
  collect [] found = ok found
  collect (err e ∷ received) found = if is_os_error e then collect received found else err e
  collect (ok (datagram, ip) ∷ received) found =
      parse_discovery_datagram datagram ip >>= λ item. collect received (keep item found)

  -- `while time.monotonic() < deadline`
  unfoldable pub scan : ℕ → List Round → Dict String String → Result (Dict String String)
  unfolding collect
  scan deadline [] found = ok found
  scan deadline (round ∷ rounds) found =
      if ltb round.now deadline
      then (collect round.received found >>= λ more. scan deadline rounds more)
      else ok found

  abbrev pub items : Dict String String → List Found
  items [] = []
  items ((id, ip) ∷ found) = record { id = id; ip = ip } ∷ items found

  -- `_discover_sync`
  unfoldable pub discover_sync : TuyaDiscoveryOptions → ℕ → Result (List Found)
  unfolding bind_all discovery_local_ip ask scan
  discover_sync options timeout =
      bind_all options.ports
      >> (lan.bind_sender
          >> (ask (discovery_local_ip options.broadcast_address) options.broadcast_address
              >> (scan (lan.started + timeout) lan.rounds [] >>= λ found. ok (items found))))
