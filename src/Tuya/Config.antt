-- ===== src/Tuya/Config.antt =====
-- tuya.py: the checks of TuyaDeviceConfig, TuyaPairingConfig and TuyaDiscoveryOptions.
pub mod Checks
use linker.Prelude.{
  ℕ, ◌*◌, ◌^◌, String, Bool, true, false, not, ◌&&◌, ◌||◌, Option, none, some, ◌≡◌, List, [], ◌∷◌,
  ℤ, pos, negsuc, ltb, leb, nat_eq, str_eq, length, if◌then◌else◌,
}
use linker.Python.Exc.{Result, ok, err, configuration_error, guard, raise_if, ◌>>=◌, ◌>>◌}
use linker.Python.Text.{codes}
use linker.Python.Value.{Float, finite, inf, minus_inf, nan}
use linker.Models.Identifier.{is_short_text}
use linker.Protocol.{is_member}
use linker.Tuya.Mapping.{TuyaDpMapping, bounded_int}
use linker.Tuya.Payload.{supported_protocols}

-- What the standard library's `ipaddress.ip_address` says of an address. A text that it refuses is none.
pub record Address : Type 0 where
  pub version : ℕ
  pub is_loopback : Bool
  pub is_private : Bool
  pub is_link_local : Bool

pub record TuyaDeviceConfig : Type 0 where
  pub ip : String
  pub device_id : String
  pub local_key : String
  pub protocol_version : String
  pub dps : Option TuyaDpMapping
  pub public_name : String
  pub port : ℤ
  pub timeout_s : Float
  pub retries : ℤ

pub record TuyaPairingConfig : Type 0 where
  pub local_key : String
  pub protocol_version : String
  pub dps : TuyaDpMapping
  pub public_name : String
  pub port : ℤ
  pub timeout_s : Float
  pub retries : ℤ

-- `timeout_s <= 0 or timeout_s > 60`. Both comparisons are false of a NaN.
unfoldable pub is_bad_timeout : Float → Bool
is_bad_timeout (finite (pos m) k) = nat_eq m 0 || ltb (60 * 2 ^ k) m
is_bad_timeout (finite (negsuc m) k) = true
is_bad_timeout inf = true
is_bad_timeout minus_inf = true
is_bad_timeout nan = false

-- `text.encode("ascii")` succeeds.
abbrev pub are_ascii : List ℕ → Bool
are_ascii [] = true
are_ascii (c ∷ cs) = ltb c 128 && are_ascii cs

-- `0 <= n <= 5`
abbrev pub is_retries : ℤ → Bool
is_retries (pos n) = leb n 5
is_retries (negsuc n) = false

-- The key and the protocol, which both classes check in the same words.
unfoldable pub check_key : String → String → Result (Unit {0})
check_key local_key protocol_version = do
  guard (are_ascii (codes local_key))
      (configuration_error "local_key must contain ASCII characters")
  guard (nat_eq (length (codes local_key)) 16)
      (configuration_error "local_key must be exactly 16 ASCII bytes")
  guard (is_member protocol_version supported_protocols) (
      configuration_error
        "protocol_version must be one of 3.1, 3.2, 3.3, 3.4; 3.5 is not implemented")

unfoldable pub check_name : String → Result (Unit {0})
check_name public_name =
    guard (is_short_text public_name)
      (configuration_error "public_name must contain 1 to 128 characters")

-- The port, the timeout and the retries.
unfoldable pub check_link : ℤ → Float → ℤ → Result (Unit {0})
check_link port timeout_s retries = do
  _ ← bounded_int "port" "1 to 65535" port 1 65535
  raise_if (is_bad_timeout timeout_s)
      (configuration_error "timeout_s must be greater than 0 and at most 60")
  guard (is_retries retries) (configuration_error "retries must be an integer from 0 to 5")

-- `address.is_loopback or (not address.is_private and not address.is_link_local)`
abbrev pub is_refused : Address → Bool
is_refused a = a.is_loopback || (not a.is_private && not a.is_link_local)

abbrev pub check_address : Option Address → Result (Unit {0})
check_address none = err (configuration_error "ip must be a valid IPv4 or IPv6 address")
check_address (some a) =
    raise_if (is_refused a)
      (configuration_error "local Tuya device IP must be private or link-local")

module _ (ip_address : String → Option Address) where
  -- `TuyaDeviceConfig(...)`
  unfoldable pub new_device : TuyaDeviceConfig → Result TuyaDeviceConfig
  new_device c = do
    check_address (ip_address c.ip)
    guard (leb 1 (length (codes c.device_id)) && leb (length (codes c.device_id)) 64)
        (configuration_error "device_id is required and must be at most 64 characters")
    check_name c.public_name
    check_key c.local_key c.protocol_version
    check_link c.port c.timeout_s c.retries
    ok c

-- `TuyaPairingConfig(...)`
unfoldable pub new_pairing : TuyaPairingConfig → Result TuyaPairingConfig
new_pairing c = do
  check_key c.local_key c.protocol_version
  check_name c.public_name
  check_link c.port c.timeout_s c.retries
  ok c

pub record TuyaDiscoveryOptions : Type 0 where
  pub enabled : Bool
  pub broadcast_address : String
  pub ports : List ℤ

-- `1 <= port <= 65535`
abbrev pub is_port : ℤ → Bool
is_port (pos n) = leb 1 n && leb n 65535
is_port (negsuc n) = false

abbrev pub are_ports : List ℤ → Bool
are_ports [] = true
are_ports (p ∷ ps) = is_port p && are_ports ps

abbrev pub same_int : ℤ → ℤ → Bool
same_int (pos a) (pos b) = nat_eq a b
same_int (negsuc a) (negsuc b) = nat_eq a b
same_int _ _ = false

abbrev pub has_int : ℤ → List ℤ → Bool
has_int p [] = false
has_int p (q ∷ qs) = same_int p q || has_int p qs

-- `len(set(ports)) == len(ports)`
abbrev pub all_different : List ℤ → Bool
all_different [] = true
all_different (p ∷ ps) = not (has_int p ps) && all_different ps

abbrev pub is_no_port : List ℤ → Bool
is_no_port [] = true
is_no_port (p ∷ ps) = false

abbrev pub check_broadcast : Option Address → String → Result (Unit {0})
check_broadcast none address = err (configuration_error "broadcast_address must be an IPv4 address")
check_broadcast (some a) address =
    guard (nat_eq a.version 4 && str_eq address "255.255.255.255")
      (configuration_error "discovery only permits the global LAN broadcast address")

-- `TuyaDiscoveryOptions(...)`
unfoldable pub new_options :
    (String → Option Address) → TuyaDiscoveryOptions → Result TuyaDiscoveryOptions
new_options ip_address o = do
  check_broadcast (ip_address o.broadcast_address) o.broadcast_address
  raise_if (is_no_port o.ports || not (are_ports o.ports))
      (configuration_error "discovery ports must be valid UDP ports")
  guard (all_different o.ports) (configuration_error "discovery ports must be distinct")
  ok o
