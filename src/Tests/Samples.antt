-- ===== src/Tests/Samples.antt =====
-- A lamp in memory, a boundary around it, and stand-ins for the libraries.
use linker.Prelude.{
  ℕ, suc, ◌++◌, ◌+◌, ◌%◌, ◌≡◌, refl, ap, String, Bool, true, false, Option, none, some, List, [],
  ◌∷◌, pos, length, replicate, take, ◌-◌, take-append, length-append, arith,
}
use linker.Python.Exc.{ok, err, value_error}
use linker.Python.Value.{Value, finite, bool, int, str}
use linker.Models.Rgb.{Rgb}
use linker.Models.Light.{LightState}
use linker.Models.Descriptor.{DeviceDescriptor}
use linker.Protocol.{malformed, Envelope, IsoTime, Payload}
use linker.Driver.{VendorRgbDriver}
use linker.Boundary.{LinkerConfig, LinkerBoundary, Stamps}
use linker.Tuya.Frame.{Digests}
use linker.Tuya.Frame6699.{Gcm}
use linker.Tuya.Mapping.{TuyaDpMapping}
use linker.Tuya.Mapping.Color.{Colorsys}
use linker.Tuya.Payload.{Cryptography, Encodings}

abbrev pub lamp : DeviceDescriptor
lamp = record { id = "light.lamp"; name = "Lamp"; color_modes = "RGB" ∷ [] }

abbrev pub orange : Rgb
orange = record { r = 255; g = 128; b = 0 }

abbrev pub lit : Bool → ℕ → LightState
lit on level = record {
  device_id = "lamp0001";
  available = true;
  on = on;
  rgb = some orange;
  brightness = some level;
  observed_at = none;
  white = none;
  state_revision = 0;
}

-- The lamp counts the calls that reach it.
abbrev pub lamp_driver : VendorRgbDriver ℕ
lamp_driver = record {
  discover = λ timeout wait n. (ok (lamp ∷ []), suc n);
  pair = some (λ candidate wait n. (ok (lamp, "lamp0001"), suc n));
  turn_on = λ device n. (ok (lit true 255), suc n);
  turn_off = λ device n. (ok (lit false 255), suc n);
  set_brightness = λ device level n. (ok (lit true level), suc n);
  set_rgb = λ device color n. (ok (lit true 255), suc n);
}

-- Drivers that fail with a text of their own.
abbrev pub failing_driver : String → VendorRgbDriver ℕ
failing_driver text = record {
  discover = λ timeout wait n. (err (value_error text), n);
  pair = some (λ candidate wait n. (err (value_error text), n));
  turn_on = λ device n. (err (value_error text), n);
  turn_off = λ device n. (err (value_error text), n);
  set_brightness = λ device level n. (err (value_error text), n);
  set_rgb = λ device color n. (err (value_error text), n);
}

abbrev pub clock : Stamps
clock = record { uuid4 = λ n. n + 1000; now = λ n. n }

abbrev pub config : LinkerConfig
config = record {
  id = "openhdo.linker";
  version = "0.1.0";
  name = "Linker";
  transport = "wifi";
  discovery = record { scope = "local"; timeout_s = finite (pos 5) 0 };
  reconnect_initial_s = finite (pos 1) 0;
  reconnect_max_s = finite (pos 30) 0;
}

abbrev pub empty_boundary : LinkerBoundary ℕ
empty_boundary = record {
  config = config;
  light_id = none;
  device_id = none;
  descriptor = none;
  journal = [];
  driver = 0;
  built = 0;
}

abbrev pub lamp_boundary : LinkerBoundary ℕ
lamp_boundary = record {
  config = config;
  light_id = some "light.lamp";
  device_id = some "lamp0001";
  descriptor = some lamp;
  journal = [];
  driver = 0;
  built = 0;
}

abbrev pub message : String → ℕ → Payload → Envelope
message kind id payload = record {
  kind = kind;
  source = "server";
  payload = payload;
  id = id;
  timestamp = 0;
  correlation_id = some id;
}

abbrev pub session_id : Value
session_id = str "00000000-0000-0000-0000-000000000007"

abbrev pub power_on : ℕ → String → Envelope
power_on id command_id = message "light.command.power" id (
    ("light_id", str "light.lamp")
    ∷ ("command_id", str command_id)
    ∷ ("idempotency_key", str "key-1")
    ∷ ("power", bool true)
    ∷ [])

abbrev pub discovery_start : Envelope
discovery_start =
    message "discovery.start" 5 (("session_id", session_id) ∷ ("timeout_s", int (pos 5)) ∷ [])

abbrev pub pairing_start : Envelope
pairing_start = message "pairing.start" 6 (
    ("session_id", session_id)
    ∷ ("discovery_session_id", session_id)
    ∷ ("candidate_id", str "light.lamp")
    ∷ ("timeout_s", int (pos 5))
    ∷ [])

abbrev pub no_time : IsoTime
no_time = record { from_iso = λ s. malformed; to_iso = λ t. "" }

abbrev pub checksum : List ℕ → ℕ
checksum [] = 0
checksum (b ∷ bs) = b + checksum bs

abbrev pub digests : Digests
digests = record {
  crc32 = checksum;
  hmac_sha256 = λ key bytes. replicate 32 7;
  length-hmac_sha256 = λ key bytes. refl;
}

-- A cipher that appends sixteen zeros.
abbrev pub untagged : List ℕ → List ℕ
untagged d = take (length d - 16) d

pub untagged-tagged : (d : List ℕ) → untagged (d ++ replicate 16 0) ≡ d
untagged-tagged d =
    take-append (length (d ++ replicate 16 0) - 16) d (replicate 16 0)
      (omega (arith, length-append d (replicate 16 0)))

pub length-tagged : (d : List ℕ) → length (d ++ replicate 16 0) ≡ length d + 16
length-tagged d = length-append d (replicate 16 0)

abbrev pub gcm : Gcm
gcm = record {
  encrypt = λ key nonce d aad. d ++ replicate 16 0;
  decrypt = λ key nonce d aad. some (untagged d);
  length-encrypt = λ key nonce d aad. length-tagged d;
  decrypt-encrypt = λ key nonce d aad. ap some (untagged-tagged d);
}

abbrev pub colorsys : Colorsys
colorsys = record { to_hsv = λ c. (c.r, c.g, c.b); to_rgb = λ h s v. (h, s, v) }

abbrev pub mapping : TuyaDpMapping
mapping = record {
  power = 20;
  brightness = 22;
  color = 24;
  color_format = "rgb_hex";
  brightness_min = 10;
  brightness_max = 1000;
  white = none;
}

-- A padding that repeats each byte sixteen times.
abbrev stretch : List ℕ → List ℕ
stretch [] = []
stretch (b ∷ bs) = b ∷ b ∷ b ∷ b ∷ b ∷ b ∷ b ∷ b ∷ b ∷ b ∷ b ∷ b ∷ b ∷ b ∷ b ∷ b ∷ stretch bs

abbrev with_first : ℕ → Option (List ℕ) → Option (List ℕ)
with_first b none = none
with_first b (some bs) = some (b ∷ bs)

abbrev shrink : List ℕ → Option (List ℕ)
shrink [] = some []
shrink (b ∷ _ ∷ _ ∷ _ ∷ _ ∷ _ ∷ _ ∷ _ ∷ _ ∷ _ ∷ _ ∷ _ ∷ _ ∷ _ ∷ _ ∷ _ ∷ bs) =
    with_first b (shrink bs)
shrink _ = none

pub shrink-stretch : (d : List ℕ) → shrink (stretch d) ≡ some d
shrink-stretch [] = refl
shrink-stretch (b ∷ bs) = ap (with_first b) (shrink-stretch bs)

pub length-stretch : (d : List ℕ) → length (stretch d) % 16 ≡ 0
length-stretch [] = refl
length-stretch (b ∷ bs) = omega (arith, length-stretch bs)

abbrev pub crypto : Cryptography
crypto = record {
  pad = stretch;
  unpad = shrink;
  encrypt = λ key d. d;
  decrypt = λ key d. d;
  unpad-pad = shrink-stretch;
  length-pad = length-stretch;
  length-encrypt = λ key d. refl;
  decrypt-encrypt = λ key d whole. refl;
}

abbrev pub encodings : Encodings
encodings = record {
  b64encode = λ d. d;
  b64decode = some;
  md5_hex = λ d. replicate 32 48;
  b64decode-b64encode = λ d. refl;
  length-md5_hex = λ d. refl;
}
