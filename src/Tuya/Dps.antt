-- ===== src/Tuya/Dps.antt =====
-- tuya.py: `parse_dps` and `state_from_dps`.
pub mod Bounds
use linker.Prelude.{
  ℕ, String, Bool, true, false, not, ◌&&◌, ◌||◌, Option, none, some, ◌≡◌, List, [], ◌∷◌, ℤ, pos,
  negsuc, leb, nat_eq, nat_Eq, str_eq, string_Eq, if◌then◌else◌,
}
use linker.Python.Exc.{
  Exc, Result, ok, err, protocol_error, configuration_error, guard, raise_if, reraise, ◌>>=◌, ◌>>◌,
}
use linker.Python.Dict.{Dict, get, put, contains}
use linker.Python.Value.{Value, null, bool, obj, to_dict}
use linker.Models.Light
use linker.Models.Light.{LightState}
use linker.Models.Rgb.{Rgb}
use linker.Protocol.{Payload}
use linker.Tuya.Mapping.{TuyaDpMapping, White, bounded_int, brightness_from_dp, white_from_dp}
use linker.Tuya.Mapping.Color.{Colorsys, decode_color}

-- `json.loads` of bytes, none where it raises JSONDecodeError or UnicodeDecodeError, and `int(text)`, none
-- where it raises ValueError.
pub record Reading : Type 0 where
  pub loads : List ℕ → Option Value
  pub int10 : String → Option ℤ

-- The data points by their index.
abbrev pub Dps : Type 0
Dps = Dict ℕ Value

-- `value.get("data").get("dps")` where there is such an object
abbrev pub nested_dps : Option Value → Option Value
nested_dps (some (obj fs)) = get (to_dict fs) "dps"
nested_dps v = none

-- `value.get("dps")`, with null like a missing key, or else the one in `data`
abbrev pub found_dps : Option Value → Option Value → Option Value
found_dps none other = nested_dps other
found_dps (some null) other = nested_dps other
found_dps (some v) other = some v

abbrev pub indexed : Option Value → Result Payload
indexed (some (obj fs)) = ok (to_dict fs)
indexed v = err (protocol_error "Tuya payload does not contain indexed dps")

abbrev pub integer_index : Option ℤ → Result ℤ
integer_index none = err (protocol_error "Tuya DP index must be an integer")
integer_index (some i) = ok i

abbrev pub is_configuration_error : Exc → Bool
is_configuration_error (configuration_error m) = true
is_configuration_error e = false

-- The index that a key names.
unfoldable pub dp_index : Reading → String → Result ℕ
dp_index reading key = do
  i ← integer_index (reading.int10 key)
  reraise is_configuration_error (protocol_error "Tuya DP index is outside the supported range")
      (bounded_int "DP index" "1 to 255" i 1 255)

-- The loop over the items, with `result` so far.
unfoldable pub indexed_dps : Reading → Payload → Dps → Result Dps
indexed_dps reading [] result = ok result
indexed_dps reading ((key, v) ∷ items) result =
    dp_index reading key >>= λ index. indexed_dps reading items (put result index v)

unfoldable pub dps_of_value : Reading → Value → Result Dps
dps_of_value reading (obj fs) = do
  let d = to_dict fs
  items ← indexed (found_dps (get d "dps") (get d "data"))
  indexed_dps reading items []
dps_of_value reading v = err (protocol_error "Tuya payload must be an object")

abbrev pub valid_json : Option Value → Result Value
valid_json none = err (protocol_error "Tuya payload is not valid JSON")
valid_json (some v) = ok v

-- `parse_dps` of bytes
unfoldable pub parse_dps : Reading → List ℕ → Result Dps
parse_dps reading payload = do v ← valid_json (reading.loads payload); dps_of_value reading v

abbrev pub power_of : Option Value → Result Bool
power_of none = err (protocol_error "configured power DP is absent")
power_of (some (bool b)) = ok b
power_of (some v) = err (protocol_error "configured power DP is not boolean")

abbrev pub both : Option Value → Option Value → Result (Value × Value)
both (some a) (some b) = ok (a, b)
both _ _ = err (protocol_error "configured brightness and color DPs are absent")

-- The white level where a white DP is configured and reported.
unfoldable pub white_of : TuyaDpMapping → Option White → Dps → Result (Option ℕ)
white_of m none dps = ok none
white_of m (some w) dps = elim (get dps w.dp) [
  | none ↦ ok none
  | some v ↦ do n ← white_from_dp m v; ok (some n)
]

unfoldable pub state_from_dps :
    Colorsys → String → Dps → TuyaDpMapping → Option ℕ → Result LightState
state_from_dps colorsys device_id dps m observed_at = do
  power ← power_of (get dps m.power)
  (raw_brightness, raw_color) ← both (get dps m.brightness) (get dps m.color)
  rgb ← decode_color colorsys m raw_color
  brightness ← brightness_from_dp m raw_brightness
  white ← white_of m m.white dps
  Light.new (record {
    device_id = device_id;
    available = true;
    on = power;
    rgb = some rgb;
    brightness = some brightness;
    observed_at = observed_at;
    white = white;
    state_revision = 0;
  })
