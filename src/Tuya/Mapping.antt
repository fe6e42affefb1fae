-- ===== src/Tuya/Mapping.antt =====
-- tuya.py: class TuyaDpMapping, and `_bounded_int`.
pub mod Levels
pub mod Color
use linker.Prelude.{
  ℕ, ◌+◌, ◌-◌, ◌*◌, ◌/◌, String, Bool, true, false, not, ◌&&◌, ◌||◌, Option, none, some, ℤ, pos,
  negsuc, leb, ltb, nat_eq, str_eq, if◌then◌else◌,
}
use linker.Python.Exc.{
  Result, ok, err, protocol_error, configuration_error, guard, raise_if, ◌>>=◌, ◌>>◌,
}
use linker.Python.Text.{concat}
use linker.Python.Value.{Value, int, float, trunc}
use linker.Python.Round.{round_div}

-- The white channel: its DP with the range of the device.
pub record White : Type 0 where
  pub dp : ℕ
  pub low : ℕ
  pub high : ℕ

-- A mapping that has passed `__post_init__`: with a white DP it has both ends of its range, and without
-- one it has neither.
pub record TuyaDpMapping : Type 0 where
  pub power : ℕ
  pub brightness : ℕ
  pub color : ℕ
  pub color_format : String
  pub brightness_min : ℕ
  pub brightness_max : ℕ
  pub white : Option White

-- `low <= value <= high` for an int
abbrev pub in_range : ℤ → ℕ → ℕ → Option ℕ
in_range (pos n) low high = if leb low n && leb n high then some n else none
in_range (negsuc n) low high = none

abbrev pub or_raise {ℓ} : {A : Type ℓ} → Option A → Result A → Result A
or_raise none r = r
or_raise (some a) r = ok a

-- `_bounded_int(name, value, low, high)`; `bounds` is the text "low to high" of the message.
unfoldable pub bounded_int : String → String → ℤ → ℕ → ℕ → Result ℕ
bounded_int name bounds value low high =
    or_raise (in_range value low high)
      (err (configuration_error (concat name (concat " must be an integer from " bounds))))

unfoldable pub white_range : ℕ → Option ℤ → Option ℤ → Result (Option White)
white_range dp (some low) (some high) = do
  l ← bounded_int "white_min" "0 to 65535" low 0 65535
  h ← bounded_int "white_max" "0 to 65535" high 0 65535
  guard (ltb l h) (configuration_error "white_max must be greater than white_min")
  ok (some (record { dp = dp; low = l; high = h }))
white_range dp _ _ =
    err (configuration_error "white_min and white_max are required with a white DP")

-- The arguments `white`, `white_min` and `white_max`, each given or None, beside the other DPs.
unfoldable pub white_channel : ℕ → ℕ → ℕ → Option ℤ → Option ℤ → Option ℤ → Result (Option White)
white_channel power brightness color none none none = ok none
white_channel power brightness color none _ _ =
    err (configuration_error "white_min/white_max require a white DP")
white_channel power brightness color (some white) low high = do
  dp ← bounded_int "DP white" "1 to 255" white 1 255
  raise_if (nat_eq dp power || (nat_eq dp brightness || nat_eq dp color))
      (configuration_error "white DP must be distinct")
  white_range dp low high

-- The constructor's arguments.
pub record MappingArgs : Type 0 where
  pub power : ℤ
  pub brightness : ℤ
  pub color : ℤ
  pub color_format : String
  pub brightness_min : ℤ
  pub brightness_max : ℤ
  pub white : Option ℤ
  pub white_min : Option ℤ
  pub white_max : Option ℤ

abbrev pub is_color_format : String → Bool
is_color_format f = str_eq f "rgb_hex" || str_eq f "hsv_hex"

-- `TuyaDpMapping(...)` with `__post_init__`
unfoldable pub new : MappingArgs → Result TuyaDpMapping
new a = do
  power ← bounded_int "DP power" "1 to 255" a.power 1 255
  brightness ← bounded_int "DP brightness" "1 to 255" a.brightness 1 255
  color ← bounded_int "DP color" "1 to 255" a.color 1 255
  raise_if (nat_eq power brightness || (nat_eq power color || nat_eq brightness color))
      (configuration_error "power, brightness, and color DPs must be distinct")
  guard (is_color_format a.color_format)
      (configuration_error "color_format must be rgb_hex or hsv_hex")
  low ← bounded_int "brightness_min" "0 to 65535" a.brightness_min 0 65535
  high ← bounded_int "brightness_max" "0 to 65535" a.brightness_max 0 65535
  guard (ltb low high) (configuration_error "brightness_max must be greater than brightness_min")
  white ← white_channel power brightness color a.white a.white_min a.white_max
  ok (record {
    power = power;
    brightness = brightness;
    color = color;
    color_format = a.color_format;
    brightness_min = low;
    brightness_max = high;
    white = white;
  })

-- A level from 0 to 255 scaled to the device's range, and back.
unfoldable pub scale_to : ℕ → ℕ → ℕ → ℕ
scale_to low high value = low + (value * (high - low) + 127) / 255

unfoldable pub scale_from : ℕ → ℕ → ℕ → ℕ
unfolding round_div
scale_from low high numeric = round_div ((numeric - low) * 255) (high - low)

-- `int(value)` of a number that is no bool
unfoldable pub numeric : String → Value → Result ℤ
numeric name (int n) = ok n
numeric name (float x) = trunc x
numeric name v = err (protocol_error (concat name " DP is not numeric"))

-- The check against the device's range, and the scaling back.
unfoldable pub checked_level : String → ℕ → ℕ → ℤ → Result ℕ
checked_level name low high n = do
  inside ←
      or_raise (in_range n low high)
        (err (protocol_error (concat name " DP is outside configured range")))
  ok (scale_from low high inside)

unfoldable pub level_from_dp : String → ℕ → ℕ → Value → Result ℕ
level_from_dp name low high value = do n ← numeric name value; checked_level name low high n

unfoldable pub brightness_to_dp : TuyaDpMapping → ℤ → Result ℕ
brightness_to_dp m value = do
  v ← bounded_int "brightness" "0 to 255" value 0 255
  ok (scale_to m.brightness_min m.brightness_max v)

unfoldable pub brightness_from_dp : TuyaDpMapping → Value → Result ℕ
brightness_from_dp m value = level_from_dp "brightness" m.brightness_min m.brightness_max value

abbrev pub white_config : TuyaDpMapping → Result White
white_config m = or_raise m.white (err (configuration_error "white DP is not configured"))

unfoldable pub white_to_dp : TuyaDpMapping → ℤ → Result ℕ
white_to_dp m value = do
  w ← white_config m
  v ← bounded_int "white" "0 to 255" value 0 255
  ok (scale_to w.low w.high v)

unfoldable pub white_from_dp : TuyaDpMapping → Value → Result ℕ
white_from_dp m value = do w ← white_config m; level_from_dp "white" w.low w.high value
