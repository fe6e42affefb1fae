-- ===== src/Tests/TuyaTests.antt =====
-- The theorems on frames, data points and device configurations of tuya.py, applied to samples.
use linker.Prelude.{
  ℕ, String, Option, none, some, ◌≡◌, refl, List, [], ◌∷◌, ◌++◌, pos, true, false, All, arith,
  nat_Eq, string_Eq, str_eq, if◌then◌else◌,
}
use linker.Python.Exc.{ok}
use linker.Python.Value.{Value, bool, int, str, obj, field, end, finite}
use linker.Python.Bytes.{be32, u32}
use linker.Models.Rgb
use linker.Models.Rgb.{Rgb}
use linker.Tuya.Frame.{TuyaFrame, frame_bytes, parse_frame, read_frame, verify, trailer_size}
use linker.Tuya.Frame.RoundTrip.{IsFramable, parse_frame-frame_bytes, frame_bytes-parse_frame}
use linker.Tuya.Frame.Stream.{read_frame-append}
use linker.Tuya.Dps.{Reading, Dps, parse_dps, state_from_dps, dps_of_value, indexed_dps, dp_index}
use linker.Tuya.Dps.Bounds.{IsIndexed, parse_dps-IsIndexed}
use linker.Tuya.Control.{turn_on_values}
use linker.Tuya.Control.ReadBack.{state_from_dps-turn_on_values}
use linker.Tuya.Mapping.{brightness_to_dp, bounded_int, scale_to}
use linker.Tuya.Mapping.Levels.{IsValid}
use linker.Tuya.Mapping.Color.{encode_color}
use linker.Tuya.Config.{
  TuyaDiscoveryOptions, Address, TuyaDeviceConfig, new_device, check_key, check_name, check_link,
  is_bad_timeout,
}
use linker.Tuya.Config.Checks.{IsUsable, new_device-IsUsable}
use linker.Models.Identifier.{is_short_text}
use linker.Tests.Samples.{digests, colorsys, mapping, orange}

abbrev query : TuyaFrame
query = record { sequence = 1; command = 10; payload = 123 ∷ 125 ∷ [] }

query-IsFramable : IsFramable "3.3" query
unfolding trailer_size
query-IsFramable = record {
  sequence_word = omega arith;
  command_word = omega arith;
  fits = omega arith;
}

parse_frame-frame_bytes_example :
    (bytes : List ℕ) × (frame_bytes digests 1 10 (123 ∷ 125 ∷ []) "3.3" [] ≡ ok bytes)
    × (parse_frame digests bytes "3.3" [] ≡ ok query)
parse_frame-frame_bytes_example = parse_frame-frame_bytes digests "3.3" [] query query-IsFramable

-- The frame's bytes, with the checksum 0x20c as its code.
abbrev query_bytes : List ℕ
query_bytes =
    0 ∷ 0 ∷ 0x55 ∷ 0xaa ∷ 0 ∷ 0 ∷ 0 ∷ 1 ∷ 0 ∷ 0 ∷ 0 ∷ 10 ∷ 0 ∷ 0 ∷ 0 ∷ 10 ∷ 123 ∷ 125 ∷ 0 ∷ 0 ∷ 2
    ∷ 12 ∷ 0 ∷ 0 ∷ 0xaa ∷ 0x55 ∷ []

query-parsed : parse_frame digests query_bytes "3.3" [] ≡ ok query
unfolding parse_frame verify trailer_size u32 be32
query-parsed = refl

read_frame-append_example :
    read_frame digests (query_bytes ++ (1 ∷ 2 ∷ [])) "3.3" [] ≡ ok (query, 1 ∷ 2 ∷ [])
read_frame-append_example =
    read_frame-append digests "3.3" [] query_bytes (1 ∷ 2 ∷ []) query query-parsed

frame_bytes-parse_frame_example :
    IsFramable "3.3" query × (frame_bytes digests 1 10 (123 ∷ 125 ∷ []) "3.3" [] ≡ ok query_bytes)
frame_bytes-parse_frame_example =
    frame_bytes-parse_frame digests "3.3" [] query_bytes query (ground arith) query-parsed

-- A reader of one text, with the keys 20 and 300.
abbrev reading : Value → Reading
reading v = record {
  loads = λ bytes. some v;
  int10 =
      λ s. if str_eq s "20" then some (pos 20) else if str_eq s "300" then some (pos 300) else none;
}

abbrev dps_text : String → Value
dps_text key = obj (field "dps" (obj (field key (bool true) end)) end)

dps-parsed : parse_dps (reading (dps_text "20")) [] ≡ ok ((20, bool true) ∷ [])
unfolding parse_dps dps_of_value indexed_dps dp_index bounded_int
dps-parsed = refl

parse_dps-IsIndexed_example : All IsIndexed ((20, bool true) ∷ [])
parse_dps-IsIndexed_example = parse_dps-IsIndexed (reading (dps_text "20")) [] dps-parsed

-- The values of a `turn_on` with orange at level 100.
abbrev on_values : Dps
on_values =
    (20, bool true) ∷ (24, str (encode_color colorsys mapping orange)) ∷ (22, int (pos 398)) ∷ []

on_values-sent : turn_on_values colorsys mapping (some orange) (some (pos 100)) none ≡ ok on_values
unfolding turn_on_values brightness_to_dp bounded_int scale_to
on_values-sent = refl

mapping-IsValid : IsValid mapping
mapping-IsValid = record {
  power_dp = record { positive = omega arith; byte = omega arith };
  brightness_dp = record { positive = omega arith; byte = omega arith };
  color_dp = record { positive = omega arith; byte = omega arith };
  power_ne_brightness = omega arith;
  power_ne_color = omega arith;
  brightness_ne_color = omega arith;
  range = record { ordered = omega arith; short = omega arith };
  white_channel = tt;
}

orange-IsValid : Rgb.IsValid orange
orange-IsValid = record { r_le = omega arith; g_le = omega arith; b_le = omega arith }

state_from_dps-turn_on_values_example :
    state_from_dps colorsys "lamp0001" on_values mapping none
    ≡ ok (record {
      device_id = "lamp0001";
      available = true;
      on = true;
      rgb = some orange;
      brightness = some 100;
      observed_at = none;
      white = none;
      state_revision = 0;
    })
state_from_dps-turn_on_values_example =
    state_from_dps-turn_on_values colorsys mapping "lamp0001" none orange 100 on_values refl
      mapping-IsValid refl (omega arith) refl orange-IsValid (omega arith) on_values-sent
      (λ i x h. h)

abbrev lan : String → Option Address
lan ip =
    some (record { version = 4; is_loopback = false; is_private = true; is_link_local = false })

abbrev device : TuyaDeviceConfig
device = record {
  ip = "10.0.0.7";
  device_id = "lamp0001";
  local_key = "0123456789abcdef";
  protocol_version = "3.3";
  dps = some mapping;
  public_name = "LED lamp";
  port = pos 6668;
  timeout_s = finite (pos 3) 0;
  retries = pos 1;
}

new_device-IsUsable_example : IsUsable lan device
new_device-IsUsable_example = new_device-IsUsable lan device device (
    unfold new_device check_key check_name check_link is_bad_timeout is_short_text bounded_int in
    refl)

abbrev options : TuyaDiscoveryOptions
options = record {
  enabled = true;
  broadcast_address = "255.255.255.255";
  ports = pos 6666 ∷ pos 6667 ∷ [];
}
