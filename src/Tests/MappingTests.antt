-- ===== src/Tests/MappingTests.antt =====
-- The theorems on TuyaDpMapping, applied to samples.
use linker.Prelude.{ℕ, some, ◌≡◌, refl, pos, arith, nat_Eq}
use linker.Python.Exc.{ok}
use linker.Python.Text.{int16}
use linker.Python.Value.{int, str}
use linker.Models.Rgb
use linker.Models.Rgb.{Rgb}
use linker.Tuya.Mapping.{
  TuyaDpMapping, MappingArgs, bounded_int, scale_to, scale_from, numeric, checked_level,
  level_from_dp, brightness_to_dp, brightness_from_dp,
}
use linker.Tuya.Mapping.Levels.{
  IsValid, brightness_from_dp-brightness_to_dp, brightness_to_dp-brightness_from_dp,
}
use linker.Tuya.Mapping.Color.{encode_color, decode_color, decode_rgb_hex, parse_hex}
use linker.Tuya.Mapping.Color.RoundTrip.{decode_color-encode_color}
use linker.Python.Round.{round_div}
use linker.Tests.Samples.{mapping, colorsys, orange}

-- A lamp with a white channel whose levels have 101 steps.
abbrev args : MappingArgs
args = record {
  power = pos 1;
  brightness = pos 2;
  color = pos 3;
  color_format = "rgb_hex";
  brightness_min = pos 0;
  brightness_max = pos 100;
  white = some (pos 4);
  white_min = some (pos 0);
  white_max = some (pos 100);
}

abbrev white_mapping : TuyaDpMapping
white_mapping = record {
  power = 1;
  brightness = 2;
  color = 3;
  color_format = "rgb_hex";
  brightness_min = 0;
  brightness_max = 100;
  white = some (record { dp = 4; low = 0; high = 100 });
}

white_mapping-IsValid : IsValid white_mapping
white_mapping-IsValid = record {
  power_dp = record { positive = omega arith; byte = omega arith };
  brightness_dp = record { positive = omega arith; byte = omega arith };
  color_dp = record { positive = omega arith; byte = omega arith };
  power_ne_brightness = omega arith;
  power_ne_color = omega arith;
  brightness_ne_color = omega arith;
  range = record { ordered = omega arith; short = omega arith };
  white_channel = (
    record { positive = omega arith; byte = omega arith },
    record { ordered = omega arith; short = omega arith },
    omega arith,
    omega arith,
    omega arith,
  );
}

sent : brightness_to_dp mapping (pos 100) ≡ ok 398
unfolding brightness_to_dp bounded_int scale_to
sent = refl

read : brightness_from_dp white_mapping (int (pos 50)) ≡ ok 128
unfolding brightness_from_dp level_from_dp numeric checked_level scale_from round_div
read = refl

brightness_from_dp-brightness_to_dp_example :
    (v : ℕ) × (pos 100 ≡ pos v) × (brightness_from_dp mapping (int (pos 398)) ≡ ok v)
brightness_from_dp-brightness_to_dp_example =
    brightness_from_dp-brightness_to_dp mapping (pos 100) (omega arith) sent

brightness_to_dp-brightness_from_dp_example : brightness_to_dp white_mapping (pos 128) ≡ ok 50
brightness_to_dp-brightness_from_dp_example =
    brightness_to_dp-brightness_from_dp white_mapping 50 white_mapping-IsValid (omega arith) read

orange-IsValid : Rgb.IsValid orange
orange-IsValid = record { r_le = omega arith; g_le = omega arith; b_le = omega arith }

decode_color-encode_color_example :
    decode_color colorsys mapping (str (encode_color colorsys mapping orange)) ≡ ok orange
decode_color-encode_color_example =
    decode_color-encode_color colorsys mapping orange refl orange-IsValid

red : decode_color colorsys mapping (str "ff0000") ≡ ok (record { r = 255; g = 0; b = 0 })
unfolding decode_color decode_rgb_hex parse_hex int16 Rgb.new
red = refl
