-- ===== src/Tuya/Control.antt =====
-- tuya.py: the values that `turn_on`, `turn_off`, `set_brightness`, `set_rgb` and `set_white` send.
pub mod ReadBack
use linker.Prelude.{ℕ, Bool, true, false, Option, none, some, List, [], ◌∷◌, ℤ, pos, nat_Eq}
use linker.Python.Exc.{Result, ok, err, ◌>>=◌, ◌>>◌}
use linker.Python.Dict.{put}
use linker.Python.Value.{Value, bool, int, str}
use linker.Models.Rgb.{Rgb}
use linker.Tuya.Mapping.{TuyaDpMapping, White, brightness_to_dp, white_to_dp, white_config}
use linker.Tuya.Mapping.Color.{Colorsys, encode_color}
use linker.Tuya.Dps.{Dps}

-- `values[index] = level`, of a level that is computed first.
abbrev pub put_level : Dps → ℕ → ℕ → Dps
put_level values index level = put values index (int (pos level))

abbrev pub with_brightness : TuyaDpMapping → Option ℤ → Dps → Result Dps
with_brightness m none values = ok values
with_brightness m (some brightness) values = do
  level ← brightness_to_dp m brightness
  ok (put_level values m.brightness level)

abbrev pub with_white : TuyaDpMapping → Option ℤ → Dps → Result Dps
with_white m none values = ok values
with_white m (some white) values = do
  level ← white_to_dp m white
  w ← white_config m
  ok (put_level values w.dp level)

module _ (colorsys : Colorsys) where
  abbrev pub with_color : TuyaDpMapping → Option Rgb → Dps → Dps
  with_color m none values = values
  with_color m (some rgb) values = put values m.color (str (encode_color colorsys m rgb))

  unfoldable pub turn_on_values : TuyaDpMapping → Option Rgb → Option ℤ → Option ℤ → Result Dps
  turn_on_values m rgb brightness white = do
    values ← with_brightness m brightness (with_color m rgb ((m.power, bool true) ∷ []))
    with_white m white values

  unfoldable pub set_rgb_values : TuyaDpMapping → Rgb → Dps
  set_rgb_values m rgb = with_color m (some rgb) []

unfoldable pub turn_off_values : TuyaDpMapping → Dps
turn_off_values m = (m.power, bool false) ∷ []

unfoldable pub set_brightness_values : TuyaDpMapping → ℤ → Result Dps
set_brightness_values m brightness = with_brightness m (some brightness) []

unfoldable pub set_white_values : TuyaDpMapping → ℤ → Result Dps
set_white_values m white = with_white m (some white) []
