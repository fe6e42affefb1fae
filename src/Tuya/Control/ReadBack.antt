-- ===== src/Tuya/Control/ReadBack.antt =====
-- The light's state after the values of a command have reached the device.
use linker.Prelude.{
  ℕ, ◌+◌, ◌≤◌, String, Bool, true, false, Option, none, some, ◌≡◌, ◌≢◌, sym, subst, ap, ◌∙◌, [],
  ◌∷◌, ℤ, pos, nat_Eq, nat_eq_iff, le→leb, str_eq, string_Eq, arith,
}
use linker.Python.Exc.{ok, ok-injective}
use linker.Python.Dict.{get, put, get-put, get-put_self}
use linker.Python.Value.{Value, bool, int, str}
use linker.Models.Rgb
use linker.Models.Rgb.{Rgb}
use linker.Models.Light
use linker.Models.Light.{LightState}
use linker.Tuya.Mapping.{TuyaDpMapping, brightness_to_dp, brightness_from_dp}
use linker.Tuya.Mapping.Levels.{
  IsValid, brightness_to_dp-accepts, brightness_from_dp-brightness_to_dp,
}
use linker.Tuya.Mapping.Color.{Colorsys, encode_color}
use linker.Tuya.Mapping.Color.RoundTrip.{decode_color-encode_color}
use linker.Tuya.Dps.{Dps, white_of, state_from_dps}
use linker.Tuya.Control.{turn_on_values}

get-put_other : (d : Dps) (k j : ℕ) (v : Value) → k ≢ j → get (put d k v) j ≡ get d j
get-put_other d k j v ne = ground (arith, get-put d k j v, nat_eq_iff k j)

pos-injective : {a b : ℕ} → pos a ≡ pos b → a ≡ b
pos-injective h = cc

brightness-back :
    (m : TuyaDpMapping) (v t : ℕ)
    → m.brightness_min + 255 ≤ m.brightness_max
    → brightness_to_dp m (pos v) ≡ ok t
    → brightness_from_dp m (int (pos t)) ≡ ok v
brightness-back m v t wide sent =
    let (u, same, back) = brightness_from_dp-brightness_to_dp m (pos v) wide sent in
    back ∙ ap ok (sym (pos-injective same))

module _ (colorsys : Colorsys) (m : TuyaDpMapping) where
  state_from_dps-reported :
      (device_id : String) (observed_at : Option ℕ) (dps : Dps) (b : Bool) (c : Rgb) (v t : ℕ)
      → str_eq device_id "" ≡ false
      → m.color_format ≡ "rgb_hex"
      → Rgb.IsValid c
      → m.brightness_min + 255 ≤ m.brightness_max
      → v ≤ 255
      → brightness_to_dp m (pos v) ≡ ok t
      → get dps m.power ≡ some (bool b)
      → get dps m.brightness ≡ some (int (pos t))
      → get dps m.color ≡ some (str (encode_color colorsys m c))
      → m.white ≡ none
      → state_from_dps colorsys device_id dps m observed_at
        ≡ ok (record {
          device_id = device_id;
          available = true;
          on = b;
          rgb = some c;
          brightness = some v;
          observed_at = observed_at;
          white = none;
          state_revision = 0;
        })
  unfolding state_from_dps Light.new white_of
  state_from_dps-reported device_id observed_at dps b c v t some_id is_rgb valid wide small sent
        power brightness color white =
      rw (
        power,
        brightness,
        color,
        decode_color-encode_color colorsys m c is_rgb valid,
        brightness-back m v t wide sent,
        white,
        some_id,
        le→leb v 255 small,
      )

  turn_on_values-get :
      (c : Rgb) (z : ℤ) {t : ℕ} {values : Dps}
      → IsValid m
      → brightness_to_dp m z ≡ ok t
      → turn_on_values colorsys m (some c) (some z) none ≡ ok values
      → (get values m.power ≡ some (bool true))
        × (get values m.color ≡ some (str (encode_color colorsys m c)))
        × (get values m.brightness ≡ some (int (pos t)))
  unfolding turn_on_values
  turn_on_values-get c z {t} k sent h =
      let start : Dps = (m.power, bool true) ∷ [] in
      let color = str (encode_color colorsys m c) in
      let colored = put start m.color color in
      subst
        (λ d.
          (get d m.power ≡ some (bool true))
          × (get d m.color ≡ some color)
          × (get d m.brightness ≡ some (int (pos t))))
        (ok-injective (rw sent at h))
        (
          get-put_other colored m.brightness m.power (int (pos t))
                (λ e. k.power_ne_brightness (sym e))
              ∙ get-put_other start m.color m.power color (λ e. k.power_ne_color (sym e))
              ∙ get-put_self [] m.power (bool true),
          get-put_other colored m.brightness m.color (int (pos t)) k.brightness_ne_color
              ∙ get-put_self start m.color color,
          get-put_self colored m.brightness (int (pos t)),
        )

  -- For a valid mapping with rgb_hex colours, 255 steps of brightness or more and no white channel, a
  -- device id that is not empty, a colour with channels of at most 255 and a brightness of at most 255: a
  -- report that has the values of `turn_on` among its data points is read as that colour and that
  -- brightness, with the light on.
  pub state_from_dps-turn_on_values :
      (device_id : String) (observed_at : Option ℕ) (c : Rgb) (v : ℕ) {values : Dps} (dps : Dps)
      → str_eq device_id "" ≡ false
      → IsValid m
      → m.color_format ≡ "rgb_hex"
      → m.brightness_min + 255 ≤ m.brightness_max
      → m.white ≡ none
      → Rgb.IsValid c
      → v ≤ 255
      → turn_on_values colorsys m (some c) (some (pos v)) none ≡ ok values
      → ((i : ℕ) (x : Value) → get values i ≡ some x → get dps i ≡ some x)
      → state_from_dps colorsys device_id dps m observed_at
        ≡ ok (record {
          device_id = device_id;
          available = true;
          on = true;
          rgb = some c;
          brightness = some v;
          observed_at = observed_at;
          white = none;
          state_revision = 0;
        })
  state_from_dps-turn_on_values device_id observed_at c v dps some_id k is_rgb wide no_white valid
        small sent reported =
      let (t, level, lower, upper) = brightness_to_dp-accepts m v k small in
      let (power, color, brightness) = turn_on_values-get c (pos v) k level sent in
      state_from_dps-reported device_id observed_at dps true c v t some_id is_rgb valid wide small
        level (reported m.power (bool true) power) (reported m.brightness (int (pos t)) brightness)
        (reported m.color (str (encode_color colorsys m c)) color) no_white
