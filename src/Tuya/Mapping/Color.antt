-- ===== src/Tuya/Mapping/Color.antt =====
-- tuya.py: `encode_color` and `decode_color` of TuyaDpMapping.
pub mod RoundTrip
use linker.Prelude.{
  ℕ, zero, suc, ◌+◌, ◌≤◌, ◌<◌, ◌≡◌, refl, sym, ap, ◌∙◌, String, Bool, true, false, ◌&&◌, ◌||◌,
  Option, none, some, List, [], ◌∷◌, ◌++◌, ℤ, pos, negsuc, arith, nat_eq, nat_eq_iff, str_eq,
  eq_iff, length, take, drop, take-append, drop-append, length-append, if◌then◌else◌,
}
use linker.Python.Exc.{
  Result, ok, err, is_value_error, value_error, protocol_error, guard, reraise, ◌>>=◌, ◌>>◌,
}
use linker.Python.Text.{codes, codes-concat, concat, int16, format_hex}
use linker.Python.Value.{Value, int, str}
use linker.Models.Rgb
use linker.Models.Rgb.{Rgb}
use linker.Tuya.Mapping.{TuyaDpMapping}

-- The floating-point conversions of `colorsys`, with the scaling and the rounding of their lines: an RGB
-- colour to (round(hue * 360), round(saturation * 1000), round(value * 1000)), and such a triple of integers
-- to (round(red * 255), round(green * 255), round(blue * 255)). No law of them is used.
pub record Colorsys : Type 0 where
  pub to_hsv : Rgb → ℕ × ℕ × ℕ
  pub to_rgb : ℤ → ℤ → ℤ → ℤ × ℤ × ℤ

-- `int(text, 16)`
unfoldable pub parse_hex : List ℕ → Result ℤ
parse_hex cs = elim (int16 cs) [
  | none ↦ err (value_error "invalid literal for int() with base 16")
  | some z ↦ ok z
]

-- `value[i : i + n]`
abbrev pub slice_at : ℕ → ℕ → List ℕ → List ℕ
slice_at i n cs = take n (drop i cs)

unfoldable pub decode_rgb_hex : List ℕ → Result Rgb
decode_rgb_hex cs = do
  guard (nat_eq (length cs) 6 || nat_eq (length cs) 8)
      (protocol_error "rgb_hex color DP must contain 6 or 8 hex digits")
  reraise is_value_error (protocol_error "rgb_hex color DP contains invalid hex") (do
    r ← parse_hex (slice_at 0 2 cs)
    g ← parse_hex (slice_at 2 2 cs)
    b ← parse_hex (slice_at 4 2 cs)
    Rgb.new (int r) (int g) (int b))

-- The components are read under `try`.
unfoldable pub hsv_components : List ℕ → Result (ℤ × ℤ × ℤ)
hsv_components cs =
    reraise is_value_error (protocol_error "hsv_hex color DP contains invalid hex") (do
      h ← parse_hex (slice_at 0 4 cs)
      s ← parse_hex (slice_at 4 4 cs)
      v ← parse_hex (slice_at 8 4 cs)
      ok (h, s, v))

-- The colour is built outside of `try`.
abbrev pub from_hsv : Colorsys → ℤ × ℤ × ℤ → Result Rgb
from_hsv colorsys (h, s, v) =
    let (r, g, b) = colorsys.to_rgb h s v in Rgb.new (int r) (int g) (int b)

module _ (colorsys : Colorsys) where
  unfoldable pub encode_color : TuyaDpMapping → Rgb → String
  encode_color m c =
      if str_eq m.color_format "rgb_hex"
      then concat (format_hex 2 c.r) (concat (format_hex 2 c.g) (format_hex 2 c.b))
      else let (h, s, v) = colorsys.to_hsv c in
        concat (format_hex 4 h) (concat (format_hex 4 s) (format_hex 4 v))

  unfoldable pub decode_hsv_hex : List ℕ → Result Rgb
  decode_hsv_hex cs = do
    guard (nat_eq (length cs) 12) (protocol_error "hsv_hex color DP must contain 12 hex digits")
    components ← hsv_components cs
    from_hsv colorsys components

  unfoldable pub decode_color : TuyaDpMapping → Value → Result Rgb
  decode_color m (str s) =
      if str_eq m.color_format "rgb_hex" then decode_rgb_hex (codes s) else decode_hsv_hex (codes s)
  decode_color m v = err (protocol_error "color DP must be a hexadecimal string")
