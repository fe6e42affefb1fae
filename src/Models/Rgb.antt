-- ===== src/Models/Rgb.antt =====
-- models.py: class Rgb.
use linker.Prelude.{
  ℕ, ◌≤◌, String, ◌≡◌, Option, none, some, [], ◌∷◌, pos, arith, leb, string_Eq, if◌then◌else◌,
}
use linker.Python.Exc.{Result, ok, err, value_error, ◌>>=◌}
use linker.Python.Dict.{get}
use linker.Python.Value.{Value, int, obj, to_dict, of_dict}

pub record Rgb : Type 0 where
  pub r : ℕ
  pub g : ℕ
  pub b : ℕ

-- `type(value) is int and 0 <= value <= 255`
unfoldable pub channel : Value → Option ℕ
channel (int (pos n)) = if leb n 255 then some n else none
channel v = none

abbrev channel_error : String
channel_error = "RGB channels must be integers from 0 to 255"

of_channels : Option ℕ → Option ℕ → Option ℕ → Result Rgb
of_channels (some r) (some g) (some b) = ok (record { r = r; g = g; b = b })
of_channels _ _ _ = err (value_error channel_error)

-- `Rgb(r, g, b)`
unfoldable pub new : Value → Value → Value → Result Rgb
unfolding of_channels channel
new r g b = of_channels (channel r) (channel g) (channel b)

abbrev missing : Option Value → Result Value
missing none = err (value_error "rgb requires r, g, and b")
missing (some v) = ok v

-- `Rgb.from_payload`; `d` is `payload.get("rgb_color")`, which is None when the key is absent.
unfoldable pub from_payload : Option Value → Result Rgb
unfolding new
from_payload (some (obj fs)) = do
  r ← missing (get (to_dict fs) "r")
  g ← missing (get (to_dict fs) "g")
  b ← missing (get (to_dict fs) "b")
  new r g b
from_payload v = err (value_error "rgb must be an object")

unfoldable pub to_payload : Rgb → Value
to_payload c =
    obj (of_dict (("r", int (pos c.r)) ∷ ("g", int (pos c.g)) ∷ ("b", int (pos c.b)) ∷ []))

-- Every channel is at most 255.
pub record IsValid (c : Rgb) : Type 0 where
  pub r_le : c.r ≤ 255
  pub g_le : c.g ≤ 255
  pub b_le : c.b ≤ 255

channel_bound : (v : Value) {n : ℕ} → channel v ≡ some n → n ≤ 255
unfolding channel
channel_bound (int (pos m)) h = ground arith
channel_bound v h = ground arith

pub new-IsValid : (r g b : Value) {c : Rgb} → new r g b ≡ ok c → IsValid c
unfolding of_channels new
new-IsValid r g b h = ground (arith, channel_bound r, channel_bound g, channel_bound b)

-- What `Rgb.to_payload` writes of a colour whose channels are at most 255, `Rgb.from_payload` reads back.
pub from_payload-to_payload : (c : Rgb) → IsValid c → from_payload (some (to_payload c)) ≡ ok c
unfolding from_payload to_payload
from_payload-to_payload c h = ground (arith, h)
