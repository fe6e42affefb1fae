-- ===== src/Models/Light.antt =====
-- models.py: class LightState.
use linker.Prelude.{
  ℕ, String, Bool, true, Option, none, some, List, [], ◌∷◌, pos, leb, str_eq, if◌then◌else◌,
}
use linker.Python.Exc.{Result, ok, err, value_error, raise_if, guard, ◌>>◌}
use linker.Python.Value.{Value, bool, int, str}
use linker.Models.Rgb
use linker.Models.Rgb.{Rgb}

-- `observed_at` is a point in time, which the program only passes on.
pub record LightState : Type 0 where
  pub device_id : String
  pub available : Bool
  pub on : Bool
  pub rgb : Option Rgb
  pub brightness : Option ℕ
  pub observed_at : Option ℕ
  pub white : Option ℕ
  pub state_revision : ℕ

-- None, or from 0 to 255
abbrev pub is_level : Option ℕ → Bool
is_level none = true
is_level (some n) = leb n 255

-- The checks of `__post_init__`; the revision is a natural number by its type.
unfoldable pub new : LightState → Result LightState
new s = do
  raise_if (str_eq s.device_id "") (value_error "device_id is required")
  guard (is_level s.brightness) (value_error "brightness must be an integer from 0 to 255")
  guard (is_level s.white) (value_error "white must be an integer from 0 to 255")
  ok s

-- `light_id or self.device_id`
abbrev pub or_text : Option String → String → String
or_text none other = other
or_text (some s) other = if str_eq s "" then other else s

abbrev payload_of :
    LightState → Option String → Option ℕ → Option Rgb → Result (List (String × Value))
payload_of s light_id (some brightness) (some rgb) = ok (
    ("light_id", str (or_text light_id s.device_id))
    ∷ ("power", bool s.on)
    ∷ ("brightness", int (pos brightness))
    ∷ ("rgb_color", Rgb.to_payload rgb)
    ∷ ("state_revision", int (pos s.state_revision))
    ∷ [])
payload_of s light_id _ _ = err (value_error "reported Light state requires brightness and rgb")

unfoldable pub to_payload : LightState → Option String → Result (List (String × Value))
to_payload s light_id = payload_of s light_id s.brightness s.rgb
