-- ===== src/Tuya/Mapping/Levels.antt =====
-- Brightness and white levels: what a validated mapping guarantees, and how the two scalings of
-- TuyaDpMapping invert one another.
use linker.Prelude.{
  ℕ, ◌+◌, ◌-◌, ◌*◌, ◌/◌, ◌≤◌, ◌<◌, ◌≡◌, ◌≢◌, String, Option, none, some, ℤ, pos, negsuc, arith, sym,
  ap, ◌∙◌,
}
use linker.Python.Exc.{Result, ok, err, configuration_error, ◌>>=◌, >>=-eq-ok}
use linker.Python.Value.{Value, int}
use linker.Python.Round.{lt_of_mul-lt, round_div_near, round_div_unique}
use linker.Tuya.Mapping.{
  White, TuyaDpMapping, MappingArgs, bounded_int, white_range, white_channel, new, scale_to,
  scale_from, brightness_to_dp, brightness_from_dp, white_from_dp, level_from_dp, numeric,
  checked_level, or_raise,
}

-- A range of the device: ordered and of 16 bits.
pub record IsRange (low high : ℕ) : Type 0 where
  pub ordered : low < high
  pub short : high ≤ 65535

pub record IsDp (n : ℕ) : Type 0 where
  pub positive : 1 ≤ n
  pub byte : n ≤ 255

abbrev pub IsWhite : ℕ → ℕ → ℕ → Option White → Type 0
IsWhite p b c none = Unit {0}
IsWhite p b c (some w) = IsDp w.dp × IsRange w.low w.high × (w.dp ≢ p) × (w.dp ≢ b) × (w.dp ≢ c)

-- What `__post_init__` establishes.
pub record IsValid (m : TuyaDpMapping) : Type 0 where
  pub power_dp : IsDp m.power
  pub brightness_dp : IsDp m.brightness
  pub color_dp : IsDp m.color
  pub power_ne_brightness : m.power ≢ m.brightness
  pub power_ne_color : m.power ≢ m.color
  pub brightness_ne_color : m.brightness ≢ m.color
  pub range : IsRange m.brightness_min m.brightness_max
  pub white_channel : IsWhite m.power m.brightness m.color m.white

mul_le : (v w s : ℕ) → v ≤ w → v * s ≤ w * s
mul_le v w s h = grind arith

module _ (low high : ℕ) where
  -- The scaled level lies in the device's range.
  pub scale_to_bounds :
      (v : ℕ) → v ≤ 255 → low < high → (low ≤ scale_to low high v) × (scale_to low high v ≤ high)
  unfolding scale_to
  scale_to_bounds v h r = omega (arith, mul_le v 255 (high - low) h)

  pub scale_to_mono : (v w : ℕ) → v ≤ w → scale_to low high v ≤ scale_to low high w
  unfolding scale_to
  scale_to_mono v w h = omega (arith, mul_le v w (high - low) h)

  pub scale_from_bounds : (n : ℕ) → n ≤ high → low < high → scale_from low high n ≤ 255
  unfolding scale_from
  scale_from_bounds n b r =
      lt_of_mul-lt (high - low) (scale_from low high n) 255
        (omega (arith, round_div_near ((n - low) * 255) (high - low) (omega arith)))

  -- With at least 255 steps in the range, no level is lost.
  pub scale_from-scale_to :
      (v : ℕ) → low + 255 ≤ high → scale_from low high (scale_to low high v) ≡ v
  unfolding scale_to scale_from
  scale_from-scale_to v wide =
      round_div_unique ((low + (v * (high - low) + 127) / 255 - low) * 255) (high - low) v
        (omega arith) (omega arith)

  -- With at most 255 steps in the range, no device value is lost.
  pub scale_to-scale_from :
      (n : ℕ)
      → low ≤ n
      → n ≤ high
      → low < high
      → high ≤ low + 255
      → scale_to low high (scale_from low high n) ≡ n
  unfolding scale_to scale_from
  scale_to-scale_from n a b r narrow =
      omega (arith, round_div_near ((n - low) * 255) (high - low) (omega arith))

-- An accepted integer is the number itself, in the range.
bounded_int-range :
    (name bounds : String) (z : ℤ) (low high : ℕ) {n : ℕ}
    → bounded_int name bounds z low high ≡ ok n
    → (z ≡ pos n) × (low ≤ n) × (n ≤ high)
unfolding bounded_int
bounded_int-range name bounds (pos k) low high h = ground arith
bounded_int-range name bounds (negsuc k) low high h = cc

bounded_int-accepts :
    (name bounds : String) (n low high : ℕ)
    → low ≤ n
    → n ≤ high
    → bounded_int name bounds (pos n) low high ≡ ok n
unfolding bounded_int
bounded_int-accepts name bounds n low high a b = ground arith

white_range-IsRange :
    (dp : ℕ) (low high : Option ℤ) {w : White}
    → white_range dp low high ≡ ok (some w)
    → (w.dp ≡ dp) × IsRange w.low w.high
unfolding white_range
white_range-IsRange dp none high h = cc
white_range-IsRange dp (some low) none h = cc
white_range-IsRange dp (some low) (some high) {w} h =
    let (l, el, h₁) = >>=-eq-ok (bounded_int "white_min" "0 to 65535" low 0 65535) _ h in
    let (u, eu, h₂) = >>=-eq-ok (bounded_int "white_max" "0 to 65535" high 0 65535) _ h₁ in
    ground (arith, bounded_int-range "white_max" "0 to 65535" high 0 65535 eu)

-- An integer that lies in the range is read back by the inverse scaling.
level_from_dp-in_range :
    (name : String) (low high n : ℕ)
    → low ≤ n
    → n ≤ high
    → level_from_dp name low high (int (pos n)) ≡ ok (scale_from low high n)
unfolding level_from_dp numeric checked_level
level_from_dp-in_range name low high n a b = ground arith

checked_level_bounds :
    (name : String) (low high : ℕ) (z : ℤ) {n : ℕ}
    → low < high
    → checked_level name low high z ≡ ok n
    → n ≤ 255
unfolding checked_level
checked_level_bounds name low high (pos k) r h = ground (arith, scale_from_bounds low high k)
checked_level_bounds name low high (negsuc k) r h = cc

level_from_dp_bounds :
    (name : String) (low high : ℕ) (v : Value) {n : ℕ}
    → low < high
    → level_from_dp name low high v ≡ ok n
    → n ≤ 255
unfolding level_from_dp
level_from_dp_bounds name low high v r h =
    let (z, e, inside) = >>=-eq-ok (numeric name v) (checked_level name low high) h in
    checked_level_bounds name low high z r inside

white_channel-IsWhite :
    (p b c : ℕ) (white low high : Option ℤ) (o : Option White)
    → white_channel p b c white low high ≡ ok o
    → IsWhite p b c o
unfolding white_channel
white_channel-IsWhite p b c white low high none h = tt
white_channel-IsWhite p b c none none none (some v) h = cc
white_channel-IsWhite p b c none (some l) high (some v) h = cc
white_channel-IsWhite p b c none none (some u) (some v) h = cc
white_channel-IsWhite p b c (some w) low high (some v) h =
    let (dp, e, h₁) = >>=-eq-ok (bounded_int "DP white" "1 to 255" w 1 255) _ h in
    ground (
      arith,
      bounded_int-range "DP white" "1 to 255" w 1 255 e,
      white_range-IsRange dp low high {w = v},
    )

-- A `TuyaDpMapping` that is constructed has distinct DPs from 1 to 255, ranges that are not empty with
-- ends of at most 65535, and a white DP that is distinct from the others.
pub new-IsValid : (a : MappingArgs) (m : TuyaDpMapping) → new a ≡ ok m → IsValid m
unfolding new
new-IsValid a m h = ground (
  arith,
  bounded_int-range "DP power" "1 to 255" a.power 1 255 {n = m.power},
  bounded_int-range "DP brightness" "1 to 255" a.brightness 1 255 {n = m.brightness},
  bounded_int-range "DP color" "1 to 255" a.color 1 255 {n = m.color},
  bounded_int-range "brightness_min" "0 to 65535" a.brightness_min 0 65535 {n = m.brightness_min},
  bounded_int-range "brightness_max" "0 to 65535" a.brightness_max 0 65535 {n = m.brightness_max},
  white_channel-IsWhite m.power m.brightness m.color a.white a.white_min a.white_max m.white,
)

-- Sending a level, as `brightness_to_dp` and `white_to_dp` do.
abbrev send_level : String → ℕ → ℕ → ℤ → Result ℕ
send_level name low high z = bounded_int name "0 to 255" z 0 255 >>= λ v. ok (scale_to low high v)

send_level-range :
    (name : String) (low high : ℕ) (z : ℤ) {t : ℕ}
    → low < high
    → send_level name low high z ≡ ok t
    → (v : ℕ) × (z ≡ pos v) × (scale_to low high v ≡ t) × (low ≤ t) × (t ≤ high)
send_level-range name low high z r h =
    let (v, e, sent) = >>=-eq-ok (bounded_int name "0 to 255" z 0 255) _ h in
    let (is_v, _, small) = bounded_int-range name "0 to 255" z 0 255 e in
    let (lower, upper) = scale_to_bounds low high v small r in
    (v, is_v, ground arith, ground arith, ground arith)

level_round_trip :
    (name : String) (low high : ℕ) (z : ℤ) {t : ℕ}
    → low + 255 ≤ high
    → send_level name low high z ≡ ok t
    → (v : ℕ) × (z ≡ pos v) × (level_from_dp name low high (int (pos t)) ≡ ok v)
level_round_trip name low high z {t} wide h =
    let (v, is_v, same, lower, upper) = send_level-range name low high z (omega arith) h in
    (
      v,
      is_v,
      level_from_dp-in_range name low high t lower upper
          ∙ ap ok (ap (scale_from low high) (sym same) ∙ scale_from-scale_to low high v wide),
    )

-- For a valid mapping `brightness_to_dp` accepts every level from 0 to 255, and what it sends lies in the
-- range of the device.
pub brightness_to_dp-accepts :
    (m : TuyaDpMapping) (v : ℕ)
    → IsValid m
    → v ≤ 255
    → (t : ℕ) × (brightness_to_dp m (pos v) ≡ ok t)
      × (m.brightness_min ≤ t)
      × (t ≤ m.brightness_max)
unfolding brightness_to_dp
brightness_to_dp-accepts m v k small =
    let (lower, upper) =
      scale_to_bounds m.brightness_min m.brightness_max v small k.range.ordered in
    (
      scale_to m.brightness_min m.brightness_max v,
      rw (bounded_int-accepts "brightness" "0 to 255" v 0 255 (omega arith) small),
      lower,
      upper,
    )

-- An integer for which `brightness_to_dp` sends a value is a level from 0 to 255.
pub brightness_to_dp-refuses :
    (m : TuyaDpMapping) (z : ℤ) {t : ℕ}
    → brightness_to_dp m z ≡ ok t
    → (v : ℕ) × (z ≡ pos v) × (v ≤ 255)
unfolding brightness_to_dp
brightness_to_dp-refuses m z h =
    let (v, e, sent) = >>=-eq-ok (bounded_int "brightness" "0 to 255" z 0 255) _ h in
    let (is_v, _, small) = bounded_int-range "brightness" "0 to 255" z 0 255 e in (v, is_v, small)

-- For a valid mapping, a brightness that is read from any DP value is at most 255.
pub brightness_from_dp_bounds :
    (m : TuyaDpMapping) (v : Value) {n : ℕ} → IsValid m → brightness_from_dp m v ≡ ok n → n ≤ 255
unfolding brightness_from_dp
brightness_from_dp_bounds m v k h =
    level_from_dp_bounds "brightness" m.brightness_min m.brightness_max v k.range.ordered h

-- For a valid mapping, a white level that is read from any DP value is at most 255.
pub white_from_dp_bounds :
    (m : TuyaDpMapping) (v : Value) {n : ℕ} → IsValid m → white_from_dp m v ≡ ok n → n ≤ 255
unfolding white_from_dp
white_from_dp_bounds m v k h = go m.white k.white_channel h
  where
    go :
        (o : Option White) {n : ℕ}
        → IsWhite m.power m.brightness m.color o
        → (or_raise o (err (configuration_error "white DP is not configured")) >>= λ w.
            level_from_dp "white" w.low w.high v)
          ≡ ok n
        → n ≤ 255
    go none valid e = cc
    go (some w) valid e = level_from_dp_bounds "white" w.low w.high v valid.1.ordered e

-- If the range of the device has 255 steps or more, reading back the value that was sent for a brightness
-- gives that brightness.
pub brightness_from_dp-brightness_to_dp :
    (m : TuyaDpMapping) (z : ℤ) {t : ℕ}
    → m.brightness_min + 255 ≤ m.brightness_max
    → brightness_to_dp m z ≡ ok t
    → (v : ℕ) × (z ≡ pos v) × (brightness_from_dp m (int (pos t)) ≡ ok v)
unfolding brightness_to_dp brightness_from_dp
brightness_from_dp-brightness_to_dp m z wide h =
    level_round_trip "brightness" m.brightness_min m.brightness_max z wide h

-- For a valid mapping whose range has 255 steps or fewer, sending a brightness that was read gives the
-- device's value.
pub brightness_to_dp-brightness_from_dp :
    (m : TuyaDpMapping) (n : ℕ) {v : ℕ}
    → IsValid m
    → m.brightness_max ≤ m.brightness_min + 255
    → brightness_from_dp m (int (pos n)) ≡ ok v
    → brightness_to_dp m (pos v) ≡ ok n
unfolding brightness_to_dp brightness_from_dp level_from_dp numeric checked_level
brightness_to_dp-brightness_from_dp m n {v} k narrow h =
    let small : v ≤ 255 = brightness_from_dp_bounds m (int (pos n)) k h in
    rw (bounded_int-accepts "brightness" "0 to 255" v 0 255 (omega arith) small)
      (ground (arith, scale_to-scale_from m.brightness_min m.brightness_max n))
