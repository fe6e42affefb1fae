-- ===== src/Tuya/Mapping/Color/RoundTrip.antt =====
-- Colours through `encode_color` and `decode_color`.
use linker.Prelude.{
  ℕ, zero, suc, ◌≤◌, ◌<◌, ◌≡◌, refl, sym, ap, ◌∙◌, Bool, true, false, ◌&&◌, ◌||◌, Option, none,
  some, List, [], ◌++◌, ℤ, pos, negsuc, arith, nat_eq, nat_eq_iff, str_eq, length, take, drop,
  take-append, drop-append, length-append, append-nil, append_assoc, Bool-cases, inl, inr,
}
use linker.Python.Exc.{
  Exc, ok, err, is_protocol_error, reraise-eq-ok, reraise-eq-err, is_value_error, protocol_error,
  guard, ◌>>=◌, >>=-eq-ok,
}
use linker.Python.Text.{codes, codes-concat, concat, int16, format_hex}
use linker.Python.Value.{Value, int, str}
use linker.Models.Rgb
use linker.Models.Rgb.{Rgb, channel}
use linker.Tuya.Mapping.{TuyaDpMapping}
use linker.Tuya.Mapping.Color.{
  Colorsys, parse_hex, slice_at, decode_rgb_hex, encode_color, decode_hsv_hex, hsv_components,
  from_hsv, decode_color,
}

all_below : ℕ → (ℕ → Bool) → Bool
all_below zero p = true
all_below (suc n) p = p n && all_below n p

all_below-true : (n : ℕ) (p : ℕ → Bool) (x : ℕ) → all_below n p ≡ true → x < n → p x ≡ true
unfolding all_below
all_below-true zero p x h lt = absurd (omega arith)
all_below-true (suc n) p x h lt = ground (arith, all_below-true n p x)

abbrev reads_as : Option ℤ → ℕ → Bool
reads_as (some (pos m)) n = nat_eq m n
reads_as (some (negsuc m)) n = false
reads_as none n = false

reads_as→eq : (o : Option ℤ) (n : ℕ) → reads_as o n ≡ true → o ≡ some (pos n)
reads_as→eq none n h = cc
reads_as→eq (some (pos m)) n h = ap (λ k. some (pos k)) ((nat_eq_iff m n).0 h)
reads_as→eq (some (negsuc m)) n h = cc

byte_table :
    all_below 256 (λ n.
      reads_as (int16 (codes (format_hex 2 n))) n && nat_eq (length (codes (format_hex 2 n))) 2)
    ≡ true
unfolding all_below int16 format_hex
byte_table = refl

-- Two hexadecimal digits for a byte, which read back as it.
byte_hex :
    (n : ℕ)
    → n ≤ 255
    → (parse_hex (codes (format_hex 2 n)) ≡ ok (pos n)) × (length (codes (format_hex 2 n)) ≡ 2)
unfolding parse_hex
byte_hex n h =
    let both = all_below-true 256 _ n byte_table (omega arith) in
    let read : int16 (codes (format_hex 2 n)) ≡ some (pos n) =
      reads_as→eq _ n (ground (arith, both)) in
    (rw (read, parse_hex), ground (arith, both))

-- Three texts of two code points each, cut apart by the slices of `decode_color`.
module _ (xs ys zs : List ℕ) (lx : length xs ≡ 2) (ly : length ys ≡ 2) (lz : length zs ≡ 2) where
  length-three : length (xs ++ (ys ++ zs)) ≡ 6
  length-three = omega (arith, length-append xs (ys ++ zs), length-append ys zs)

  first : slice_at 0 2 (xs ++ (ys ++ zs)) ≡ xs
  first = take-append 2 xs (ys ++ zs) lx

  second : slice_at 2 2 (xs ++ (ys ++ zs)) ≡ ys
  second = ap (take 2) (drop-append 2 xs (ys ++ zs) lx) ∙ take-append 2 ys zs ly

  third : slice_at 4 2 (xs ++ (ys ++ zs)) ≡ zs
  third =
      ap (λ l. take 2 (drop 4 l)) (sym (append_assoc xs ys zs))
      ∙ ap (take 2) (drop-append 4 (xs ++ ys) zs (omega (arith, length-append xs ys)))
      ∙ ap (take 2) (sym (append-nil zs))
      ∙ take-append 2 zs [] lz

new-valid :
    (c : Rgb) → Rgb.IsValid c → Rgb.new (int (pos c.r)) (int (pos c.g)) (int (pos c.b)) ≡ ok c
unfolding Rgb.new
new-valid c k = ground (arith, k)

decode_rgb_hex-of_bytes :
    (c : Rgb)
    → Rgb.IsValid c
    → decode_rgb_hex
        (codes (format_hex 2 c.r) ++ (codes (format_hex 2 c.g) ++ codes (format_hex 2 c.b)))
      ≡ ok c
unfolding decode_rgb_hex
decode_rgb_hex-of_bytes c k =
    let (pr, lr) = byte_hex c.r k.r_le in
    let (pg, lg) = byte_hex c.g k.g_le in
    let (pb, lb) = byte_hex c.b k.b_le in
    let xs = codes (format_hex 2 c.r) in
    let ys = codes (format_hex 2 c.g) in
    let zs = codes (format_hex 2 c.b) in
    rw (length-three xs ys zs lr lg lb) (
      rw (first xs ys zs lr lg lb, pr)
        (rw (second xs ys zs lr lg lb, pg) (rw (third xs ys zs lr lg lb, pb) (rw (new-valid c k)))))

-- With the format rgb_hex, a colour whose channels are at most 255 is read back as it was sent.
pub decode_color-encode_color :
    (colorsys : Colorsys) (m : TuyaDpMapping) (c : Rgb)
    → m.color_format ≡ "rgb_hex"
    → Rgb.IsValid c
    → decode_color colorsys m (str (encode_color colorsys m c)) ≡ ok c
unfolding encode_color decode_color
decode_color-encode_color colorsys m c is_rgb k =
    let r = format_hex 2 c.r in
    let g = format_hex 2 c.g in
    let b = format_hex 2 c.b in
    let parts : codes (concat r (concat g b)) ≡ codes r ++ (codes g ++ codes b) =
      codes-concat r (concat g b) ∙ ap (λ l. codes r ++ l) (codes-concat g b) in
    rw (is_rgb) (rw parts (decode_rgb_hex-of_bytes c k))

decode_rgb_hex-IsValid : (cs : List ℕ) {c : Rgb} → decode_rgb_hex cs ≡ ok c → Rgb.IsValid c
unfolding decode_rgb_hex
decode_rgb_hex-IsValid cs h =
    let (_, _, tried) = >>=-eq-ok (guard (nat_eq (length cs) 6 || nat_eq (length cs) 8) _) _ h in
    let (r, _, h₁) =
      >>=-eq-ok (parse_hex (slice_at 0 2 cs)) _ (reraise-eq-ok is_value_error _ _ tried) in
    let (g, _, h₂) = >>=-eq-ok (parse_hex (slice_at 2 2 cs)) _ h₁ in
    let (b, _, h₃) = >>=-eq-ok (parse_hex (slice_at 4 2 cs)) _ h₂ in
    Rgb.new-IsValid (int r) (int g) (int b) h₃

decode_hsv_hex-IsValid :
    (colorsys : Colorsys) (cs : List ℕ) {c : Rgb}
    → decode_hsv_hex colorsys cs ≡ ok c
    → Rgb.IsValid c
unfolding decode_hsv_hex
decode_hsv_hex-IsValid colorsys cs h =
    let (_, _, tried) = >>=-eq-ok (guard (nat_eq (length cs) 12) _) _ h in
    let (t, _, built) = >>=-eq-ok (hsv_components cs) (from_hsv colorsys) tried in
    let (r, g, b) = colorsys.to_rgb t.0 t.1 t.2 in Rgb.new-IsValid (int r) (int g) (int b) built

-- Whatever the DP value and the format are, a colour that is read has channels of at most 255.
pub decode_color-IsValid :
    (colorsys : Colorsys) (m : TuyaDpMapping) (v : Value) {c : Rgb}
    → decode_color colorsys m v ≡ ok c
    → Rgb.IsValid c
unfolding decode_color
decode_color-IsValid colorsys m (str s) h = elim (Bool-cases (str_eq m.color_format "rgb_hex")) [
  | inl rgb ↦ decode_rgb_hex-IsValid (codes s) (rw rgb at h)
  | inr hsv ↦ decode_hsv_hex-IsValid colorsys (codes s) (rw hsv at h)
]
decode_color-IsValid colorsys m v h = cc

parse_hex-errors : (cs : List ℕ) (e : Exc) → parse_hex cs ≡ err e → is_value_error e ≡ true
unfolding parse_hex
parse_hex-errors cs e h = ground arith

new-errors : (r g b : Value) (e : Exc) → Rgb.new r g b ≡ err e → is_value_error e ≡ true
unfolding Rgb.new
new-errors r g b e h = ground arith

channels_errors :
    (a b c : List ℕ) (e : Exc)
    → (do r ← parse_hex a; g ← parse_hex b; b ← parse_hex c; Rgb.new (int r) (int g) (int b))
      ≡ err e
    → is_value_error e ≡ true
channels_errors a b c e h = grind (arith, parse_hex-errors, new-errors)

rgb_hex_errors : (cs : List ℕ) (e : Exc) → decode_rgb_hex cs ≡ err e → is_protocol_error e ≡ true
unfolding decode_rgb_hex
rgb_hex_errors cs e h = elim (Bool-cases (nat_eq (length cs) 6 || nat_eq (length cs) 8)) [
  | inl fits ↦
      rw
        (reraise-eq-err is_value_error (protocol_error "rgb_hex color DP contains invalid hex") _
          (channels_errors (slice_at 0 2 cs) (slice_at 2 2 cs) (slice_at 4 2 cs)) (rw fits at h))
        refl
  | inr short ↦ let short_error = rw short at h in ground arith
]

-- With the format rgb_hex, a DP value that is refused is refused with a TuyaProtocolError.
pub decode_color-rgb_errors :
    (colorsys : Colorsys) (m : TuyaDpMapping) (v : Value) (e : Exc)
    → m.color_format ≡ "rgb_hex"
    → decode_color colorsys m v ≡ err e
    → is_protocol_error e ≡ true
unfolding decode_color
decode_color-rgb_errors colorsys m (str s) e is_rgb h = rgb_hex_errors (codes s) e (rw is_rgb at h)
decode_color-rgb_errors colorsys m v e is_rgb h = ground arith
