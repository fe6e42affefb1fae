-- ===== src/Python/Uuid.antt =====
-- Python's `uuid.UUID`: a number below 2^128, `UUID(text)` and `str(uuid)`.
use linker.Prelude.{
  ℕ, zero, suc, ◌/◌, ◌%◌, ◌^◌, String, Bool, true, false, ◌&&◌, ◌||◌, Option, none, some, List, [],
  ◌∷◌, reverse, ℤ, pos, negsuc, ltb, nat_eq, length, drop, if◌then◌else◌,
}
use linker.Python.Text.{codes, hex_char, int16, show_nat}
use linker.Python.Value.{Value, int, str}

abbrev pub uuid_limit : ℕ
uuid_limit = 2 ^ 128

abbrev pub starts_with : List ℕ → List ℕ → Bool
starts_with [] xs = true
starts_with (p ∷ ps) [] = false
starts_with (p ∷ ps) (x ∷ xs) = nat_eq x p && starts_with ps xs

-- `text.replace(pattern, "")` for a pattern that is not empty; a round drops a character at least, so
-- `length text` rounds are enough.
remove_loop : ℕ → List ℕ → List ℕ → List ℕ
remove_loop zero pattern xs = xs
remove_loop (suc fuel) pattern [] = []
remove_loop (suc fuel) pattern (x ∷ xs) = elim (starts_with pattern (x ∷ xs)) [
  | true ↦ remove_loop fuel pattern (drop (length pattern) (x ∷ xs))
  | false ↦ x ∷ remove_loop fuel pattern xs
]

pub remove_text : List ℕ → List ℕ → List ℕ
unfolding remove_loop
remove_text pattern xs = remove_loop (length xs) pattern xs

is_brace : ℕ → Bool
is_brace c = nat_eq c b'{' || nat_eq c b'}'

strip_left : List ℕ → List ℕ
strip_left [] = []
strip_left (x ∷ xs) = if is_brace x then strip_left xs else x ∷ xs

-- `text.strip("{}")`
strip_braces : List ℕ → List ℕ
strip_braces xs = reverse (strip_left (reverse (strip_left xs)))

remove_dashes : List ℕ → List ℕ
remove_dashes [] = []
remove_dashes (x ∷ xs) = if nat_eq x b'-' then remove_dashes xs else x ∷ remove_dashes xs

abbrev below_limit : Option ℤ → Option ℕ
below_limit (some (pos n)) = if ltb n uuid_limit then some n else none
below_limit (some (negsuc n)) = none
below_limit none = none

-- `UUID(text)`; `none` is ValueError.
unfoldable pub parse_uuid : String → Option ℕ
unfolding remove_text is_brace strip_left strip_braces remove_dashes
parse_uuid s =
    let hex =
      remove_dashes
        (strip_braces (remove_text (codes "uuid:") (remove_text (codes "urn:") (codes s)))) in
    if nat_eq (length hex) 32 then below_limit (int16 hex) else none

-- The lowest `n` hexadecimal digits of `v`, in front of `tail`.
hex_run : ℕ → ℕ → String → String
hex_run zero v tail = tail
hex_run (suc n) v tail = hex_run n (v / 16) (String.◌∷◌ (hex_char (v % 16)) tail)

-- `str(uuid)`: groups of 8, 4, 4, 4 and 12 digits.
unfoldable pub show_uuid : ℕ → String
unfolding hex_run
show_uuid u = hex_run 8 (u / 16 ^ 24) (
    String.◌∷◌ "-" (
      hex_run 4 (u / 16 ^ 20) (
        String.◌∷◌ "-" (
          hex_run 4 (u / 16 ^ 16)
            (String.◌∷◌ "-" (hex_run 4 (u / 16 ^ 12) (String.◌∷◌ "-" (hex_run 12 u String.[]))))))))

-- `UUID(str(value))`. A text is read as it is and an int by its decimal digits, whose sign is dropped
-- with the dashes. No other value reads as a UUID: `None`, `True` and `False` are too short, a float has
-- fewer than 32 characters, and the text of a list or an object holds brackets, quotes or spaces.
unfoldable pub uuid_of_value : Value → Option ℕ
unfolding parse_uuid
uuid_of_value (str s) = parse_uuid s
uuid_of_value (int (pos n)) = parse_uuid (show_nat n)
uuid_of_value (int (negsuc n)) = parse_uuid (show_nat (suc n))
uuid_of_value v = none
