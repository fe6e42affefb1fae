-- ===== src/Python/Text.antt =====
-- Text by its code points; `int(text, 16)` and the hexadecimal format of f-strings. The program's
-- texts are ASCII where it parses numbers; a code point above 127 is no digit and no space here.
use Prim.Native.Char.{Char, code}
use Prim.Native.String.{◌++◌ as text_append}
use Prim.Native.String.append
use linker.Prelude.{
  ℕ, zero, suc, ◌+◌, ◌-◌, ◌*◌, ◌/◌, ◌%◌, String, Bool, true, false, ◌&&◌, ◌||◌, Option, none, some,
  ◌≡◌, ap, ◌∙◌, List, [], ◌∷◌, ◌++◌, ℤ, pos, negsuc, ltb, leb, nat_eq, length, if◌then◌else◌,
}

abbrev pub codes : String → List ℕ
codes String.[] = []
codes (String.◌∷◌ c s) = code c ∷ codes s

-- `len(text)`
abbrev pub text_length : String → ℕ
text_length s = length (codes s)

-- `s + t`
abbrev pub concat : String → String → String
concat = text_append

pub codes-concat : (s t : String) → codes (concat s t) ≡ codes s ++ codes t
codes-concat String.[] t = ap codes (append.nil t)
codes-concat (String.◌∷◌ c s) t =
    ap codes (append.cons c s t) ∙ ap (λ l. code c ∷ l) (codes-concat s t)

-- The value of a hexadecimal digit.
unfoldable pub hex_value : ℕ → Option ℕ
hex_value c =
    if leb b'0' c && leb c b'9'
    then some (c - b'0')
    else if leb b'a' c && leb c b'f'
    then some (c - b'a' + 10)
    else if leb b'A' c && leb c b'F'
    then some (c - b'A' + 10)
    else none

-- `str.isspace` of a character: what `int` and `strip` skip at both ends.
unfoldable pub is_space : ℕ → Bool
is_space c =
    (leb 9 c && leb c 13)
    || ((leb 28 c && leb c 32)
        || (nat_eq c 0x85
            || (nat_eq c 0xa0
                || (nat_eq c 0x1680
                    || ((leb 0x2000 c && leb c 0x200a)
                        || (nat_eq c 0x2028
                            || (nat_eq c 0x2029
                                || (nat_eq c 0x202f || (nat_eq c 0x205f || nat_eq c 0x3000)))))))))

all_space : List ℕ → Bool
all_space [] = true
all_space (c ∷ cs) = is_space c && all_space cs

skip_space : List ℕ → List ℕ
skip_space [] = []
skip_space (c ∷ cs) = if is_space c then skip_space cs else c ∷ cs

-- What the last character was: none yet, a digit, or an underscore after a digit.
pub data Last : Type 0 where
  start digit underscore : Last

-- The end of the digits: only spaces may follow, and a digit must stand before them.
finish : Last → ℕ → List ℕ → Option ℕ
finish digit acc rest = if all_space rest then some acc else none
finish start acc rest = none
finish underscore acc rest = none

abbrev is_digit : Last → Bool
is_digit digit = true
is_digit start = false
is_digit underscore = false

scan : ℕ → Last → List ℕ → Option ℕ
scan acc l [] = finish l acc []
scan acc l (c ∷ cs) = elim (hex_value c) [
  | some d ↦ scan (acc * 16 + d) digit cs
  | none ↦ elim (nat_eq c b'_' && is_digit l) [
    | true ↦ scan acc underscore cs
    | false ↦ finish l acc (c ∷ cs)
  ]
]

-- One underscore may stand behind the prefix.
after_prefix : List ℕ → Option ℕ
after_prefix [] = scan 0 start []
after_prefix (c ∷ cs) = if nat_eq c b'_' then scan 0 start cs else scan 0 start (c ∷ cs)

-- An optional prefix 0x or 0X.
magnitude : List ℕ → Option ℕ
magnitude (z ∷ x ∷ cs) =
    if nat_eq z b'0' && (nat_eq x b'x' || nat_eq x b'X')
    then after_prefix cs
    else scan 0 start (z ∷ x ∷ cs)
magnitude cs = scan 0 start cs

abbrev negate : ℕ → ℤ
negate zero = pos 0
negate (suc n) = negsuc n

signed : List ℕ → Option ℤ
signed [] = none
signed (c ∷ cs) =
    if nat_eq c b'-'
    then elim (magnitude cs) [ none ↦ none | some n ↦ some (negate n) ]
    else if nat_eq c b'+'
    then elim (magnitude cs) [ none ↦ none | some n ↦ some (pos n) ]
    else elim (magnitude (c ∷ cs)) [ none ↦ none | some n ↦ some (pos n) ]

-- `int(text, 16)`; `none` is ValueError.
unfoldable pub int16 : List ℕ → Option ℤ
unfolding signed skip_space magnitude after_prefix scan finish all_space is_space hex_value
int16 cs = signed (skip_space cs)

abbrev pub hex_char : ℕ → Char
hex_char n =
    if nat_eq n 0
    then "0"
    else if nat_eq n 1
    then "1"
    else if nat_eq n 2
    then "2"
    else if nat_eq n 3
    then "3"
    else if nat_eq n 4
    then "4"
    else if nat_eq n 5
    then "5"
    else if nat_eq n 6
    then "6"
    else if nat_eq n 7
    then "7"
    else if nat_eq n 8
    then "8"
    else if nat_eq n 9
    then "9"
    else if nat_eq n 10
    then "a"
    else if nat_eq n 11
    then "b"
    else if nat_eq n 12
    then "c"
    else if nat_eq n 13
    then "d"
    else if nat_eq n 14
    then "e"
    else "f"

-- The digits of `n` in front of `tail`; `n + 1` rounds are enough.
hex_digits : ℕ → ℕ → String → String
hex_digits zero n tail = tail
hex_digits (suc fuel) n tail =
    let rest = hex_digits fuel (n / 16) (String.◌∷◌ (hex_char (n % 16)) tail) in
    if ltb n 16 then String.◌∷◌ (hex_char n) tail else rest

pad : ℕ → String → String
pad zero s = s
pad (suc n) s = String.◌∷◌ "0" (pad n s)

-- `f"{n:0{width}x}"` for a non-negative n.
unfoldable pub format_hex : ℕ → ℕ → String
unfolding hex_digits pad
format_hex width n =
    let digits = hex_digits (suc n) n String.[] in pad (width - text_length digits) digits

-- The decimal digits of `n` in front of `tail`; `n + 1` rounds are enough.
decimal : ℕ → ℕ → String → String
decimal zero n tail = tail
decimal (suc fuel) n tail =
    let rest = decimal fuel (n / 10) (String.◌∷◌ (hex_char (n % 10)) tail) in
    if ltb n 10 then String.◌∷◌ (hex_char n) tail else rest

-- `str(n)`
unfoldable pub show_nat : ℕ → String
unfolding decimal
show_nat n = decimal (suc n) n String.[]
