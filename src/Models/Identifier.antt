-- ===== src/Models/Identifier.antt =====
-- The pattern `^[a-z][a-z0-9._-]{1,63}$` under `fullmatch`, of models.py, config.py and
-- runtime_config.py, and the pattern `^[a-z][a-z0-9._-]{0,63}$` of protocol.py.
use linker.Prelude.{ℕ, String, Bool, true, false, ◌&&◌, ◌||◌, List, [], ◌∷◌, leb, nat_eq, length}
use linker.Python.Text.{codes}

abbrev pub is_lower : ℕ → Bool
is_lower c = leb b'a' c && leb c b'z'

-- The class [a-z0-9._-]
abbrev pub is_name_char : ℕ → Bool
is_name_char c =
    is_lower c
    || ((leb b'0' c && leb c b'9') || (nat_eq c b'.' || (nat_eq c b'_' || nat_eq c b'-')))

abbrev pub all_name_chars : List ℕ → Bool
all_name_chars [] = true
all_name_chars (c ∷ cs) = is_name_char c && all_name_chars cs

-- A lower-case letter, and then from `low` to 63 characters of the class.
abbrev pub matches_name : ℕ → List ℕ → Bool
matches_name low [] = false
matches_name low (c ∷ cs) =
    is_lower c && ((leb low (length cs) && leb (length cs) 63) && all_name_chars cs)

unfoldable pub is_identifier : String → Bool
is_identifier s = matches_name 1 (codes s)

unfoldable pub is_type_name : String → Bool
is_type_name s = matches_name 0 (codes s)

-- `not name or len(name) > 128` refuses.
unfoldable pub is_short_text : String → Bool
is_short_text s = leb 1 (length (codes s)) && leb (length (codes s)) 128
