-- ===== src/Runtime.antt =====
-- src/openhdo_linker/runtime_config.py: `_value`, `_string`, `_section` and `_tuya_number`, and cli.py's
-- `_timeout` and `_resolve_inspect_local_key`.
pub mod Required
pub mod Settings
use linker.Prelude.{
  ℕ, String, Bool, true, false, not, ◌&&◌, ◌||◌, Option, none, some, List, [], ◌∷◌, ℤ, pos, negsuc,
  string_Eq, str_eq, leb, if◌then◌else◌,
}
use linker.Python.Exc.{
  Exc, Result, ok, err, type_error, value_error, runtime_config_error, reraise, ◌>>=◌,
}
use linker.Python.Dict.{Dict, get}
use linker.Python.Text.{codes, concat, is_space}
use linker.Python.Value.{Value, null, bool, int, float, str, arr, obj, trunc, to_dict}
use linker.Protocol.{Payload}

-- `not text.strip()`
unfoldable pub is_blank : List ℕ → Bool
is_blank [] = true
is_blank (c ∷ cs) = is_space c && is_blank cs

-- `env.get(env_name, raw.get(key, default))`, with null for None.
abbrev pub looked_up : Option String → Option Value → Value → Value
looked_up (some s) v default = str s
looked_up none (some v) default = v
looked_up none none default = default

abbrev pub is_missing : Value → Bool
is_missing null = true
is_missing (str s) = is_blank (codes s)
is_missing v = false

-- `_value`
unfoldable pub value : Dict String String → String → Payload → String → Bool → Value → Result Value
value env env_name raw key required default =
    let v = looked_up (get env env_name) (get raw key) default in
    if required && is_missing v
    then err (runtime_config_error (concat env_name " is required"))
    else ok v

abbrev pub text_or_none : String → Value → Result (Option String)
text_or_none key null = ok none
text_or_none key (str s) = ok (some s)
text_or_none key v = err (runtime_config_error (concat key " must be a string"))

-- `_string`
unfoldable pub string :
    Dict String String → String → Payload → String → Bool → Value → Result (Option String)
string env env_name raw key required default = do
  v ← value env env_name raw key required default
  text_or_none key v

abbrev pub section_of : String → Option Value → Result Payload
section_of name none = ok []
section_of name (some (obj fs)) = ok (to_dict fs)
section_of name (some v) =
    err (runtime_config_error (concat "config section '" (concat name "' must be an object")))

-- `_section`
unfoldable pub section : Payload → String → Result Payload
section raw name = section_of name (get raw name)

-- `except (TypeError, ValueError)`
abbrev pub is_no_integer : Exc → Bool
is_no_integer (type_error m) = true
is_no_integer (value_error m) = true
is_no_integer e = false

-- `int(text)` of the standard library is the parameter `int10`, none where it raises ValueError.
module _ (int10 : String → Option ℤ) where
  abbrev pub parsed : Option ℤ → Result ℤ
  parsed none = err (value_error "invalid literal for int() with base 10")
  parsed (some z) = ok z

  -- `int(value)`
  unfoldable pub integer_of : Value → Result ℤ
  integer_of (int z) = ok z
  integer_of (bool true) = ok (pos 1)
  integer_of (bool false) = ok (pos 0)
  integer_of (float x) = trunc x
  integer_of (str s) = parsed (int10 s)
  integer_of v = err (type_error "int() argument must be a string or a number")

  abbrev pub number_of : String → Value → Result (Option ℤ)
  number_of key null = ok none
  number_of key v =
      reraise is_no_integer (runtime_config_error (concat key " must be an integer"))
        (integer_of v >>= λ z. ok (some z))

  -- `_tuya_number`
  unfoldable pub tuya_number :
      Dict String String → String → Payload → String → Bool → Value → Result (Option ℤ)
  tuya_number env env_name raw key required default = do
    v ← value env env_name raw key required default
    number_of key v

-- `key if key else raise`
abbrev pub nonempty_key : Option String → Result String
nonempty_key none =
    err (runtime_config_error "inspect requires a non-empty --local-key or OPENHDO_TUYA_LOCAL_KEY")
nonempty_key (some s) =
    if str_eq s ""
    then err
        (runtime_config_error "inspect requires a non-empty --local-key or OPENHDO_TUYA_LOCAL_KEY")
    else ok s

-- `_resolve_inspect_local_key`
unfoldable pub resolve_inspect_local_key : Option String → Dict String String → Result String
resolve_inspect_local_key none env = nonempty_key (get env "OPENHDO_TUYA_LOCAL_KEY")
resolve_inspect_local_key (some s) env = nonempty_key (some s)
