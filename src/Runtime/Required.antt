-- ===== src/Runtime/Required.antt =====
-- What a required setting of the runtime configuration is.
use linker.Prelude.{String, true, false, Option, some, ◌≡◌, refl, string_Eq, arith}
use linker.Python.Exc.{ok}
use linker.Python.Dict.{Dict, get}
use linker.Python.Text.{codes}
use linker.Python.Value.{Value, null, str}
use linker.Protocol.{Payload}
use linker.Runtime.{is_blank, looked_up, is_missing, value, text_or_none, string}

checked_text :
    (key : String) (v : Value) {o : Option String}
    → is_missing v ≡ false
    → text_or_none key v ≡ ok o
    → (s : String) × (v ≡ str s) × (o ≡ some s) × (is_blank (codes s) ≡ false)
checked_text key null present h = cc
checked_text key (str s) present h = (s, refl, ground arith, present)
checked_text key v present h = cc

-- A required text setting that is accepted is a text that is not blank: the environment's if it has one, and
-- else the one of the configuration file or the default.
pub string-required :
    (env : Dict String String) (env_name : String) (raw : Payload) (key : String) (default : Value)
    {o : Option String}
    → string env env_name raw key true default ≡ ok o
    → (s : String) × (looked_up (get env env_name) (get raw key) default ≡ str s)
      × (o ≡ some s)
      × (is_blank (codes s) ≡ false)
unfolding string value
string-required env env_name raw key default {o} h =
    let v = looked_up (get env env_name) (get raw key) default in
    checked_text key v {o = o} (ground arith) (ground arith)
