-- ===== src/Tuya/Discovery.antt =====
-- tuya.py: `_json_payloads`, `_discovery_item` and `_parse_discovery_json`.
pub mod Sources
use linker.Prelude.{
  ℕ, String, Bool, true, false, not, ◌&&◌, ◌||◌, Option, none, some, ◌≡◌, List, [], ◌∷◌, ◌++◌, ℤ,
  pos, negsuc, leb, nat_eq, nat_Eq, str_eq, string_Eq, length, drop, list_eq, take, replicate,
  reverse, if◌then◌else◌,
}
use linker.Python.Dict.{get}
use linker.Python.Text.{codes}
use linker.Python.Value.{
  Float, finite, inf, nan, Value, Items, Fields, null, bool, int, float, str, arr, obj, nil, cons,
  end, field, to_dict,
}
use linker.Models.Identifier.{is_lower}
use linker.Protocol.{Payload, is_member}
use linker.Tuya.Payload.{starts_with}

-- `json.loads` of bytes, none where it raises JSONDecodeError or UnicodeDecodeError, and `str` of a float.
pub record Json : Type 0 where
  pub loads : List ℕ → Option Value
  pub show_float : Float → String

-- What is kept of a device that answers.
pub record Found : Type 0 where
  pub id : String
  pub ip : String

abbrev pub is_nul : ℕ → Bool
is_nul b = nat_eq b 0

-- A byte of b" \t\r\n"
abbrev pub is_blank : ℕ → Bool
is_blank b = nat_eq b 32 || (nat_eq b 9 || (nat_eq b 13 || nat_eq b 10))

abbrev pub left_strip : (ℕ → Bool) → List ℕ → List ℕ
left_strip drops [] = []
left_strip drops (b ∷ bs) = if drops b then left_strip drops bs else b ∷ bs

abbrev pub right_strip : (ℕ → Bool) → List ℕ → List ℕ
right_strip drops bs = reverse (left_strip drops (reverse bs))

-- `payload.rstrip(b"\0").strip(b" \t\r\n")`
unfoldable pub trimmed : List ℕ → List ℕ
trimmed payload = right_strip is_blank (left_strip is_blank (right_strip is_nul payload))

abbrev pub only_objects : List (List ℕ) → List (List ℕ)
only_objects [] = []
only_objects (c ∷ cs) = if starts_with c (codes "{") then c ∷ only_objects cs else only_objects cs

unfoldable pub json_payloads : List ℕ → List (List ℕ)
json_payloads raw =
    let payload = trimmed raw in
    only_objects (
      if starts_with payload (replicate 4 0)
      then trimmed (drop 4 payload) ∷ payload ∷ []
      else payload ∷ [])

-- `bool(value)`
unfoldable pub truthy : Value → Bool
truthy null = false
truthy (bool b) = b
truthy (int (pos n)) = not (nat_eq n 0)
truthy (int (negsuc n)) = true
truthy (float (finite (pos m) k)) = not (nat_eq m 0)
truthy (float x) = true
truthy (str s) = not (str_eq s "")
truthy (arr nil) = false
truthy (arr (cons v vs)) = true
truthy (obj end) = false
truthy (obj (field k v fs)) = true

-- `value.get("gwId") or value.get("devId")`
abbrev pub device_id_of : Option Value → Option Value → Option Value
device_id_of none other = other
device_id_of (some v) other = if truthy v then some v else other

-- The class [A-Za-z0-9_-]
abbrev pub is_id_char : ℕ → Bool
is_id_char c =
    is_lower c
    || ((leb b'A' c && leb c b'Z')
        || ((leb b'0' c && leb c b'9') || (nat_eq c b'_' || nat_eq c b'-')))

abbrev pub all_id_chars : List ℕ → Bool
all_id_chars [] = true
all_id_chars (c ∷ cs) = is_id_char c && all_id_chars cs

-- DISCOVERY_ID_RE under `fullmatch`
unfoldable pub is_device_id : String → Bool
is_device_id s = (leb 8 (length (codes s)) && leb (length (codes s)) 64) && all_id_chars (codes s)

abbrev pub discovery_protocols : List String
discovery_protocols = "3.1" ∷ "3.2" ∷ "3.3" ∷ "3.4" ∷ "3.5" ∷ []

module _ (json : Json) where
  -- `version is None or str(version) in DISCOVERY_PROTOCOLS`. The text of an int has no dot, and the texts of
  -- a bool, a list and an object begin otherwise.
  unfoldable pub is_known_version : Option Value → Bool
  is_known_version none = true
  is_known_version (some null) = true
  is_known_version (some (str s)) = is_member s discovery_protocols
  is_known_version (some (float x)) = is_member (json.show_float x) discovery_protocols
  is_known_version (some v) = false

  abbrev pub item_of : Option Value → Bool → String → Option Found
  item_of (some (str id)) known ip =
      if is_device_id id && known then some (record { id = id; ip = ip }) else none
  item_of v known ip = none

  unfoldable pub discovery_item : Value → String → Option Found
  discovery_item (obj fs) ip =
      let d = to_dict fs in
      item_of (device_id_of (get d "gwId") (get d "devId")) (is_known_version (get d "version")) ip
  discovery_item v ip = none

  abbrev pub item_of_text : Option Value → String → Option Found
  item_of_text none ip = none
  item_of_text (some v) ip = discovery_item v ip

  -- The loop over the candidates
  unfoldable pub first_item : List (List ℕ) → String → Option Found
  first_item [] ip = none
  first_item (c ∷ cs) ip = elim (item_of_text (json.loads c) ip) [
    | some found ↦ some found
    | none ↦ first_item cs ip
  ]

  unfoldable pub parse_discovery_json : List ℕ → String → Option Found
  parse_discovery_json payload ip = first_item (json_payloads payload) ip
