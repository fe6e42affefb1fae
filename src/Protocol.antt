-- ===== src/Protocol.antt =====
-- src/openhdo_linker/protocol.py: the Envelope.
pub mod Errors
use Prim.Native.Nat.{Ordering}
use Prim.Native.String.{compare}
use linker.Prelude.{
  ℕ, ◌^◌, String, Bool, true, false, not, ◌&&◌, ◌||◌, Option, none, some, ◌≡◌, refl, List, [], ◌∷◌,
  ◌++◌, ℤ, pos, nat_eq, str_eq, string_Eq, if◌then◌else◌,
}
use linker.Python.Exc.{
  Result, ok, err, envelope_error, overflow_error, guard, raise_if, ◌>>=◌, ◌>>◌,
}
use linker.Python.Dict.{get, contains}
use linker.Python.Text.{concat}
use linker.Python.Uuid.{show_uuid, uuid_of_value}
use linker.Python.Value.{Float, finite, Value, null, bool, int, float, str, obj, to_dict, of_dict}
use linker.Models.Identifier.{is_type_name, is_short_text}

abbrev pub Payload : Type 0
Payload = List (String × Value)

-- The version is always 1. `timestamp` is a point in time with its zone.
pub record Envelope : Type 0 where
  pub kind : String
  pub source : String
  pub payload : Payload
  pub id : ℕ
  pub timestamp : ℕ
  pub correlation_id : Option ℕ

-- `Envelope(...)`: what `__post_init__` checks of values that have their annotated types.
unfoldable pub new : Envelope → Result Envelope
new e = do
  guard (is_type_name e.kind) (envelope_error "type must be a lowercase domain name")
  guard (is_short_text e.source) (envelope_error "source must contain 1 to 128 characters")
  ok e

-- What `datetime.fromisoformat` and `astimezone` make of a text: the first raises ValueError, the text names no
-- zone, the second raises OverflowError since the time in UTC is in no year from 1 to 9999, or a point in time.
pub data IsoText : Type 0 where
  malformed zoneless unrepresentable : IsoText
  instant : ℕ → IsoText

-- `from_iso` reads a text whose `Z` `_timestamp` has replaced, and `to_iso` is the text that `to_dict` writes.
pub record IsoTime : Type 0 where
  pub from_iso : String → IsoText
  pub to_iso : ℕ → String

abbrev pub is_member : String → List String → Bool
is_member s [] = false
is_member s (t ∷ ts) = str_eq s t || is_member s ts

-- The keys of `payload` that are not allowed.
abbrev pub unknown_keys : List String → Payload → List String
unknown_keys allowed [] = []
unknown_keys allowed ((k, v) ∷ d) =
    if is_member k allowed then unknown_keys allowed d else k ∷ unknown_keys allowed d

-- The names of `required` that are no keys of `d`.
abbrev pub missing_keys : List String → Payload → List String
missing_keys [] d = []
missing_keys (k ∷ ks) d = if contains d k then missing_keys ks d else k ∷ missing_keys ks d

abbrev text_le : String → String → Bool
text_le s t = elim (compare s t) [ Ordering.gt ↦ false | _ ↦ true ]

insert_text : String → List String → List String
insert_text s [] = s ∷ []
insert_text s (t ∷ ts) = if text_le s t then s ∷ (t ∷ ts) else t ∷ insert_text s ts

sort_texts : List String → List String
sort_texts [] = []
sort_texts (s ∷ ss) = insert_text s (sort_texts ss)

join_comma : List String → String
join_comma [] = ""
join_comma (s ∷ []) = s
join_comma (s ∷ ss) = concat s (concat ", " (join_comma ss))

-- `", ".join(sorted(names))`
unfoldable pub name_list : List String → String
unfolding insert_text sort_texts join_comma
name_list names = join_comma (sort_texts names)

abbrev pub no_names : List String → Bool
no_names [] = true
no_names (s ∷ ss) = false

-- `value == 1`, which True and 1.0 pass too.
unfoldable pub equals_one : Value → Bool
equals_one (int (pos n)) = nat_eq n 1
equals_one (bool b) = b
equals_one (float (finite (pos m) k)) = nat_eq m (2 ^ k)
equals_one v = false

abbrev allowed_fields : List String
allowed_fields = "v" ∷ "id" ∷ "type" ∷ "ts" ∷ "source" ∷ "correlation_id" ∷ "payload" ∷ []

abbrev required_fields : List String
required_fields = "v" ∷ "id" ∷ "type" ∷ "ts" ∷ "source" ∷ "payload" ∷ []

-- `data[key]`, of a key that is there.
abbrev pub item : Payload → String → Value
item d k = elim (get d k) [ none ↦ null | some v ↦ v ]

abbrev pub fields_of : Value → Result Payload
fields_of (obj fs) = ok (to_dict fs)
fields_of v = err (envelope_error "payload must be an object")

abbrev pub texts_of : Value → Value → Result (String × String)
texts_of (str a) (str b) = ok (a, b)
texts_of _ _ = err (envelope_error "type and source must be strings")

-- `_uuid`
unfoldable pub uuid_field : String → Value → Result ℕ
uuid_field name v = elim (uuid_of_value v) [
  | none ↦ err (envelope_error (concat name " must be a UUID"))
  | some u ↦ ok u
]

abbrev pub optional_uuid : Option Value → Result (Option ℕ)
optional_uuid none = ok none
optional_uuid (some null) = ok none
optional_uuid (some v) = do u ← uuid_field "correlation_id" v; ok (some u)

module _ (iso : IsoTime) where
  abbrev pub in_utc : IsoText → Result ℕ
  in_utc malformed = err (envelope_error "ts must be an ISO-8601 string")
  in_utc zoneless = err (envelope_error "ts must include a timezone")
  in_utc unrepresentable = err (overflow_error "date value out of range")
  in_utc (instant t) = ok t

  -- `_timestamp`
  unfoldable pub timestamp_field : Value → Result ℕ
  timestamp_field (str s) = in_utc (iso.from_iso s)
  timestamp_field v = err (envelope_error "ts must be an ISO-8601 string")

  -- The message about the version is modelled without the value that it shows.
  unfoldable pub from_dict : Value → Result Envelope
  from_dict (obj fs) = do
    let d = to_dict fs
    let unknown = unknown_keys allowed_fields d
    guard (no_names unknown)
        (envelope_error (concat "unknown envelope fields: " (name_list unknown)))
    let missing = missing_keys required_fields d
    guard (no_names missing)
        (envelope_error (concat "missing envelope fields: " (name_list missing)))
    guard (equals_one (item d "v")) (envelope_error "unsupported protocol version")
    payload ← fields_of (item d "payload")
    (kind, source) ← texts_of (item d "type") (item d "source")
    id ← uuid_field "id" (item d "id")
    timestamp ← timestamp_field (item d "ts")
    correlation ← optional_uuid (get d "correlation_id")
    new (record {
      kind = kind;
      source = source;
      payload = payload;
      id = id;
      timestamp = timestamp;
      correlation_id = correlation;
    })
  from_dict v = err (envelope_error "envelope must be an object")

  abbrev correlation_entry : Option ℕ → Payload
  correlation_entry none = []
  correlation_entry (some u) = ("correlation_id", str (show_uuid u)) ∷ []

  unfoldable pub to_dict_of : Envelope → Payload
  to_dict_of e =
      ("v", int (pos 1))
      ∷ ("id", str (show_uuid e.id))
      ∷ ("type", str e.kind)
      ∷ ("ts", str (iso.to_iso e.timestamp))
      ∷ ("source", str e.source)
      ∷ ("payload", obj (of_dict e.payload))
      ∷ correlation_entry e.correlation_id
