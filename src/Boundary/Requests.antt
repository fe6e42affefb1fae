-- ===== src/Boundary/Requests.antt =====
-- boundary.py: `_required_string`, `_required_uuid`, `_brightness`, `_discovery_request` and
-- `_pairing_request`.
use linker.Prelude.{
  ℕ, String, Bool, false, ◌&&◌, Option, none, some, [], ◌∷◌, pos, leb, nat_eq, str_eq, string_Eq,
  if◌then◌else◌,
}
use linker.Python.Exc.{Result, ok, err, key_error, value_error, guard, ◌>>=◌, ◌>>◌}
use linker.Python.Dict.{get}
use linker.Python.Text.{concat}
use linker.Python.Uuid.{uuid_of_value}
use linker.Python.Value.{Value, int, str}
use linker.Models.Identifier.{is_short_text}
use linker.Protocol.{Envelope, Payload, unknown_keys, no_names, name_list}

abbrev pub nonempty_error : String → String
nonempty_error key = concat key " must be a non-empty string"

abbrev checked_text : String → Value → Result String
checked_text key (str s) = if is_short_text s then ok s else err (value_error (nonempty_error key))
checked_text key v = err (value_error (nonempty_error key))

-- `str(KeyError(key))` is the key in quotes.
unfoldable pub required_string : Payload → String → Result String
required_string payload key = elim (get payload key) [
  | none ↦ err (key_error (concat "'" (concat key "'")))
  | some v ↦ checked_text key v
]

abbrev uuid_or_error : String → Option ℕ → Result ℕ
uuid_or_error key none = err (value_error (concat key " must be a UUID"))
uuid_or_error key (some u) = ok u

unfoldable pub required_uuid : Payload → String → Result ℕ
required_uuid payload key = elim (get payload key) [
  | none ↦ err (value_error (concat key " must be a UUID"))
  | some v ↦ uuid_or_error key (uuid_of_value v)
]

-- `type(value) is int and low <= value <= high`, of `payload.get(key)`
abbrev pub int_between : ℕ → ℕ → Option Value → Option ℕ
int_between low high (some (int (pos n))) = if leb low n && leb n high then some n else none
int_between low high v = none

abbrev or_error : String → Option ℕ → Result ℕ
or_error message none = err (value_error message)
or_error message (some n) = ok n

unfoldable pub brightness : Option Value → Result ℕ
brightness v = or_error "brightness must be an integer from 0 to 255" (int_between 0 255 v)

unfoldable pub timeout : Payload → Result ℕ
timeout payload =
    or_error "timeout_s must be an integer from 1 to 60"
      (int_between 1 60 (get payload "timeout_s"))

abbrev pub same_id : Option ℕ → ℕ → Bool
same_id none id = false
same_id (some u) id = nat_eq u id

-- The session id and the timeout in seconds.
unfoldable pub discovery_request : Envelope → Result (ℕ × ℕ)
discovery_request start = do
  guard (str_eq start.kind "discovery.start")
      (value_error "discovery request must use discovery.start")
  guard (same_id start.correlation_id start.id)
      (value_error "discovery.start correlation_id must equal envelope id")
  let unknown = unknown_keys ("session_id" ∷ "timeout_s" ∷ []) start.payload
  guard (no_names unknown)
      (value_error (concat "unknown discovery.start fields: " (name_list unknown)))
  session_id ← required_uuid start.payload "session_id"
  timeout_s ← timeout start.payload
  ok (session_id, timeout_s)

-- The session id, the candidate and the timeout in seconds.
unfoldable pub pairing_request : Envelope → Result (ℕ × String × ℕ)
pairing_request start = do
  guard (str_eq start.kind "pairing.start") (value_error "pairing request must use pairing.start")
  guard (same_id start.correlation_id start.id)
      (value_error "pairing.start correlation_id must equal envelope id")
  let unknown =
      unknown_keys ("session_id" ∷ "discovery_session_id" ∷ "candidate_id" ∷ "timeout_s" ∷ [])
        start.payload
  guard (no_names unknown)
      (value_error (concat "unknown pairing.start fields: " (name_list unknown)))
  session_id ← required_uuid start.payload "session_id"
  discovery_session ← required_uuid start.payload "discovery_session_id"
  candidate_id ← required_string start.payload "candidate_id"
  timeout_s ← timeout start.payload
  ok (session_id, candidate_id, timeout_s)
