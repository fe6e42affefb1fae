-- ===== src/Server.antt =====
-- src/openhdo_linker/server_client.py: how the client answers one message of the server. The connection, the
-- tasks of a session and the logger are not modelled: the messages that are sent are returned in order.
pub mod Answers
pub mod Client
pub mod Publisher
use linker.Prelude.{
  ℕ, String, Bool, true, false, not, ◌&&◌, Option, none, some, ◌≡◌, List, [], ◌∷◌, ◌++◌, nat_Eq,
  string_Eq, str_eq, list_eq, length, take, if◌then◌else◌,
}
use linker.Python.Exc.{
  Exc, Result, ok, err, envelope_error, value_error, recursion_error, is_envelope_error,
  is_bad_request,
}
use linker.Python.Dict.{get}
use linker.Python.Text.{codes}
use linker.Python.Value.{Value, str, obj, to_dict}
use linker.Protocol.{Envelope, Payload, IsoTime, from_dict}
use linker.Driver.{VendorRgbDriver}
use linker.Boundary.{LinkerBoundary, Stamps, Action, pure, raise, lift, ◌>>=◌, make_envelope}
use linker.Boundary.Commands.{handle_command}
use linker.Boundary.Sessions.{handle_discovery, handle_pairing}

-- `json.loads` of a message: the value, or JSONDecodeError, or another ValueError, for bytes in no encoding
-- or an integer of more than 4300 digits, or RecursionError.
pub data Loaded : Type 0 where
  loaded : Value → Loaded
  no_json : Loaded
  unreadable too_deep : String → Loaded

-- protocol.py's `Envelope.from_json`
unfoldable pub from_json : IsoTime → Loaded → Result Envelope
from_json iso (loaded v) = from_dict iso v
from_json iso no_json = err (envelope_error "envelope must contain valid JSON")
from_json iso (unreadable m) = err (value_error m)
from_json iso (too_deep m) = err (recursion_error m)

-- `kind.startswith("light.command.")`
abbrev pub is_light_command : String → Bool
is_light_command kind = list_eq (take 14 (codes kind)) (codes "light.command.")

-- `payload.get("status") == "applied"`
abbrev pub is_applied : Option Value → Bool
is_applied (some (str status)) = str_eq status "applied"
is_applied v = false

-- The state of a payload that reports an applied command.
unfoldable pub applied_state : Payload → Option Payload
applied_state payload =
    if is_applied (get payload "status")
    then elim (get payload "state") [ some (obj fs) ↦ some (to_dict fs) | _ ↦ none ]
    else none

module _ {D : Type 0} where
  -- `except (KeyError, TypeError, ValueError)`, which logs and sends nothing.
  abbrev pub answered :
      Result (List Envelope) × LinkerBoundary D → Result (List Envelope) × LinkerBoundary D
  answered (ok ms, s) = (ok ms, s)
  answered (err e, s) = if is_bad_request e then (ok [], s) else (err e, s)

module _ {D : Type 0} (drv : VendorRgbDriver D) (stamps : Stamps) where
  -- The result, and behind it the state that it applied.
  unfoldable pub with_state : Envelope → Option Payload → Action D (List Envelope)
  with_state r none = pure (r ∷ [])
  with_state r (some state) = do
    report ← make_envelope stamps "light.state.reported" none state
    pure (r ∷ report ∷ [])

  -- The exceptions of `handle` are caught, and those behind it are not.
  unfoldable pub after_command :
      Result Envelope × LinkerBoundary D → Result (List Envelope) × LinkerBoundary D
  after_command (ok r, s) = with_state r (applied_state r.payload) s
  after_command (err e, s) = if is_bad_request e then (ok [], s) else (err e, s)

  unfoldable pub dispatch : Envelope → Action D (List Envelope)
  dispatch message s =
      if str_eq message.kind "discovery.start"
      then answered (handle_discovery drv stamps message s)
      else if str_eq message.kind "pairing.start"
      then answered (handle_pairing drv stamps message s)
      else if is_light_command message.kind
      then after_command (handle_command drv stamps message s)
      else (ok [], s)

  unfoldable pub parsed : Result Envelope → Action D (List Envelope)
  parsed (ok message) s = dispatch message s
  parsed (err e) s = if is_envelope_error e then (ok [], s) else (err e, s)

  -- `_receive`
  unfoldable pub receive : IsoTime → Loaded → Action D (List Envelope)
  receive iso raw s = parsed (from_json iso raw) s
