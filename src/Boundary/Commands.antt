-- ===== src/Boundary/Commands.antt =====
-- boundary.py: `handle` for the light commands, `_execute` and MemoryCommandJournal.
pub mod Effects
pub mod Replay
use linker.Prelude.{
  ℕ, ◌+◌, String, Bool, true, false, not, ◌&&◌, ◌||◌, Option, none, some, ◌≡◌, List, [], ◌∷◌, ℤ,
  pos, str_eq, string_Eq, if◌then◌else◌,
}
use linker.Python.Exc.{
  Exc, Result, ok, err, value_error, message, is_bad_request, is_value_error, is_exception,
}
use linker.Python.Exc
use linker.Python.Dict.{Dict, get, put, contains}
use linker.Python.Text.{concat}
use linker.Python.Uuid.{show_uuid}
use linker.Python.Value.{Value, bool, str, obj, of_dict}
use linker.Models.Rgb
use linker.Models.Rgb.{Rgb}
use linker.Models.Light
use linker.Models.Light.{LightState, or_text}
use linker.Protocol.{Envelope, Payload}
use linker.Driver.{VendorRgbDriver}
use linker.Boundary.{LinkerBoundary, Stamps, Action, pure, raise, ◌>>=◌, make_envelope}
use linker.Boundary.Requests.{required_string, required_uuid, brightness}

-- `MemoryCommandJournal.put`: `setdefault`
unfoldable pub journal_put : String → Payload → Dict String Payload → Dict String Payload
journal_put key result journal = if contains journal key then journal else put journal key result

-- `_rejected`
unfoldable pub rejected : String → ℕ → String → String → String → Payload
rejected light_id command_id key code text =
    ("status", str "rejected")
    ∷ ("light_id", str light_id)
    ∷ ("command_id", str (show_uuid command_id))
    ∷ ("idempotency_key", str key)
    ∷ ("error", obj (of_dict (("code", str code) ∷ ("message", str text) ∷ [])))
    ∷ []

unfoldable pub applied : String → ℕ → String → Payload → Payload
applied light_id command_id key state =
    ("status", str "applied")
    ∷ ("light_id", str light_id)
    ∷ ("command_id", str (show_uuid command_id))
    ∷ ("idempotency_key", str key)
    ∷ ("state", obj (of_dict state))
    ∷ []

unfoldable pub failed : String → ℕ → String → Payload
failed light_id command_id key =
    ("status", str "failed")
    ∷ ("light_id", str light_id)
    ∷ ("command_id", str (show_uuid command_id))
    ∷ ("idempotency_key", str key)
    ∷ (
      "error",
      obj (
          of_dict (
            ("code", str "driver_error")
            ∷ ("message", str "physical device action was not confirmed")
            ∷ [])),
    )
    ∷ []

abbrev pub is_command : String → Bool
is_command kind =
    str_eq kind "light.command.power"
    || (str_eq kind "light.command.brightness" || str_eq kind "light.command.rgb_color")

-- The driver call that a command asks for.
pub data Operation : Type 0 where
  power : Bool → Operation
  dim : ℕ → Operation
  paint : Rgb → Operation

abbrev power_of : Option Value → Result Operation
power_of (some (bool b)) = ok (power b)
power_of v = err (value_error "power must be boolean")

-- The first `try` of `_execute`
unfoldable pub operation_of : Envelope → Result Operation
operation_of command =
    if str_eq command.kind "light.command.power"
    then power_of (get command.payload "power")
    else if str_eq command.kind "light.command.brightness"
    then Exc.◌>>=◌ (brightness (get command.payload "brightness")) (λ n. ok (dim n))
    else Exc.◌>>=◌ (Rgb.from_payload (get command.payload "rgb_color")) (λ c. ok (paint c))

-- What `handle` takes from the payload before it takes the lock.
pub record Metadata : Type 0 where
  pub light_id : String
  pub command_id : ℕ
  pub key : String
  pub error : Option String

-- `metadata_error or str(error)`
abbrev first_error : Option String → Result String → Option String
first_error (some m) r = some m
first_error none (ok a) = none
first_error none (err e) = some (message e)

abbrev pub value_or {ℓ} : {A : Type ℓ} → A → Result A → A
value_or a (ok b) = b
value_or a (err e) = a

abbrev error_of {ℓ} : {A : Type ℓ} → Result A → Option String
error_of (ok a) = none
error_of (err e) = some (message e)

abbrev or_else : Option String → Option String → Option String
or_else none o = o
or_else (some m) o = if str_eq m "" then o else some m

-- The three `try` statements catch every error that their calls raise.
unfoldable pub metadata : Envelope → Option String → Metadata
metadata command registered =
    let light = required_string command.payload "light_id" in
    let command_id = required_uuid command.payload "command_id" in
    let key = required_string command.payload "idempotency_key" in
    record {
      light_id = value_or (or_text registered "invalid.light") light;
      command_id = value_or command.id command_id;
      key = value_or (concat "invalid:" (show_uuid command.id)) key;
      error = or_else (or_else (error_of light) (error_of command_id)) (error_of key);
    }

-- `cached.get("command_id") != str(command_id)`
abbrev pub is_other_command : Payload → ℕ → Bool
is_other_command cached command_id = elim (get cached "command_id") [
  | some (str s) ↦ not (str_eq s (show_uuid command_id))
  | _ ↦ true
]

abbrev pub is_registered : Option String → String → Bool
is_registered none light = false
is_registered (some registered) light = str_eq light registered

-- The command ran: its result is put into the journal.
unfoldable pub record_result :
    {D : Type 0} → String → Result Envelope × LinkerBoundary D → Result Envelope × LinkerBoundary D
record_result key (ok e, s) = (ok e, record s { journal = journal_put key e.payload s.journal })
record_result key (err e, s) = (err e, s)

module _ {D : Type 0} (drv : VendorRgbDriver D) (stamps : Stamps) where
  -- `_result`
  unfoldable pub result : Envelope → Payload → Action D Envelope
  result command payload = make_envelope stamps "command.result" (some command.id) payload

  -- The awaited call of the driver
  unfoldable pub run_operation : Operation → Option String → D → Result LightState × D
  run_operation (power true) device d = drv.turn_on device d
  run_operation (power false) device d = drv.turn_off device d
  run_operation (dim n) device d = drv.set_brightness device n d
  run_operation (paint c) device d = drv.set_rgb device c d

  -- The payload of the result by how the call of the driver ended; `except Exception` lets a
  -- cancellation pass.
  unfoldable pub outcome : Metadata → Result LightState → Result Payload
  outcome m (ok state) = elim (Light.to_payload state (some m.light_id)) [
    | ok payload ↦ ok (applied m.light_id m.command_id m.key payload)
    | err e ↦ ok (failed m.light_id m.command_id m.key)
  ]
  outcome m (err e) = if is_exception e then ok (failed m.light_id m.command_id m.key) else err e

  unfoldable pub finish : Envelope → Result Payload → Action D Envelope
  finish command (ok payload) s = result command payload s
  finish command (err e) s = (err e, s)

  -- `_execute`, by what its first `try` gave.
  unfoldable pub perform : Envelope → Metadata → Result Operation → Action D Envelope
  perform command m (err e) s =
      result command (rejected m.light_id m.command_id m.key "invalid_command" (message e)) s
  perform command m (ok operation) s =
      let (r, d) = run_operation operation s.device_id s.driver in
      finish command (outcome m r) (record s { driver = d })

  unfoldable pub execute : Envelope → Metadata → Action D Envelope
  execute command m s = perform command m (operation_of command) s

  -- The body of the lock, by what the journal holds for the key.
  unfoldable pub serve : Envelope → Metadata → Option Payload → Action D Envelope
  serve command m (some cached) s =
      if is_other_command cached m.command_id
      then result command
          (rejected m.light_id m.command_id m.key "idempotency_conflict"
            "idempotency key belongs to another command")
          s
      else result command cached s
  serve command m none s = record_result m.key (execute command m s)

  unfoldable pub locked : Envelope → Metadata → Action D Envelope
  locked command m s = serve command m (get s.journal m.key) s

  -- `handle` behind its dispatch on the sessions
  unfoldable pub handle_command : Envelope → Action D Envelope
  handle_command command s =
      if not (is_command command.kind)
      then (err (value_error (concat "unsupported message type: " command.kind)), s)
      else elim command.correlation_id [
        | none ↦ (err (value_error "light commands require correlation_id"), s)
        | some correlation ↦
            let m = metadata command s.light_id in
            elim m.error [
              | some text ↦
                  result command (rejected m.light_id m.command_id m.key "invalid_command" text) s
              | none ↦
                  if is_registered s.light_id m.light_id
                  then locked command m s
                  else result command
                      (rejected m.light_id m.command_id m.key "unknown_light"
                        "light is not registered")
                      s
            ]
      ]
