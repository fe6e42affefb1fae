-- ===== src/Tests/ServerTests.antt =====
-- The theorems on the server's messages, applied to samples.
use linker.Prelude.{ℕ, ◌≡◌, refl, [], ◌∷◌, pos, nat_Eq, string_Eq}
use linker.Python.Exc.{Exc, overflow_error, err, cancelled}
use linker.Python.Text.{int16}
use linker.Python.Uuid.{parse_uuid, uuid_of_value}
use linker.Python.Value.{Value, int, str, obj, of_dict}
use linker.Models.Identifier.{is_short_text, is_type_name}
use linker.Protocol
use linker.Protocol.{
  instant, unrepresentable, IsoTime, Envelope, Payload, from_dict, equals_one, uuid_field,
  timestamp_field,
}
use linker.Driver.{VendorRgbDriver}
use linker.Boundary.Requests.{required_string, required_uuid}
use linker.Boundary.Commands.{
  handle_command, metadata, execute, perform, finish, outcome, run_operation, operation_of, serve,
  locked, record_result,
}
use linker.Server.{loaded, receive, parsed, from_json, dispatch, after_command}
use linker.Server.Answers.{IsEscape, receive-errors}
use linker.Tests.Samples.{lamp_driver, clock, lamp_boundary, power_on}

abbrev pub iso : IsoTime
iso = record { from_iso = λ s. instant 0; to_iso = λ t. "" }

-- The lamp whose calls are cancelled.
abbrev cancelled_driver : VendorRgbDriver ℕ
cancelled_driver = record lamp_driver { turn_on = λ device n. (err cancelled, n) }

abbrev pub command_text : Value
command_text = obj (
    of_dict (
      ("v", int (pos 1))
      ∷ ("id", str "00000000-0000-0000-0000-000000000001")
      ∷ ("type", str "light.command.power")
      ∷ ("ts", str "2026-01-01T00:00:00Z")
      ∷ ("source", str "server")
      ∷ ("correlation_id", str "00000000-0000-0000-0000-000000000001")
      ∷ ("payload", obj (of_dict (power_on 1 "00000000-0000-0000-0000-000000000001").payload))
      ∷ []))

cancelled-received :
    (receive cancelled_driver clock iso (loaded command_text) lamp_boundary).0 ≡ err cancelled
unfolding receive parsed from_json from_dict equals_one uuid_field timestamp_field uuid_of_value
    parse_uuid int16 Protocol.new is_type_name is_short_text dispatch after_command handle_command
    metadata required_string required_uuid locked serve execute perform operation_of run_operation
    outcome finish record_result
cancelled-received = refl

receive-errors_example : IsEscape iso (loaded command_text) cancelled
receive-errors_example =
    receive-errors cancelled_driver clock iso (loaded command_text) lamp_boundary cancelled
      (unfold is_short_text in refl) cancelled-received

-- A time of year 1 that is in no year of UTC.
abbrev early : IsoTime
early = record iso { from_iso = λ s. unrepresentable }

abbrev date_error : Exc
date_error = overflow_error "date value out of range"
