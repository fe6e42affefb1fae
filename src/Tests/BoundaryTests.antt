-- ===== src/Tests/BoundaryTests.antt =====
-- The theorems on boundary.py, applied to the sample lamp.
use linker.Prelude.{some, ◌≡◌, ◌≢◌, refl, List, [], ◌∷◌, true, pos, ◌+◌, string_Eq}
use linker.Python.Exc.{ok, err, value_error}
use linker.Python.Dict.{get}
use linker.Python.Value.{str, bool, int, null, cons, nil}
use linker.Python.Text.{int16}
use linker.Python.Uuid.{show_uuid, parse_uuid, uuid_of_value}
use linker.Models.Identifier.{is_short_text, is_type_name, is_identifier}
use linker.Models.Rgb
use linker.Models.Light
use linker.Models.Descriptor.{
  DiscoveryCandidate, capability, candidate_payload, from_descriptor, new_candidate,
}
use linker.Protocol
use linker.Protocol.{Envelope, Payload}
use linker.Boundary.{make_envelope}
use linker.Boundary.Requests.{
  required_string, required_uuid, discovery_request, pairing_request, timeout,
}
use linker.Boundary.Commands.{
  handle_command, metadata, rejected, applied, result, execute, perform, finish, outcome,
  run_operation, operation_of, serve, locked, record_result,
}
use linker.Boundary.Commands.Effects.{handle_command-journal}
use linker.Boundary.Commands.Replay.{
  IsAccepted, answer, handle_all, handle_command-replay, handle_command-conflict,
}
use linker.Boundary.Sessions.{
  handle_discovery, handle_pairing, discovery_messages, candidate_messages, discovery_completed,
  completed_payload, candidates_of,
}
use linker.Boundary.Sessions.Messages.{IsSession, handle_discovery-IsSession}
use linker.Boundary.Sessions.Pairing.{IsPairedOrKept, handle_pairing-IsPairedOrKept}
use linker.Boundary.Sessions.Privacy.{handle_discovery-hides, handle_pairing-hides}
use linker.Tests.Samples.{
  lamp, session_id, orange, lamp_driver, failing_driver, clock, lamp_boundary, empty_boundary,
  power_on, discovery_start, pairing_start,
}

abbrev first : Envelope
first = power_on 1 "00000000-0000-0000-0000-000000000001"

abbrev repeated : Envelope
repeated = power_on 2 "00000000-0000-0000-0000-000000000001"

abbrev other : Envelope
other = power_on 3 "00000000-0000-0000-0000-000000000002"

first-IsAccepted : IsAccepted first (some "light.lamp")
unfolding metadata required_string required_uuid uuid_of_value parse_uuid int16 is_short_text
first-IsAccepted = record {
  kind = refl;
  correlated = λ h. cc;
  well_formed = refl;
  registered = refl;
}

repeated-IsAccepted : IsAccepted repeated (some "light.lamp")
unfolding metadata required_string required_uuid uuid_of_value parse_uuid int16 is_short_text
repeated-IsAccepted = record {
  kind = refl;
  correlated = λ h. cc;
  well_formed = refl;
  registered = refl;
}

other-IsAccepted : IsAccepted other (some "light.lamp")
unfolding metadata required_string required_uuid uuid_of_value parse_uuid int16 is_short_text
other-IsAccepted = record {
  kind = refl;
  correlated = λ h. cc;
  well_formed = refl;
  registered = refl;
}

-- The result of the first command.
abbrev first_payload : Payload
first_payload = applied "light.lamp" 1 "key-1" (
    ("light_id", str "light.lamp")
    ∷ ("power", bool true)
    ∷ ("brightness", int (pos 255))
    ∷ ("rgb_color", Rgb.to_payload orange)
    ∷ ("state_revision", int (pos 0))
    ∷ [])

abbrev first_result : Envelope
first_result = answer clock first first_payload lamp_boundary

first-result : (handle_command lamp_driver clock first lamp_boundary).0 ≡ ok first_result
unfolding handle_command metadata required_string required_uuid uuid_of_value parse_uuid int16
    is_short_text locked serve execute perform operation_of run_operation outcome finish result
    make_envelope Protocol.new is_type_name record_result Light.to_payload
first-result = refl

different_ids :
    show_uuid (metadata first (some "light.lamp")).command_id
    ≢ show_uuid (metadata other (some "light.lamp")).command_id
unfolding metadata required_uuid uuid_of_value parse_uuid int16 show_uuid
different_ids = λ h. cc

handle_command-replay_example :
    let t = handle_all lamp_driver clock (first ∷ other ∷ []) lamp_boundary in
    handle_command lamp_driver clock repeated t
    ≡ (ok (answer clock repeated first_payload t), record t { built = t.built + 1 })
handle_command-replay_example =
    handle_command-replay lamp_driver clock first repeated (other ∷ []) lamp_boundary first_result
      (unfold is_short_text in refl) first-IsAccepted repeated-IsAccepted refl first-result
      (unfold metadata required_string is_short_text in refl)
      (unfold metadata required_uuid uuid_of_value parse_uuid int16 in refl)

handle_command-conflict_example :
    let t = handle_all lamp_driver clock (first ∷ []) lamp_boundary in
    let m = metadata other (some "light.lamp") in
    handle_command lamp_driver clock other t ≡ (
      ok (
          answer clock other
            (rejected m.light_id m.command_id m.key "idempotency_conflict"
              "idempotency key belongs to another command")
            t),
      record t { built = t.built + 1 },
    )
handle_command-conflict_example =
    handle_command-conflict lamp_driver clock first other [] lamp_boundary first_result
      (unfold is_short_text in refl) first-IsAccepted other-IsAccepted refl first-result
      (unfold metadata required_string is_short_text in refl) different_ids

handle_command-journal_example :
    let s = record lamp_boundary { journal = ("key-1", first_payload) ∷ [] } in
    get (handle_command lamp_driver clock other s).1.journal "key-1" ≡ some first_payload
handle_command-journal_example =
    handle_command-journal lamp_driver clock other
      (record lamp_boundary { journal = ("key-1", first_payload) ∷ [] }) "key-1" first_payload refl

abbrev lamp_candidate : DiscoveryCandidate
lamp_candidate = record {
  candidate_id = "light.lamp";
  name = "Lamp";
  capabilities = cons (capability lamp) nil;
  transport = "wifi";
  requires_pairing = true;
}

-- The answers to the discovery session.
abbrev discovery_answers : List Envelope
discovery_answers =
    record {
      kind = "discovery.candidate";
      source = "openhdo.linker";
      payload = ("session_id", session_id) ∷ candidate_payload lamp_candidate;
      id = 1000;
      timestamp = 0;
      correlation_id = some 5;
    }
    ∷ record {
      kind = "discovery.completed";
      source = "openhdo.linker";
      payload = ("session_id", session_id) ∷ ("status", str "completed") ∷ ("error", null) ∷ [];
      id = 1001;
      timestamp = 1;
      correlation_id = some 5;
    }
    ∷ []

discovery-answered :
    (handle_discovery lamp_driver clock discovery_start empty_boundary).0 ≡ ok discovery_answers
unfolding handle_discovery discovery_messages candidate_messages discovery_completed
    completed_payload candidates_of from_descriptor new_candidate candidate_payload capability
    discovery_request required_uuid uuid_of_value parse_uuid int16 timeout make_envelope
    Protocol.new is_type_name is_short_text is_identifier show_uuid
discovery-answered = refl

handle_discovery-IsSession_example : IsSession 5 discovery_answers
handle_discovery-IsSession_example =
    handle_discovery-IsSession lamp_driver clock discovery_start empty_boundary discovery-answered

discovery-accepted : discovery_request discovery_start ≡ ok (7, 5)
unfolding discovery_request required_uuid uuid_of_value parse_uuid int16 timeout
discovery-accepted = refl

pairing-accepted : pairing_request pairing_start ≡ ok (7, "light.lamp", 5)
unfolding pairing_request required_uuid required_string uuid_of_value parse_uuid int16 timeout
    is_short_text
pairing-accepted = refl

handle_discovery-hides_example :
    handle_discovery (failing_driver "key 0123") clock discovery_start empty_boundary
    ≡ handle_discovery (failing_driver "at 10.0.0.7") clock discovery_start empty_boundary
handle_discovery-hides_example =
    handle_discovery-hides clock discovery_start empty_boundary (failing_driver "key 0123")
      (failing_driver "at 10.0.0.7") discovery-accepted refl refl refl refl

handle_pairing-hides_example :
    handle_pairing (failing_driver "key 0123") clock pairing_start empty_boundary
    ≡ handle_pairing (failing_driver "at 10.0.0.7") clock pairing_start empty_boundary
handle_pairing-hides_example =
    handle_pairing-hides clock pairing_start empty_boundary (failing_driver "key 0123")
      (failing_driver "at 10.0.0.7") (λ candidate wait n. (err (value_error "key 0123"), n))
      (λ candidate wait n. (err (value_error "at 10.0.0.7"), n)) pairing-accepted refl refl refl
      refl refl refl

handle_pairing-IsPairedOrKept_example :
    IsPairedOrKept "light.lamp" empty_boundary
      (handle_pairing lamp_driver clock pairing_start empty_boundary).1
handle_pairing-IsPairedOrKept_example =
    handle_pairing-IsPairedOrKept lamp_driver clock pairing_start empty_boundary pairing-accepted
