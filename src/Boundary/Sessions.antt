-- ===== src/Boundary/Sessions.antt =====
-- boundary.py: `register`, `state`, `handle_discovery`, `handle_pairing` and the dispatch of `handle`.
-- Times are in hundredths of a second, in which the constants of the source are whole.
pub mod Timing
pub mod Messages
pub mod Pairing
pub mod Privacy
use linker.Prelude.{
  ℕ, ◌+◌, ◌-◌, ◌*◌, String, Bool, true, false, not, ◌||◌, Option, none, some, ◌≡◌, List, [], ◌∷◌,
  ◌++◌, max, str_eq, if◌then◌else◌,
}
use linker.Python.Exc.{
  Exc, Result, ok, err, value_error, pairing_error, timeout_error, cancelled, message, guard,
  raise_if,
}
use linker.Python.Exc
use linker.Python.Uuid.{show_uuid}
use linker.Python.Value.{Value, Items, nil, cons, null, str, arr}
use linker.Models.Light
use linker.Models.Light.{LightState}
use linker.Models.Descriptor
use linker.Models.Descriptor.{
  DeviceDescriptor, DiscoveryCandidate, from_descriptor, candidate_payload,
}
use linker.Protocol.{Envelope, Payload}
use linker.Driver.{VendorRgbDriver}
use linker.Boundary.{LinkerBoundary, Stamps, Action, pure, raise, lift, ◌>>=◌, make_envelope}
use linker.Boundary.Requests.{discovery_request, pairing_request}
use linker.Boundary.Commands.{handle_command}

-- `max(DISCOVERY_MIN_SCAN_S, timeout_s - DISCOVERY_PROTOCOL_MARGIN_S)`
unfoldable pub scan_time : ℕ → ℕ
scan_time timeout_s = max 50 (100 * timeout_s - 25)

-- The wait around the driver's call: DISCOVERY_DRIVER_RETURN_MARGIN_S more.
unfoldable pub scan_wait : ℕ → ℕ
unfolding scan_time
scan_wait timeout_s = scan_time timeout_s + 10

-- `max(0.5, timeout_s - PAIRING_PROTOCOL_MARGIN_S)`
unfoldable pub pairing_wait : ℕ → ℕ
pairing_wait timeout_s = max 50 (100 * timeout_s - 25)

-- A text or None
abbrev pub text_or_null : Option String → Value
text_or_null none = null
text_or_null (some s) = str s

-- `tuple(DiscoveryCandidate.from_descriptor(descriptor) for descriptor in descriptors)`
unfoldable pub candidates_of : List DeviceDescriptor → Result (List DiscoveryCandidate)
candidates_of [] = ok []
candidates_of (d ∷ ds) =
    let rest = candidates_of ds in
    Exc.◌>>=◌ (from_descriptor d) (λ c. Exc.◌>>=◌ rest (λ cs. ok (c ∷ cs)))

unfoldable pub completed_payload : ℕ → String → Option String → Payload
completed_payload session status error =
    ("session_id", str (show_uuid session))
    ∷ ("status", str status)
    ∷ ("error", text_or_null error)
    ∷ []

-- What `except` makes of an exception of the scan: the text of the failure, or none for a cancellation.
unfoldable pub discovery_failure : Exc → Option String
discovery_failure cancelled = none
discovery_failure (timeout_error m) = some "discovery timed out"
discovery_failure e = some "discovery failed"

unfoldable pub pairing_failure : Exc → Option String
pairing_failure cancelled = none
pairing_failure (timeout_error m) = some "pairing timed out"
pairing_failure (pairing_error m) = some m
pairing_failure e =
    some "device verification failed; check Linker local key, protocol, and DP mapping"

-- The checks of what `pair` returned.
unfoldable pub checked_pairing :
    String → DeviceDescriptor × String → Result (DeviceDescriptor × String)
checked_pairing candidate (d, device) =
    if str_eq device ""
    then err (value_error "driver returned an invalid pairing result")
    else if str_eq d.id candidate
    then ok (d, device)
    else err (value_error "driver paired a different candidate")

module _ {D : Type 0} (drv : VendorRgbDriver D) (stamps : Stamps) where
  -- `_discovery_completed`
  unfoldable pub discovery_completed : Envelope → ℕ → String → Option String → Action D Envelope
  discovery_completed start session status error =
      make_envelope stamps "discovery.completed" (some start.id)
        (completed_payload session status error)

  -- One discovery.candidate for each candidate, in order.
  unfoldable pub candidate_messages :
      Envelope → ℕ → List DiscoveryCandidate → Action D (List Envelope)
  candidate_messages start session [] = pure []
  candidate_messages start session (c ∷ cs) = do
    m ←
        make_envelope stamps "discovery.candidate" (some start.id)
          (("session_id", str (show_uuid session)) ∷ candidate_payload c)
    ms ← candidate_messages start session cs
    pure (m ∷ ms)

  -- The answer to the exception `e`, whose text for the server is given.
  unfoldable pub failed_discovery : Envelope → ℕ → Exc → Option String → Action D (List Envelope)
  failed_discovery start session e none = raise e
  failed_discovery start session e (some text) = do
    done ← discovery_completed start session "failed" (some text)
    pure (done ∷ [])

  -- The messages by how the scan ended.
  unfoldable pub discovery_messages :
      Envelope → ℕ → Result (List DiscoveryCandidate) → Action D (List Envelope)
  discovery_messages start session (ok cs) = do
    ms ← candidate_messages start session cs
    done ← discovery_completed start session "completed" none
    pure (ms ++ (done ∷ []))
  discovery_messages start session (err e) = failed_discovery start session e (discovery_failure e)

  -- The awaited scan of the driver, and the checks of its candidates.
  abbrev pub scan : ℕ → ℕ → Action D (Result (List DiscoveryCandidate))
  scan timeout_s wait s =
      let (r, d) = drv.discover timeout_s wait s.driver in
      (ok (Exc.◌>>=◌ r candidates_of), record s { driver = d })

  unfoldable pub handle_discovery : Envelope → Action D (List Envelope)
  handle_discovery start = do
    (session, timeout_s) ← lift (discovery_request start)
    found ← scan (scan_time timeout_s) (scan_wait timeout_s)
    discovery_messages start session found

  -- The payload of `_pairing_completed`: the device only where the pairing is completed.
  unfoldable pub pairing_payload :
      ℕ → String → String → Option String → Option DeviceDescriptor → Payload
  pairing_payload session candidate status error descriptor =
      (("session_id", str (show_uuid session))
        ∷ ("candidate_id", str candidate)
        ∷ ("status", str status)
        ∷ ("error", text_or_null error)
        ∷ [])
      ++ elim descriptor [
        | none ↦ []
        | some d ↦
            if str_eq status "completed" then ("device", Descriptor.to_payload d) ∷ [] else []
      ]

  unfoldable pub pairing_completed :
      Envelope → ℕ → String → String → Option String → Action D Envelope
  pairing_completed start session candidate status error s =
      make_envelope stamps "pairing.completed" (some start.id)
        (pairing_payload session candidate status error s.descriptor) s

  -- The awaited call of `pair`, which the driver may lack, with the checks behind it.
  unfoldable pub run_pair : String → ℕ → D → Result (DeviceDescriptor × String) × D
  run_pair candidate timeout_s d = elim drv.pair [
    | none ↦ (err (pairing_error "this Linker does not support pairing"), d)
    | some pair ↦
        let (r, d') = pair candidate (pairing_wait timeout_s) d in
        (Exc.◌>>=◌ r (checked_pairing candidate), d')
  ]

  unfoldable pub failed_pairing :
      Envelope → ℕ → String → Exc → Option String → Action D (List Envelope)
  failed_pairing start session candidate e none = raise e
  failed_pairing start session candidate e (some text) = do
    m ← pairing_completed start session candidate "failed" (some text)
    pure (m ∷ [])

  -- The boundary takes the device of a pairing that succeeded.
  unfoldable pub finish_pairing :
      Envelope → ℕ → String → Result (DeviceDescriptor × String) → Action D (List Envelope)
  finish_pairing start session candidate (ok (d, device)) s =
      (do m ← pairing_completed start session candidate "completed" none; pure (m ∷ []))
        (record s { descriptor = some d; light_id = some d.id; device_id = some device })
  finish_pairing start session candidate (err e) s =
      failed_pairing start session candidate e (pairing_failure e) s

  abbrev pub call_pair : String → ℕ → Action D (Result (DeviceDescriptor × String))
  call_pair candidate timeout_s s =
      let (r, d) = run_pair candidate timeout_s s.driver in (ok r, record s { driver = d })

  unfoldable pub handle_pairing : Envelope → Action D (List Envelope)
  handle_pairing start = do
    (session, candidate, timeout_s) ← lift (pairing_request start)
    paired ← call_pair candidate timeout_s
    finish_pairing start session candidate paired

  -- `handle`: a light command has one answer.
  unfoldable pub handle : Envelope → Action D (List Envelope)
  handle command =
      if str_eq command.kind "discovery.start"
      then handle_discovery command
      else if str_eq command.kind "pairing.start"
      then handle_pairing command
      else do r ← handle_command drv stamps command; pure (r ∷ [])

  -- `state`
  unfoldable pub state_message : LightState → Action D Envelope
  state_message state s =
      (do
        payload ← lift (Light.to_payload state s.light_id)
        make_envelope stamps "light.state.reported" none payload)
        s

  -- `register`
  unfoldable pub register : Action D Envelope
  register s =
      make_envelope stamps "link.register" none
        ((("id", str s.config.id)
            ∷ ("version", str s.config.version)
            ∷ ("name", str s.config.name)
            ∷ ("transports", arr (cons (str s.config.transport) nil))
            ∷ [])
          ++ elim s.descriptor [
            | none ↦ []
            | some d ↦ ("devices", arr (cons (Descriptor.to_payload d) nil)) ∷ []
          ])
        s
