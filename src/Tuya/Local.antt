-- ===== src/Tuya/Local.antt =====
-- tuya.py: class TuyaLocalDriver. Its state, its small methods, and what it calls outside of the program.
pub mod Closing
pub mod Link
pub mod Reader
pub mod Exchange
pub mod Polling
pub mod Pairing
pub mod Finding
pub mod Invariant
pub mod Events
pub mod Contract
use linker.Prelude.{
  ℕ, suc, ◌+◌, ◌%◌, ◌^◌, String, Bool, true, false, not, ◌&&◌, Option, none, some, List, [], ◌∷◌,
  ◌++◌, ℤ, nat_Eq, string_Eq, str_eq, if◌then◌else◌,
}
use linker.Python.Exc.{Exc, Result, ok, err, connection_error, cancelled, configuration_error}
use linker.Python.Action.{Action, pure, raise, lift, inspect, modify, ◌>>=◌, ◌>>◌}
use linker.Python.Dict.{Dict, get, put, contains, remove}
use linker.Python.Text.{codes, concat}
use linker.Python.Value.{Value}
use linker.Models.Light
use linker.Models.Light.{LightState}
use linker.Tuya.Config.{Address, TuyaDeviceConfig, TuyaPairingConfig, TuyaDiscoveryOptions}
use linker.Tuya.Discovery.{Found}
use linker.Tuya.Dps.{Dps, Reading}
use linker.Tuya.Frame.{TuyaFrame, Digests}
use linker.Tuya.Mapping.{TuyaDpMapping, White}
use linker.Tuya.Mapping.Color.{Colorsys}
use linker.Tuya.Payload.{Cryptography, Encodings}

-- What one call of `_read_frame` gets from the peer: bytes, or the end of the connection.
pub data Arrival : Type 0 where
  bytes : List ℕ → Arrival
  lost : Exc → Arrival

-- What the program calls outside of itself. The numbered functions answer the n-th call that the driver
-- makes: `open_connection` and `drain` under their `wait_for`, `wait_closed`, the reads while a future or a
-- frame is awaited, a callback, the file operations of the pairing state, and the clock.
pub record Outside : Type 0 where
  pub crypto : Cryptography
  pub encodings : Encodings
  pub digests : Digests
  pub reading : Reading
  pub colorsys : Colorsys
  pub ip_address : String → Option Address
  pub sha256_hex : String → String
  pub dumps : Value → List ℕ
  pub open_connection : ℕ → Result (Unit {0})
  pub drain : ℕ → Result (Unit {0})
  pub wait_closed : ℕ → Result (Unit {0})
  pub arrivals : ℕ → List Arrival
  pub callback : ℕ → LightState → ℕ → Result (Unit {0})
  pub write_file : ℕ → Result (Unit {0})
  pub now : ℕ → ℕ

-- The file of `state_path`: it is not there, it cannot be read as JSON, or it holds a JSON value.
pub data StateFile : Type 0 where
  missing unreadable : StateFile
  json : Value → StateFile

-- The object. `writer` holds whether it is closing and `reader_task` whether it is done. A `_Pending` is the
-- number of its future; `futures` holds the outcomes of the futures that are done, and `made` counts all of
-- them. A list in `callbacks` has a number, by which a closure that holds the list finds it under any id, and
-- `lists` counts the lists. `has_state_path` says whether a
-- `state_path` is given, and `state_file` is what stands there. `ticks` counts the
-- calls to the outside; `sent`, `slept` and `published` log what was written to the peer, the times slept in
-- milliseconds, and the states that callbacks got, the last one first.
pub record TuyaLocalDriver : Type 0 where
  pub device : Option TuyaDeviceConfig
  pub discovery_options : TuyaDiscoveryOptions
  pub pairing : Option TuyaPairingConfig
  pub has_state_path : Bool
  pub state_file : StateFile
  pub paired_light_id : Option String
  pub discovered : Dict String Found
  pub writer : Option Bool
  pub has_reader : Bool
  pub reader_task : Option Bool
  pub pending : Dict ℕ ℕ
  pub futures : Dict ℕ (Result TuyaFrame)
  pub made : ℕ
  pub callbacks : Dict String (ℕ × List ℕ)
  pub lists : ℕ
  pub raw_dps : Dps
  pub sequence : ℕ
  pub session_key : Option (List ℕ)
  pub state : Option LightState
  pub last_error : Option String
  pub ticks : ℕ
  pub sent : List (List ℕ)
  pub slept : List ℕ
  pub published : List (ℕ × LightState)

abbrev pub Io : Type 0 → Type 0
Io A = Action TuyaLocalDriver A

-- `__init__`, before `_load_pairing_state`.
unfoldable pub blank :
    Option TuyaDeviceConfig
    → TuyaDiscoveryOptions
    → Option TuyaPairingConfig
    → Bool
    → StateFile
    → TuyaLocalDriver
blank device options pairing has_state_path state_file = record {
  device = device;
  discovery_options = options;
  pairing = pairing;
  has_state_path = has_state_path;
  state_file = state_file;
  paired_light_id = none;
  discovered = [];
  writer = none;
  has_reader = false;
  reader_task = none;
  pending = [];
  futures = [];
  made = 0;
  callbacks = [];
  lists = 0;
  raw_dps = [];
  sequence = 0;
  session_key = none;
  state = none;
  last_error = none;
  ticks = 0;
  sent = [];
  slept = [];
  published = [];
}

-- The next call to the outside.
abbrev pub tick : TuyaLocalDriver → TuyaLocalDriver
tick s = record s { ticks = suc s.ticks }

abbrev pub outside : {A : Type 0} → (ℕ → A) → Io A
outside f s = (ok (f s.ticks), tick s)

abbrev pub outside_call : {A : Type 0} → (ℕ → Result A) → Io A
outside_call f s = (f s.ticks, tick s)

abbrev pub required : {A : Type 0} → Option A → String → Result A
required none text = err (configuration_error text)
required (some a) text = ok a

abbrev pub no_device : String
no_device =
    "real device configuration is required for connect/poll/commands; discovery may run without it"

-- The property `device`
unfoldable pub device : Io TuyaDeviceConfig
device s = (required s.device no_device, s)

-- `_mapping`
unfoldable pub mapping_of : Io TuyaDpMapping
unfolding device
mapping_of =
    device >>= λ d. lift (required d.dps "DP mapping is required for state mapping and control")

-- `_white_dp`
unfoldable pub white_dp : Io ℕ
unfolding mapping_of
white_dp = mapping_of >>= λ m.
    lift (required m.white "white channel is not configured for this device") >>= λ w. pure w.dp

abbrev pub check_id : String → TuyaDeviceConfig → Result (Unit {0})
check_id device_id d =
    if str_eq device_id d.device_id
    then ok tt
    else err (
        configuration_error
          (concat "device_id '" (concat device_id "' is not configured for this driver")))

-- `_check_device`
unfoldable pub check_device : String → Io (Unit {0})
unfolding device
check_device device_id = device >>= λ d. lift (check_id device_id d)

-- `_candidate_id`
unfoldable pub candidate_id : Outside → String → String
candidate_id out device_id = concat "light." (out.sha256_hex device_id)

-- `_next_sequence`
unfoldable pub next_sequence : Io ℕ
next_sequence s = let n = (s.sequence + 1) % 2 ^ 32 in (ok n, record s { sequence = n })

abbrev next_revision : Option LightState → ℕ
next_revision none = 0
next_revision (some state) = state.state_revision + 1

-- `_revisioned`: `replace` runs the checks again.
unfoldable pub revisioned : LightState → Io LightState
revisioned state s = (Light.new (record state { state_revision = next_revision s.state }), s)

-- `self._writer is not None and not self._writer.is_closing()`
abbrev pub is_open : TuyaLocalDriver → Bool
is_open s = elim s.writer [ none ↦ false | some closing ↦ not closing ]

-- `self._reader_task is not None and not self._reader_task.done()`
abbrev pub is_reading : TuyaLocalDriver → Bool
is_reading s = elim s.reader_task [ none ↦ false | some done ↦ not done ]

-- `health`, without its time: the connection, and the last error.
unfoldable pub health : TuyaLocalDriver → Bool × Option String
health s = (is_open s && is_reading s, s.last_error)

-- `future.set_result` or `set_exception` where `not future.done()`
abbrev pub settle : ℕ → Result TuyaFrame → Dict ℕ (Result TuyaFrame) → Dict ℕ (Result TuyaFrame)
settle future outcome futures =
    if contains futures future then futures else put futures future outcome

-- `set_exception` for all that are pending
unfoldable pub settle_all : Dict ℕ ℕ → Exc → Dict ℕ (Result TuyaFrame) → Dict ℕ (Result TuyaFrame)
settle_all [] e futures = futures
settle_all ((sequence, future) ∷ pending) e futures =
    settle_all pending e (settle future (err e) futures)

-- What `disconnect` resets before it closes the writer.
unfoldable pub reset : TuyaLocalDriver → TuyaLocalDriver
unfolding settle_all
reset s = record s {
  reader_task = none;
  writer = none;
  has_reader = false;
  session_key = none;
  futures = settle_all s.pending (connection_error "Tuya device disconnected") s.futures;
  pending = [];
}

abbrev pub close : Outside → Option Bool → Io (Unit {0})
close out none = pure tt
close out (some closing) = outside_call out.wait_closed

-- `disconnect`
unfoldable pub disconnect : Outside → Io (Unit {0})
unfolding reset
disconnect out s = close out s.writer (reset s)
