-- ===== src/Tuya/Local/Pairing.antt =====
-- tuya.py: `pair`, `_save_pairing_state`, `_load_pairing_state` and the end of `__init__` of TuyaLocalDriver.
pub mod RollBack
pub mod Outcome
pub mod Restart
use linker.Prelude.{
  ℕ, ◌^◌, String, Bool, true, false, not, ◌&&◌, Option, none, some, List, [], ◌∷◌, pos, negsuc,
  nat_eq, string_Eq, str_eq, if◌then◌else◌,
}
use linker.Python.Exc.{
  Result, ok, err, Exc, configuration_error, pairing_error, value_error, type_error, os_error,
  is_value_error, guard, reraise,
}
use linker.Python.Exc
use linker.Python.Action.{pure, raise, lift, inspect, modify, on_error, ◌>>=◌, ◌>>◌}
use linker.Python.Dict.{Dict, get, put, remove}
use linker.Python.Value.{
  Value, Float, finite, null, bool, int, float, str, obj, end, field, to_dict,
}
use linker.Models.Light.{LightState}
use linker.Models.Descriptor.{DeviceDescriptor}
use linker.Tuya.Config.{TuyaDeviceConfig, TuyaPairingConfig, TuyaDiscoveryOptions, new_device}
use linker.Tuya.Discovery.{Found}
use linker.Tuya.Local.{
  Outside, StateFile, missing, unreadable, json, TuyaLocalDriver, Io, outside_call, candidate_id,
  disconnect, blank,
}
use linker.Tuya.Local.Link.{connect}
use linker.Tuya.Local.Polling.{poll_state, descriptor}

-- `TuyaDeviceConfig(...)` from the profile of the pairing.
unfoldable pub paired_device :
    Outside → TuyaPairingConfig → String → String → Result TuyaDeviceConfig
paired_device out profile ip device_id = new_device out.ip_address (record {
  ip = ip;
  device_id = device_id;
  local_key = profile.local_key;
  protocol_version = profile.protocol_version;
  dps = some profile.dps;
  public_name = profile.public_name;
  port = profile.port;
  timeout_s = profile.timeout_s;
  retries = profile.retries;
})

-- The JSON object that `_save_pairing_state` writes.
unfoldable pub saved_state : String → TuyaDeviceConfig → Value
saved_state candidate d = obj (
    field "version" (int (pos 1)) (
      field "candidate_id" (str candidate)
        (field "device_id" (str d.device_id) (field "ip" (str d.ip) end))))

-- `_save_pairing_state`. An error before `os.replace` leaves the file as it is.
unfoldable pub save_pairing_state : Outside → String → TuyaDeviceConfig → Io (Unit {0})
unfolding candidate_id saved_state
save_pairing_state out candidate d = inspect λ s.
    if not s.has_state_path
    then pure tt
    else if str_eq candidate (candidate_id out d.device_id)
    then outside_call out.write_file
      >> modify (λ t. record t { state_file = json (saved_state candidate d) })
    else raise (configuration_error "pairing state candidate does not match device")

-- The list of callbacks that stood under the id of the previous device; an empty list is dropped.
abbrev moved : Option (ℕ × List ℕ) → String → Dict String (ℕ × List ℕ) → Dict String (ℕ × List ℕ)
moved none device_id callbacks = callbacks
moved (some (number, [])) device_id callbacks = callbacks
moved (some (number, c ∷ cs)) device_id callbacks = put callbacks device_id (number, c ∷ cs)

unfoldable pub move_callbacks :
    Option TuyaDeviceConfig → String → Dict String (ℕ × List ℕ) → Dict String (ℕ × List ℕ)
move_callbacks none device_id callbacks = callbacks
move_callbacks (some previous) device_id callbacks =
    moved (get callbacks previous.device_id) device_id (remove callbacks previous.device_id)

abbrev pub start_pairing : TuyaDeviceConfig → TuyaLocalDriver → TuyaLocalDriver
start_pairing d s = record s { device = some d; state = none }

abbrev pub commit :
    Option TuyaDeviceConfig → TuyaDeviceConfig → String → TuyaLocalDriver → TuyaLocalDriver
commit previous d candidate s = record s {
  callbacks = move_callbacks previous d.device_id s.callbacks;
  paired_light_id = some candidate;
}

abbrev pub roll_back : Option TuyaDeviceConfig → Option String → TuyaLocalDriver → TuyaLocalDriver
roll_back device light_id s = record s { device = device; paired_light_id = light_id; state = none }

-- The device answers and reports its state.
unfoldable pub reach_device : Outside → TuyaDeviceConfig → Io LightState
unfolding connect poll_state
reach_device out d = connect out >> poll_state out d.device_id

-- The pairing is stored and takes its place in the driver.
unfoldable pub keep_pairing :
    Outside → Option TuyaDeviceConfig → TuyaDeviceConfig → String → Io (Unit {0})
unfolding save_pairing_state move_callbacks
keep_pairing out previous d candidate =
    save_pairing_state out candidate d >> modify (commit previous d candidate)

-- The block of `try` in `pair`, with its handler.
unfoldable pub confirm_pairing :
    Outside → Option TuyaDeviceConfig → Option String → TuyaDeviceConfig → String → Io (Unit {0})
unfolding reach_device keep_pairing disconnect
confirm_pairing out previous light_id d candidate =
    on_error (disconnect out >> modify (roll_back previous light_id))
      (reach_device out d >>= λ state. keep_pairing out previous d candidate)

abbrev pub found_item : Option Found → Result Found
found_item none = err (pairing_error "candidate expired; run Find again")
found_item (some item) = ok item

abbrev pub profile_of : Option TuyaPairingConfig → Result TuyaPairingConfig
profile_of none =
    err (
      pairing_error
        "pairing profile is missing; configure Linker local key and verified DP mapping")
profile_of (some profile) = ok profile

-- The device that `pair` connects to.
unfoldable pub chosen_device : Outside → String → TuyaLocalDriver → Result TuyaDeviceConfig
unfolding paired_device
chosen_device out candidate s =
    Exc.◌>>=◌ (found_item (get s.discovered candidate))
      λ item. Exc.◌>>=◌ (profile_of s.pairing) λ profile. paired_device out profile item.ip item.id

-- What `pair` returns.
unfoldable pub described : String → TuyaDeviceConfig → Io (DeviceDescriptor × String)
unfolding descriptor
described candidate d = descriptor (some candidate) >>= λ descriptor. pure (descriptor, d.device_id)

-- `pair`, of a device that is configured.
unfoldable pub pair_device :
    Outside
    → Option TuyaDeviceConfig
    → Option String
    → String
    → TuyaDeviceConfig
    → Io (DeviceDescriptor × String)
unfolding disconnect confirm_pairing described
pair_device out previous light_id candidate d =
    disconnect out
    >> (modify (start_pairing d)
        >> (confirm_pairing out previous light_id d candidate >> described candidate d))

-- `pair`
unfoldable pub pair : Outside → String → Io (DeviceDescriptor × String)
unfolding chosen_device pair_device
pair out candidate = inspect λ s.
    lift (chosen_device out candidate s) >>= pair_device out s.device s.paired_light_id candidate

-- `value != 1` of Python: True and 1.0 are equal to 1.
unfoldable pub is_one : Option Value → Bool
is_one (some (int (pos n))) = nat_eq n 1
is_one (some (bool b)) = b
is_one (some (float (finite (pos m) k))) = nat_eq m (2 ^ k)
is_one v = false

abbrev text_of : Option Value → Result String
text_of (some (str s)) = ok s
text_of v = err (value_error "")

-- The stored candidate must be the one of the stored device.
unfoldable pub checked_device :
    Outside → TuyaPairingConfig → String → String → String → Result (TuyaDeviceConfig × String)
unfolding candidate_id paired_device
checked_device out profile candidate device_id ip =
    Exc.◌>>◌ (guard (str_eq candidate (candidate_id out device_id)) (value_error ""))
      (Exc.◌>>=◌ (paired_device out profile ip device_id) λ device. ok (device, candidate))

-- The block of `try` in `_load_pairing_state`, on what `json.load` returns.
unfoldable pub stored_device :
    Outside → TuyaPairingConfig → Value → Result (TuyaDeviceConfig × String)
unfolding is_one checked_device
stored_device out profile (obj fields) =
    let d = to_dict fields in
    Exc.◌>>◌ (guard (is_one (get d "version")) (value_error "")) (
      Exc.◌>>=◌ (text_of (get d "candidate_id")) λ candidate.
        Exc.◌>>=◌ (text_of (get d "device_id")) λ device_id.
          Exc.◌>>=◌ (text_of (get d "ip")) λ ip. checked_device out profile candidate device_id ip)
stored_device out profile v = err (value_error "")

abbrev pub restore : TuyaDeviceConfig × String → TuyaLocalDriver → TuyaLocalDriver
restore (d, candidate) s = record s { device = some d; paired_light_id = some candidate }

abbrev pub invalid_state : Exc
invalid_state = configuration_error "pairing state is invalid"

unfoldable pub load_file : Outside → TuyaPairingConfig → StateFile → Io (Unit {0})
unfolding stored_device
load_file out profile missing = pure tt
load_file out profile unreadable = raise invalid_state
load_file out profile (json v) =
    lift (reraise is_value_error invalid_state (stored_device out profile v)) >>= λ stored.
    modify (restore stored)

-- `_load_pairing_state`
unfoldable pub load_pairing_state : Outside → TuyaPairingConfig → Io (Unit {0})
unfolding load_file
load_pairing_state out profile = inspect λ s. load_file out profile s.state_file

-- `TuyaLocalDriver(...)`
unfoldable pub new_driver :
    Outside
    → Option TuyaDeviceConfig
    → TuyaDiscoveryOptions
    → Option TuyaPairingConfig
    → Bool
    → StateFile
    → Result (Unit {0}) × TuyaLocalDriver
unfolding load_pairing_state blank
new_driver out none options (some profile) true file =
    load_pairing_state out profile (blank none options (some profile) true file)
new_driver out device options pairing has_path file =
    (ok tt, blank device options pairing has_path file)
