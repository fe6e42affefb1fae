-- ===== src/Tuya/Local/Polling.antt =====
-- tuya.py: `poll_state`, `inspect_dps`, `_set_values`, the light's operations, `descriptor` and
-- `subscribe_state` of TuyaLocalDriver.
use linker.Prelude.{
  ℕ, suc, String, Bool, Option, none, some, List, [], ◌∷◌, ◌++◌, ℤ, pos, nat_eq, nat_Eq, string_Eq,
  str_eq, if◌then◌else◌,
}
use linker.Python.Exc.{Result, ok}
use linker.Python.Action.{pure, lift, inspect, modify, ◌>>=◌, ◌>>◌}
use linker.Python.Dict.{Dict, get, put}
use linker.Python.Text.{show_nat}
use linker.Python.Value.{Value, Fields, end, field, null, int, str, obj}
use linker.Models.Rgb.{Rgb}
use linker.Models.Light.{LightState}
use linker.Models.Descriptor
use linker.Models.Descriptor.{DeviceDescriptor}
use linker.Tuya.Config.{TuyaDeviceConfig}
use linker.Tuya.Control.{
  turn_on_values, turn_off_values, set_brightness_values, set_rgb_values, set_white_values,
}
use linker.Tuya.Dps.{Dps, parse_dps}
use linker.Tuya.Mapping.{TuyaDpMapping}
use linker.Tuya.Local.{
  Outside, TuyaLocalDriver, Io, outside, device, mapping_of, white_dp, check_device,
}
use linker.Tuya.Local.Reader.{mapped_state}
use linker.Tuya.Local.Exchange.{exchange}

abbrev pub is_34 : TuyaDeviceConfig → Bool
is_34 d = str_eq d.protocol_version "3.4"

-- COMMAND_DP_QUERY_NEW or COMMAND_DP_QUERY
abbrev pub query_command : TuyaDeviceConfig → ℕ
query_command d = if is_34 d then 16 else 10

-- COMMAND_CONTROL_NEW or COMMAND_CONTROL
abbrev pub control_command : TuyaDeviceConfig → ℕ
control_command d = if is_34 d then 13 else 7

-- `{str(k): v for k, v in values.items()}`
unfoldable pub keyed : Dps → Fields
keyed [] = end
keyed ((k, v) ∷ values) = field (show_nat k) v (keyed values)

-- The body of `poll_state`
unfoldable pub query_body : TuyaDeviceConfig → TuyaDpMapping → Value
unfolding keyed
query_body d m =
    if is_34 d
    then obj end
    else obj (
        field "dps" (obj (keyed ((m.power, null) ∷ (m.brightness, null) ∷ (m.color, null) ∷ [])))
          end)

abbrev with_ids : TuyaDeviceConfig → ℕ → Fields → Value
with_ids d now dps = obj (
    field "devId" (str d.device_id)
      (field "uid" (str d.device_id) (field "t" (int (pos now)) (field "dps" (obj dps) end))))

-- The body of `inspect_dps`
unfoldable pub inspect_body : TuyaDeviceConfig → ℕ → Value
inspect_body d now = if is_34 d then obj end else with_ids d now end

-- The body of `_set_values`
unfoldable pub control_body : TuyaDeviceConfig → ℕ → Dps → Value
unfolding keyed
control_body d now values =
    if is_34 d
    then obj (
        field "protocol" (int (pos 5)) (
          field "t" (int (pos now))
            (field "data" (obj (field "dps" (obj (keyed values)) end)) end)))
    else with_ids d now (keyed values)

-- `self._raw_dps = parse_dps(payload)`
unfoldable pub read_dps : Outside → List ℕ → Io Dps
read_dps out payload = lift (parse_dps out.reading payload) >>= λ dps.
    modify (λ s. record s { raw_dps = dps }) >> pure dps

abbrev pub set_state : LightState → Io LightState
set_state state = modify (λ s. record s { state = some state }) >> pure state

-- `poll_state`, behind its checks.
unfoldable pub poll_device : Outside → TuyaDeviceConfig → Io LightState
unfolding mapping_of query_body exchange read_dps mapped_state
poll_device out d = mapping_of >>= λ m.
    exchange out (query_command d) (out.dumps (query_body d m)) >>= λ payload.
    read_dps out payload >>= λ dps. mapped_state out d m >>= set_state

-- `poll_state`
unfoldable pub poll_state : Outside → String → Io LightState
unfolding device check_device poll_device
poll_state out device_id = check_device device_id >> (device >>= poll_device out)

-- `inspect_dps`
unfoldable pub inspect_dps : Outside → Io Dps
unfolding device inspect_body exchange read_dps
inspect_dps out = device >>= λ d. outside out.now >>= λ now.
    exchange out (query_command d) (out.dumps (inspect_body d now)) >>= read_dps out

-- `_set_values`, with the confirmed state that is read after the write.
unfoldable pub set_values : Outside → Dps → Io LightState
unfolding device control_body exchange poll_state
set_values out values = device >>= λ d. outside out.now >>= λ now.
    exchange out (control_command d) (out.dumps (control_body d now values)) >>= λ answer.
    poll_state out d.device_id >>= set_state

unfoldable pub turn_on : Outside → String → Option Rgb → Option ℤ → Option ℤ → Io LightState
unfolding check_device mapping_of set_values
turn_on out device_id rgb brightness white =
    check_device device_id
    >> (mapping_of >>= λ m.
        lift (turn_on_values out.colorsys m rgb brightness white) >>= set_values out)

unfoldable pub turn_off : Outside → String → Io LightState
unfolding check_device mapping_of set_values
turn_off out device_id =
    check_device device_id >> (mapping_of >>= λ m. set_values out (turn_off_values m))

unfoldable pub set_brightness : Outside → String → ℤ → Io LightState
unfolding check_device mapping_of set_values
set_brightness out device_id brightness =
    check_device device_id
    >> (mapping_of >>= λ m. lift (set_brightness_values m brightness) >>= set_values out)

unfoldable pub set_rgb : Outside → String → Rgb → Io LightState
unfolding check_device mapping_of set_values
set_rgb out device_id rgb =
    check_device device_id
    >> (mapping_of >>= λ m. set_values out (set_rgb_values out.colorsys m rgb))

unfoldable pub set_white : Outside → String → ℤ → Io LightState
unfolding check_device mapping_of white_dp set_values
set_white out device_id white =
    check_device device_id
    >> (mapping_of >>= λ m. white_dp >>= λ dp. lift (set_white_values m white) >>= set_values out)

-- `_descriptor`, of a driver that has a device.
unfoldable pub device_descriptor : TuyaDeviceConfig → String → Result DeviceDescriptor
device_descriptor d id = Descriptor.new (record {
  id = id;
  name = d.public_name;
  color_modes = elim d.dps [
    | none ↦ "RGB" ∷ []
    | some m ↦ elim m.white [ none ↦ "RGB" ∷ [] | some w ↦ "RGBW" ∷ [] ]
  ];
})

abbrev pub with_id : DeviceDescriptor → Option String → Result DeviceDescriptor
with_id descriptor none = ok descriptor
with_id descriptor (some id) = Descriptor.new (record descriptor { id = id })

-- `descriptor`: the checks run on the device's id first, and `replace` runs them again.
unfoldable pub descriptor : Option String → Io DeviceDescriptor
unfolding device device_descriptor
descriptor light_id = device >>= λ d.
    lift (device_descriptor d d.device_id) >>= λ descriptor. lift (with_id descriptor light_id)

-- `setdefault(device_id, [])`: the list and its number.
abbrev list_of : Option (ℕ × List ℕ) → ℕ → ℕ × List ℕ
list_of none lists = (lists, [])
list_of (some entry) lists = entry

abbrev lists_after : Option (ℕ × List ℕ) → ℕ → ℕ
lists_after none lists = suc lists
lists_after (some entry) lists = lists

abbrev pub add_callback : String → ℕ → TuyaLocalDriver → TuyaLocalDriver
add_callback device_id callback s =
    let (number, callbacks) = list_of (get s.callbacks device_id) s.lists in
    record s {
      callbacks = put s.callbacks device_id (number, callbacks ++ (callback ∷ []));
      lists = lists_after (get s.callbacks device_id) s.lists;
    }

abbrev list_number : String → TuyaLocalDriver → ℕ
list_number device_id s =
    let (number, callbacks) = list_of (get s.callbacks device_id) s.lists in number

-- `subscribe_state`: the number of the list that `unsubscribe` holds
unfoldable pub subscribe_state : String → ℕ → Io ℕ
unfolding check_device
subscribe_state device_id callback =
    check_device device_id
    >> inspect λ s. modify (add_callback device_id callback) >> pure (list_number device_id s)

abbrev pub remove_first : ℕ → List ℕ → List ℕ
remove_first callback [] = []
remove_first callback (c ∷ callbacks) =
    if nat_eq c callback then callbacks else c ∷ remove_first callback callbacks

-- The list with this number, under whatever id it stands. A list that is in the dict no more is not seen again.
unfoldable pub drop_callback : ℕ → ℕ → Dict String (ℕ × List ℕ) → Dict String (ℕ × List ℕ)
drop_callback list callback [] = []
drop_callback list callback ((id, (number, callbacks)) ∷ rest) =
    (id, (number, if nat_eq number list then remove_first callback callbacks else callbacks))
    ∷ drop_callback list callback rest

-- `unsubscribe`, which `subscribe_state` returns
unfoldable pub unsubscribe : ℕ → ℕ → Io (Unit {0})
unfolding drop_callback
unsubscribe list callback =
    modify λ s. record s { callbacks = drop_callback list callback s.callbacks }
