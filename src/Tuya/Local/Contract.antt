-- ===== src/Tuya/Local/Contract.antt =====
-- TuyaLocalDriver as the driver of a LinkerBoundary, as cli.py builds it. The boundary's own time limits
-- cut no call off here: the scan and the exchange have theirs.
pub mod Publishing
use linker.Prelude.{ℕ, String, Option, none, some, ℤ, pos}
use linker.Python.Exc.{Result, ok, err, configuration_error}
use linker.Python.Action.{pure, raise}
use linker.Models.Rgb.{Rgb}
use linker.Models.Light.{LightState}
use linker.Driver.{VendorRgbDriver}
use linker.Tuya.Scan.{Lan}
use linker.Server.Publisher.{Watched}
use linker.Tuya.Local.{Outside, TuyaLocalDriver, Io, disconnect}
use linker.Tuya.Local.Link.{connect}
use linker.Tuya.Local.Polling.{
  turn_on, turn_off, set_brightness, set_rgb, subscribe_state, unsubscribe, poll_state,
}
use linker.Tuya.Local.Pairing.{pair}
use linker.Tuya.Local.Finding.{discover}

-- A call for a device that the boundary does not know; `_check_device(None)` raises.
abbrev pub of_device : {A : Type 0} → (String → Io A) → Option String → Io A
of_device call none = raise (configuration_error "device_id None is not configured for this driver")
of_device call (some id) = call id

-- The operations that the boundary calls. `heard` are the datagrams of the scan at a time.
abbrev pub tuya_driver : Outside → (ℕ → Lan) → VendorRgbDriver TuyaLocalDriver
tuya_driver out heard = record {
  discover = λ timeout wait s. discover out (heard s.ticks) timeout s;
  pair = some (λ candidate wait s. pair out candidate s);
  turn_on = λ device. of_device (λ id. turn_on out id none none none) device;
  turn_off = λ device. of_device (turn_off out) device;
  set_brightness = λ device level. of_device (λ id. set_brightness out id (pos level)) device;
  set_rgb = λ device color. of_device (λ id. set_rgb out id color) device;
}

-- The operations that the state publisher of the server's client calls; `callback` is its `publish`.
abbrev pub tuya_watched : Outside → ℕ → Watched TuyaLocalDriver
tuya_watched out callback = record {
  connect = connect out;
  disconnect = disconnect out;
  subscribe_state = of_device λ id. subscribe_state id callback;
  unsubscribe = λ list. unsubscribe list callback;
  poll_state = of_device (poll_state out);
}
