-- ===== src/Tuya/Local/Events.antt =====
-- A TuyaLocalDriver over its life: its methods one after the other, and passes of its reader in between.
pub mod Valid
pub mod Constructed
pub mod Reachable
use linker.Prelude.{ℕ, String, Bool, Option, none, some, List, ℤ, ◌≡◌}
use linker.Python.Exc.{ok}
use linker.Models.Rgb.{Rgb}
use linker.Tuya.Config.{TuyaDeviceConfig, TuyaDiscoveryOptions, TuyaPairingConfig}
use linker.Tuya.Scan.{Lan}
use linker.Tuya.Local.{Outside, Arrival, StateFile, TuyaLocalDriver, disconnect}
use linker.Tuya.Local.Link.{connect}
use linker.Tuya.Local.Reader.{reader_step}
use linker.Tuya.Local.Polling.{
  poll_state, inspect_dps, turn_on, turn_off, set_brightness, set_rgb, set_white, subscribe_state,
  unsubscribe,
}
use linker.Tuya.Local.Pairing.{pair, new_driver}
use linker.Tuya.Local.Finding.{discover}

-- A call of a method, or what arrives for the reader. A scan comes with what it hears.
pub data Event : Type 0 where
  connects disconnects inspects : Event
  arrives : Arrival → Event
  polls turns_off : String → Event
  turns_on : String → Option Rgb → Option ℤ → Option ℤ → Event
  sets_brightness sets_white : String → ℤ → Event
  sets_rgb : String → Rgb → Event
  subscribes : String → ℕ → Event
  unsubscribes : ℕ → ℕ → Event
  discovers : Lan → ℕ → Event
  pairs : String → Event

-- The state behind an event, whether the method returns or raises.
abbrev pub step : Outside → Event → TuyaLocalDriver → TuyaLocalDriver
step out connects s = (connect out s).1
step out disconnects s = (disconnect out s).1
step out inspects s = (inspect_dps out s).1
step out (arrives a) s = reader_step out a s
step out (polls id) s = (poll_state out id s).1
step out (turns_off id) s = (turn_off out id s).1
step out (turns_on id rgb brightness white) s = (turn_on out id rgb brightness white s).1
step out (sets_brightness id brightness) s = (set_brightness out id brightness s).1
step out (sets_white id white) s = (set_white out id white s).1
step out (sets_rgb id rgb) s = (set_rgb out id rgb s).1
step out (subscribes id callback) s = (subscribe_state id callback s).1
step out (unsubscribes list callback) s = (unsubscribe list callback s).1
step out (discovers lan timeout) s = (discover out lan timeout s).1
step out (pairs candidate) s = (pair out candidate s).1

-- A driver that can be reached from its construction.
pub data Reach (out : Outside) : TuyaLocalDriver → Type 0 where
  constructed :
      (device : Option TuyaDeviceConfig) (options : TuyaDiscoveryOptions)
      (pairing : Option TuyaPairingConfig) (has_path : Bool) (file : StateFile)
      (s : TuyaLocalDriver)
      → new_driver out device options pairing has_path file ≡ (ok tt, s)
      → Reach out s
  after : {s : TuyaLocalDriver} (event : Event) → Reach out s → Reach out (step out event s)
