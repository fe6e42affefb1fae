-- ===== src/Driver.antt =====
-- src/openhdo_linker/driver.py: the driver contract and the reconnect policy.
pub mod Supervisor
use linker.Prelude.{ℕ, String, Option, List}
use linker.Python.Exc.{Result}
use linker.Models.Rgb.{Rgb}
use linker.Models.Light.{LightState}
use linker.Models.Descriptor.{DeviceDescriptor}

-- Of the protocol VendorRgbDriver the operations that the boundary calls, without the arguments that those
-- calls fix (`turn_on` gets None for its values) or that only name the command, and `pair`, which a driver may
-- lack. A call takes the driver's state and
-- returns or raises, with the state behind it. `discover` takes its time in hundredths of a second, and so do
-- `discover` and `pair` the time that the caller waits for them: a call that is cut off raises TimeoutError.
pub record VendorRgbDriver (D : Type 0) : Type 0 where
  pub discover : ℕ → ℕ → D → Result (List DeviceDescriptor) × D
  pub pair : Option (String → ℕ → D → Result (DeviceDescriptor × String) × D)
  pub turn_on : Option String → D → Result LightState × D
  pub turn_off : Option String → D → Result LightState × D
  pub set_brightness : Option String → ℕ → D → Result LightState × D
  pub set_rgb : Option String → Rgb → D → Result LightState × D
