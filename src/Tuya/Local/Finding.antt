-- ===== src/Tuya/Local/Finding.antt =====
-- tuya.py: `discover` and `_discovery_descriptor` of TuyaLocalDriver.
use linker.Prelude.{ℕ, String, List, [], ◌∷◌, string_Eq, if◌then◌else◌}
use linker.Python.Exc.{Result}
use linker.Python.Action.{pure, lift, inspect, modify, ◌>>=◌, ◌>>◌}
use linker.Python.Dict.{put}
use linker.Models.Descriptor
use linker.Models.Descriptor.{DeviceDescriptor}
use linker.Tuya.Discovery.{Found}
use linker.Tuya.Scan.{Lan, discover_sync}
use linker.Tuya.Local.{Outside, TuyaLocalDriver, Io, candidate_id}

-- `_discovery_descriptor`
unfoldable pub discovery_descriptor : Outside → String → Result DeviceDescriptor
unfolding candidate_id
discovery_descriptor out device_id =
    Descriptor.new
      (record { id = candidate_id out device_id; name = "LED lamp"; color_modes = "RGB" ∷ [] })

abbrev pub add_found : Outside → Found → TuyaLocalDriver → TuyaLocalDriver
add_found out item s = record s { discovered = put s.discovered (candidate_id out item.id) item }

abbrev pub clear_found : TuyaLocalDriver → TuyaLocalDriver
clear_found s = record s { discovered = [] }

-- One pass of the loop over the devices that the scan found.
unfoldable pub describe_one : Outside → Found → Io DeviceDescriptor
unfolding discovery_descriptor
describe_one out item = modify (add_found out item) >> lift (discovery_descriptor out item.id)

unfoldable pub describe : Outside → List Found → Io (List DeviceDescriptor)
unfolding describe_one
describe out [] = pure []
describe out (item ∷ found) =
    describe_one out item >>= λ descriptor. describe out found >>= λ rest. pure (descriptor ∷ rest)

-- `discover`
unfoldable pub discover : Outside → Lan → ℕ → Io (List DeviceDescriptor)
unfolding describe
discover out lan timeout =
    modify clear_found
    >> inspect λ s.
      if s.discovery_options.enabled
      then lift (discover_sync lan s.discovery_options timeout) >>= describe out
      else pure []
