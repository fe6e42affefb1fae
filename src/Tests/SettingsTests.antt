-- ===== src/Tests/SettingsTests.antt =====
-- The theorem on RuntimeConfig, applied to a server in another place.
use linker.Prelude.{String, Bool, Option, none, some, false, ◌≡◌, refl, nat_Eq, string_Eq, pos}
use linker.Python.Exc.{Result, ok}
use linker.Python.Text.{is_space}
use linker.Python.Value.{finite}
use linker.Models.Identifier.{is_identifier}
use linker.Runtime.{is_blank}
use linker.Runtime.Settings
use linker.Runtime.Settings.{Url, RuntimeConfig, lower, is_local_host, check_mode, check_settings}
use linker.Runtime.Settings.Secure.{IsSecure, IsMode, new-IsSecure}
use linker.Tests.Samples.{config}
use linker.Tests.LocalSamples.{lamp_device}

abbrev away : Url
away = record {
  scheme = "wss";
  hostname = some "home.example";
  username = none;
  password = none;
  query = "";
  fragment = "";
}

abbrev no_address : String → Option Bool
no_address host = none

abbrev urlparse : String → Result Url
urlparse url = ok away

abbrev settings : RuntimeConfig
settings = record {
  server_url = "wss://home.example";
  linker = config;
  device = some lamp_device;
  light_id = some "light.lamp";
  state_poll_interval_s = finite (pos 15) 0;
  server_open_timeout_s = finite (pos 10) 0;
  server_api_token = some "secret";
  discovery_only = false;
  discovery_enabled = false;
  pairing = none;
  pairing_state_path = "openhdo-pairing.json";
}

settings-checked : Settings.new urlparse no_address settings ≡ ok settings
unfolding Settings.new check_settings check_mode is_local_host lower is_blank is_space is_identifier
settings-checked = refl

new-IsSecure_example :
    (u : Url) × (urlparse "wss://home.example" ≡ ok u)
    × IsSecure urlparse no_address u settings
    × IsMode settings
new-IsSecure_example = new-IsSecure urlparse no_address settings settings settings-checked
