-- ===== src/Runtime/Settings.antt =====
-- src/openhdo_linker/runtime_config.py: RuntimeConfig with its checks, and `_is_local_host`.
pub mod Secure
use linker.Prelude.{
  ℕ, ◌+◌, String, Bool, true, false, not, ◌&&◌, ◌||◌, Option, none, some, List, [], ◌∷◌, leb,
  str_eq, string_Eq, nat_Eq, list_eq, if◌then◌else◌,
}
use linker.Python.Exc.{Result, ok, err, runtime_config_error, guard, raise_if, ◌>>=◌, ◌>>◌}
use linker.Python.Text.{codes}
use linker.Python.Value.{Float}
use linker.Models.Identifier.{is_identifier}
use linker.Config.{LinkerConfig, is_nonpositive}
use linker.Tuya.Config.{TuyaDeviceConfig, TuyaPairingConfig}
use linker.Runtime.{is_blank}

-- What `urlparse` returns, of which the program reads these.
pub record Url : Type 0 where
  pub scheme : String
  pub hostname : Option String
  pub username : Option String
  pub password : Option String
  pub query : String
  pub fragment : String

pub record RuntimeConfig : Type 0 where
  pub server_url : String
  pub linker : LinkerConfig
  pub device : Option TuyaDeviceConfig
  pub light_id : Option String
  pub state_poll_interval_s : Float
  pub server_open_timeout_s : Float
  pub server_api_token : Option String
  pub discovery_only : Bool
  pub discovery_enabled : Bool
  pub pairing : Option TuyaPairingConfig
  pub pairing_state_path : String

-- `bool(text)` of a text or None.
abbrev pub is_given : Option String → Bool
is_given none = false
is_given (some s) = not (str_eq s "")

abbrev pub text_of : Option String → String
text_of none = ""
text_of (some s) = s

-- `lower()`, before a comparison with words that no lower case of a letter beyond A to Z occurs in.
unfoldable pub lower : List ℕ → List ℕ
lower [] = []
lower (c ∷ cs) = (if leb b'A' c && leb c b'Z' then c + 32 else c) ∷ lower cs

-- `parsed.scheme in {"ws", "wss"}`, with a host, and without what a server's address does not have.
abbrev pub is_websocket : Url → Bool
is_websocket u =
    (str_eq u.scheme "ws" || str_eq u.scheme "wss")
    && (is_given u.hostname
        && (not (is_given u.username)
            && (not (is_given u.password) && (str_eq u.query "" && str_eq u.fragment ""))))

abbrev pub is_blank_token : Option String → Bool
is_blank_token none = false
is_blank_token (some token) = is_blank (codes token)

abbrev pub has_token : Option String → Bool
has_token none = false
has_token (some token) = true

abbrev pub is_light_id : Option String → Bool
is_light_id none = false
is_light_id (some id) = is_identifier id

-- The device that the mode wants.
unfoldable pub check_mode : Bool → Option TuyaDeviceConfig → Option String → Result (Unit {0})
check_mode true none none = ok tt
check_mode true device light_id =
    err (runtime_config_error "discovery-only mode cannot include real-device configuration")
check_mode false none light_id =
    err (runtime_config_error "real device configuration is required outside discovery-only mode")
check_mode false (some device) light_id =
    guard (is_light_id light_id)
      (runtime_config_error "light_id must be a lowercase OpenHDO identifier")

-- `is_loopback` is that of `ip_address(host)`, none where it raises ValueError.
module _ (urlparse : String → Result Url) (is_loopback : String → Option Bool) where
  abbrev pub loopback : Option Bool → Bool
  loopback none = false
  loopback (some b) = b

  -- `_is_local_host`
  unfoldable pub is_local_host : String → Bool
  unfolding lower
  is_local_host host =
      list_eq (lower (codes host)) (codes "localhost")
      || (list_eq (lower (codes host)) (codes "localhost.localdomain")
          || loopback (is_loopback host))

  -- The connection is local, or encrypted and with a token.
  abbrev pub is_protected : Url → Option String → Bool
  is_protected u token =
      is_local_host (text_of u.hostname) || (str_eq u.scheme "wss" && has_token token)

  -- The checks behind the parsed address.
  unfoldable pub check_settings : Url → RuntimeConfig → Result RuntimeConfig
  check_settings u c = do
    guard (is_websocket u) (runtime_config_error "server must be a ws:// or wss:// URL with a host")
    raise_if (is_blank_token c.server_api_token)
        (runtime_config_error "server_api_token must not be empty")
    raise_if (is_blank (codes c.pairing_state_path))
        (runtime_config_error "pairing_state_path must not be empty")
    guard (is_protected u c.server_api_token)
        (runtime_config_error "non-local servers require wss:// and OPENHDO_SERVER_TOKEN")
    check_mode c.discovery_only c.device c.light_id
    raise_if (is_nonpositive c.state_poll_interval_s || is_nonpositive c.server_open_timeout_s)
        (runtime_config_error "runtime timeouts must be positive")
    ok c

  -- `RuntimeConfig(...)`
  unfoldable pub new : RuntimeConfig → Result RuntimeConfig
  new c = urlparse c.server_url >>= λ u. check_settings u c
