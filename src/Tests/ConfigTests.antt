-- ===== src/Tests/ConfigTests.antt =====
-- The checks of config.py, and the theorem on them, applied to samples.
use linker.Prelude.{true, false, ◌≡◌, refl, nat_Eq}
use linker.Python.Exc.{ok}
use linker.Python.Value.{nan}
use linker.Models.Identifier.{is_identifier, is_short_text}
use linker.Protocol.{Envelope}
use linker.Boundary.Sessions.{register}
use linker.Config
use linker.Config.{is_semver, semver_steps, semver_step, less}
use linker.Config.Registered.{register-new}
use linker.Tests.Samples.{config, lamp_driver, clock, lamp_boundary}

release_candidate : is_semver "1.20.3-rc.1" ≡ true
unfolding is_semver semver_steps semver_step
release_candidate = refl

two_numbers : is_semver "1.20" ≡ false
unfolding is_semver semver_steps semver_step
two_numbers = refl

-- A time that is no number passes the checks of the delays.
config-accepted :
    Config.new (record config { reconnect_max_s = nan })
    ≡ ok (record config { reconnect_max_s = nan })
unfolding Config.new is_semver semver_steps semver_step less is_identifier is_short_text
config-accepted = refl

config-checked : Config.new config ≡ ok config
unfolding Config.new is_semver semver_steps semver_step less is_identifier is_short_text
config-checked = refl

register-new_example :
    (e : Envelope) × ((register lamp_driver clock lamp_boundary).0 ≡ ok e)
    × (e.source ≡ "openhdo.linker")
    × (e.kind ≡ "link.register")
register-new_example = register-new lamp_driver clock config lamp_boundary config-checked
