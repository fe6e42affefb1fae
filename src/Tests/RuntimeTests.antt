-- ===== src/Tests/RuntimeTests.antt =====
-- The readings of runtime_config.py on an environment.
use linker.Prelude.{some, ◌≡◌, refl, [], ◌∷◌, true, string_Eq}
use linker.Python.Exc.{ok}
use linker.Python.Text.{is_space}
use linker.Python.Value.{null}
use linker.Runtime.{is_blank, value, string}

color_format_read :
    string
      (("OPENHDO_TUYA_COLOR_FORMAT", "rgb_hex") ∷ [])
      "OPENHDO_TUYA_COLOR_FORMAT"
      []
      "color_format"
      true
      null
    ≡ ok (some "rgb_hex")
unfolding string value is_blank is_space
color_format_read = refl
