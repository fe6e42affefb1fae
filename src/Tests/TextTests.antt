-- ===== src/Tests/TextTests.antt =====
-- Runs of the models of Python's readings of texts.
use linker.Prelude.{none, some, ◌≡◌, refl, pos, negsuc}
use linker.Python.Text.{codes, int16, format_hex}
use linker.Python.Uuid.{show_uuid, parse_uuid}

int16_readings :
    (int16 (codes " +fF ") ≡ some (pos 255))
    × (int16 (codes "-0x_1f") ≡ some (negsuc 30))
    × (int16 (codes "1__0") ≡ none)
    × (int16 (codes "0x") ≡ none)
    × (int16 (codes "g") ≡ none)
unfolding int16
int16_readings = (refl, refl, refl, refl, refl)

format_hex_texts : (format_hex 2 10 ≡ "0a") × (format_hex 4 1000 ≡ "03e8")
unfolding format_hex
format_hex_texts = (refl, refl)

show_uuid_text :
    show_uuid 0x12345678_1234_5678_9abc_def012345678 ≡ "12345678-1234-5678-9abc-def012345678"
unfolding show_uuid
show_uuid_text = refl

parse_uuid_readings :
    (parse_uuid "{12345678-1234-5678-9abc-def012345678}"
      ≡ some 0x12345678_1234_5678_9abc_def012345678)
    × (parse_uuid "urn:uuid:12345678-1234-5678-9ABC-DEF012345678"
        ≡ some 0x12345678_1234_5678_9abc_def012345678)
    × (parse_uuid "12345678" ≡ none)
unfolding parse_uuid int16
parse_uuid_readings = (refl, refl, refl)
