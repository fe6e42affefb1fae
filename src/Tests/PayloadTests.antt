-- ===== src/Tests/PayloadTests.antt =====
-- The round trips of the payloads of tuya.py, applied to samples.
use linker.Prelude.{ℕ, none, ◌≡◌, refl, List, ◌++◌, inr, nat_Eq}
use linker.Python.Exc.{ok}
use linker.Python.Text.{codes}
use linker.Tuya.Frame.{TuyaFrame}
use linker.Tuya.Payload.{
  aes_encrypt, control_31, payload_for_command, decode_payload, header_bytes, version_header,
}
use linker.Tuya.Payload.RoundTrip.{
  decode_payload-payload_for_command_34, decode_payload-payload_for_command_33,
  decode_payload-payload_for_command_31,
}
use linker.Tests.Samples.{crypto, encodings}

abbrev body : List ℕ
body = codes "{}"

abbrev key : List ℕ
key = codes "0123456789abcdef"

abbrev received : ℕ → List ℕ → TuyaFrame
received command p = record { sequence = 1; command = command; payload = p }

decode_payload-payload_for_command_34_example :
    decode_payload crypto encodings
      (received 13 (aes_encrypt crypto (header_bytes "3.4" ++ body) key))
      "3.4"
      key
      none
    ≡ ok body
decode_payload-payload_for_command_34_example =
    decode_payload-payload_for_command_34 crypto encodings 1 13 body key none refl
      (unfold payload_for_command version_header in refl)

decode_payload-payload_for_command_33_example :
    decode_payload crypto encodings (received 10 (aes_encrypt crypto body key)) "3.3" key none
    ≡ ok body
decode_payload-payload_for_command_33_example =
    decode_payload-payload_for_command_33 crypto encodings 1 10 body key none "3.3" (inr refl)
      (unfold aes_encrypt in refl) (unfold payload_for_command in refl)

decode_payload-payload_for_command_31_example :
    decode_payload crypto encodings
      (received 7 (control_31 crypto encodings body key))
      "3.1"
      key
      none
    ≡ ok body
decode_payload-payload_for_command_31_example =
    decode_payload-payload_for_command_31 crypto encodings 1 7 body key none
      (unfold payload_for_command in refl)
