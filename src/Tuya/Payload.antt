-- ===== src/Tuya/Payload.antt =====
-- tuya.py: `_aes_encrypt`, `_aes_decrypt`, `_payload_for_command`, `decode_payload` and `_without_retcode`.
pub mod RoundTrip
use linker.Prelude.{
  ℕ, ◌+◌, ◌%◌, String, Bool, true, false, not, ◌&&◌, ◌||◌, Option, none, some, ◌≡◌, List, [], ◌∷◌,
  ◌++◌, ltb, leb, nat_eq, nat_Eq, str_eq, string_Eq, list_eq, length, take, drop, replicate,
  if◌then◌else◌,
}
use linker.Python.Exc.{
  Result, ok, err, is_value_error, value_error, key_error, protocol_error, guard, raise_if, reraise,
  ◌>>=◌, ◌>>◌,
}
use linker.Python.Text.{codes, concat}
use linker.Protocol.{is_member}
use linker.Tuya.Frame.{TuyaFrame}

-- The third-party package `cryptography`, with what it documents: PKCS7 pads to whole blocks of 16 bytes and
-- takes the padding off again, and AES in ECB mode keeps the length of whole blocks and is its own inverse
-- under a key. `unpad` is none where the padding is invalid.
pub record Cryptography : Type 0 where
  pub pad : List ℕ → List ℕ
  pub unpad : List ℕ → Option (List ℕ)
  pub encrypt : List ℕ → List ℕ → List ℕ
  pub decrypt : List ℕ → List ℕ → List ℕ
  pub unpad-pad : (d : List ℕ) → unpad (pad d) ≡ some d
  pub length-pad : (d : List ℕ) → length (pad d) % 16 ≡ 0
  pub length-encrypt : (key d : List ℕ) → length (encrypt key d) ≡ length d
  pub decrypt-encrypt : (key d : List ℕ) → length d % 16 ≡ 0 → decrypt key (encrypt key d) ≡ d

-- The standard library's `base64.b64encode`, `base64.b64decode(validate=True)`, which is none where it raises
-- binascii.Error, and `hashlib.md5(bytes).hexdigest().encode("ascii")`.
pub record Encodings : Type 0 where
  pub b64encode : List ℕ → List ℕ
  pub b64decode : List ℕ → Option (List ℕ)
  pub md5_hex : List ℕ → List ℕ
  pub b64decode-b64encode : (d : List ℕ) → b64decode (b64encode d) ≡ some d
  pub length-md5_hex : (d : List ℕ) → length (md5_hex d) ≡ 32

abbrev pub command_control : ℕ
command_control = 7

abbrev pub command_status : ℕ
command_status = 8

abbrev pub command_session_response : ℕ
command_session_response = 4

abbrev pub supported_protocols : List String
supported_protocols = "3.1" ∷ "3.2" ∷ "3.3" ∷ "3.4" ∷ []

-- `command in NO_VERSION_HEADER`
abbrev pub has_no_version_header : ℕ → Bool
has_no_version_header c =
    nat_eq c 10 || (nat_eq c 9 || (nat_eq c 3 || (nat_eq c 4 || (nat_eq c 5 || nat_eq c 16))))

abbrev pub header_bytes : String → List ℕ
header_bytes version = codes version ++ replicate 12 0

-- `VERSION_HEADER[version]`
unfoldable pub version_header : String → Result (List ℕ)
version_header version =
    if is_member version supported_protocols
    then ok (header_bytes version)
    else err (key_error (concat "'" (concat version "'")))

-- `bytes.startswith(prefix)`
abbrev pub starts_with : List ℕ → List ℕ → Bool
starts_with bytes start = list_eq (take (length start) bytes) start

abbrev pub or_key : Option (List ℕ) → List ℕ → List ℕ
or_key none key = key
or_key (some k) key = k

-- `bytes[len(prefix):]` where they start with it, and else all of them.
unfoldable pub without_prefix : List ℕ → List ℕ → List ℕ
without_prefix start bytes = if starts_with bytes start then drop (length start) bytes else bytes

unfoldable pub without_retcode : List ℕ → List ℕ
unfolding without_prefix
without_retcode payload = without_prefix (replicate 4 0) payload

module _ (crypto : Cryptography) where
  unfoldable pub aes_encrypt : List ℕ → List ℕ → List ℕ
  aes_encrypt bytes key = crypto.encrypt key (crypto.pad bytes)

  abbrev pub unpadded : Option (List ℕ) → Result (List ℕ)
  unpadded none = err (protocol_error "invalid AES padding")
  unpadded (some d) = ok d

  -- `finalize` refuses data that are no whole blocks, with a ValueError that nothing here catches.
  unfoldable pub aes_decrypt : List ℕ → List ℕ → Result (List ℕ)
  aes_decrypt bytes key = do
    guard (nat_eq (length bytes % 16) 0)
        (value_error "The length of the provided data is not a multiple of the block length.")
    unpadded (crypto.unpad (crypto.decrypt key bytes))

  -- The header in front of the text, inside of the encryption or outside of it.
  abbrev pub encrypted_header : List ℕ → List ℕ → Result (List ℕ) → Result (List ℕ)
  encrypted_header clear key header = do h ← header; ok (aes_encrypt (h ++ clear) key)

  abbrev pub clear_header : List ℕ → List ℕ → Result (List ℕ) → Result (List ℕ)
  clear_header clear key header = do h ← header; ok (h ++ aes_encrypt clear key)

  module _ (encodings : Encodings) where
    -- The signed text of protocol 3.1.
    unfoldable pub control_31 : List ℕ → List ℕ → List ℕ
    control_31 clear key =
        let encrypted = encodings.b64encode (aes_encrypt clear key) in
        let digest = take 16 (
          drop 8
            (encodings.md5_hex (codes "data=" ++ (encrypted ++ (codes "||lpv=3.1||" ++ key))))) in
        codes "3.1" ++ (digest ++ encrypted)

    -- `_payload_for_command`, on the JSON text of the body.
    unfoldable pub payload_for_command :
        String → ℕ → List ℕ → List ℕ → Option (List ℕ) → Result (List ℕ)
    payload_for_command version command clear key session_key =
        if str_eq version "3.1" && nat_eq command command_control
        then ok (control_31 clear key)
        else if str_eq version "3.4"
        then encrypted_header clear (or_key session_key key) (version_header version)
        else if has_no_version_header command
        then ok (if str_eq version "3.1" then clear else aes_encrypt clear key)
        else clear_header clear key (version_header version)

    abbrev pub decoded_base64 : Option (List ℕ) → Result (List ℕ)
    decoded_base64 none = err (value_error "Invalid base64-encoded string")
    decoded_base64 (some d) = ok d

    unfoldable pub decode_31 : List ℕ → List ℕ → Result (List ℕ)
    decode_31 payload key = do
      raise_if (ltb (length payload) 19) (protocol_error "truncated 3.1 payload")
      reraise is_value_error (protocol_error "invalid 3.1 encrypted payload")
          (do d ← decoded_base64 (encodings.b64decode (drop 19 payload)); aes_decrypt d key)

    unfoldable pub decode_34 : List ℕ → List ℕ → Result (List ℕ)
    decode_34 payload key = do
      decrypted ← aes_decrypt payload key
      guard (starts_with decrypted (header_bytes "3.4"))
          (protocol_error "3.4 payload is missing its encrypted version header")
      ok (drop (length (header_bytes "3.4")) decrypted)

    -- With protocol 3.2 or 3.3, the header may be there or not.
    unfoldable pub decode_33 : String → List ℕ → List ℕ → Result (List ℕ)
    decode_33 version payload key = aes_decrypt (without_prefix (header_bytes version) payload) key

    unfoldable pub decode_payload : TuyaFrame → String → List ℕ → Option (List ℕ) → Result (List ℕ)
    decode_payload frame version key session_key =
        if str_eq version "3.1" && starts_with frame.payload (codes "3.1")
        then decode_31 frame.payload key
        else if str_eq version "3.4"
        then if nat_eq frame.command command_session_response
          then aes_decrypt frame.payload key
          else decode_34 frame.payload (or_key session_key key)
        else if str_eq version "3.2" || str_eq version "3.3"
        then decode_33 version frame.payload key
        else ok frame.payload
