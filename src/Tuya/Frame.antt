-- ===== src/Tuya/Frame.antt =====
-- tuya.py: TuyaFrame, `_frame_bytes`, `parse_frame` and `_read_frame`.
mod Layout
pub mod RoundTrip
pub mod Stream
use linker.Prelude.{
  ℕ, ◌+◌, ◌-◌, ◌*◌, ◌%◌, ◌^◌, String, Bool, not, ◌||◌, ◌≡◌, List, ◌++◌, ltb, nat_eq, nat_Eq, str_eq,
  length, take, drop, list_eq, if◌then◌else◌,
}
use linker.Python.Exc.{
  Result, ok, err, protocol_error, incomplete_read, guard, raise_if, ◌>>=◌, ◌>>◌,
}
use linker.Python.Bytes.{be32, pack_u32, u32}

pub record TuyaFrame : Type 0 where
  pub sequence : ℕ
  pub command : ℕ
  pub payload : List ℕ

-- The standard library's `binascii.crc32` and `hmac.new(key, bytes, "sha256").digest()`.
pub record Digests : Type 0 where
  pub crc32 : List ℕ → ℕ
  pub hmac_sha256 : List ℕ → List ℕ → List ℕ
  pub length-hmac_sha256 : (key bytes : List ℕ) → length (hmac_sha256 key bytes) ≡ 32

abbrev pub prefix : ℕ
prefix = 0x000055AA

abbrev pub suffix : ℕ
suffix = 0x0000AA55

abbrev pub max_length : ℕ
max_length = 1024 * 1024

unfoldable pub trailer_size : String → ℕ
trailer_size version = if str_eq version "3.4" then 36 else 8

-- `reader.readexactly(n)`: the bytes, and what is left in the stream.
unfoldable pub read_exactly : ℕ → List ℕ → Result (List ℕ × List ℕ)
read_exactly n stream =
    if ltb (length stream) n
    then err (incomplete_read "connection closed")
    else ok (take n stream, drop n stream)

module _ (digests : Digests) where
  -- The integrity code of the signed bytes: HMAC in protocol 3.4, and else the CRC.
  unfoldable pub integrity : String → List ℕ → List ℕ → List ℕ
  integrity version key signed =
      if str_eq version "3.4"
      then digests.hmac_sha256 key signed
      else be32 (digests.crc32 signed % 2 ^ 32)

  -- `_frame_bytes`
  unfoldable pub frame_bytes : ℕ → ℕ → List ℕ → String → List ℕ → Result (List ℕ)
  frame_bytes sequence command payload version key = do
    p ← pack_u32 prefix
    s ← pack_u32 sequence
    c ← pack_u32 command
    l ← pack_u32 (length payload + trailer_size version)
    let signed = (p ++ (s ++ (c ++ l))) ++ payload
    ok ((signed ++ integrity version key signed) ++ be32 suffix)

  -- The check of the trailer: `compare_digest` of its first 32 bytes, or the number in its first four.
  unfoldable pub verify : String → List ℕ → List ℕ → List ℕ → Result (Unit {0})
  verify version key signed trailer =
      if str_eq version "3.4"
      then guard (list_eq (take 32 trailer) (digests.hmac_sha256 key signed))
          (protocol_error "Tuya frame HMAC verification failed")
      else guard (nat_eq (u32 (take 4 trailer)) (digests.crc32 signed % 2 ^ 32))
          (protocol_error "Tuya frame CRC verification failed")

  unfoldable pub parse_frame : List ℕ → String → List ℕ → Result TuyaFrame
  parse_frame bytes version key = do
    raise_if
        (ltb (length bytes) 24
          || (not (list_eq (take 4 bytes) (be32 prefix))
              || not (list_eq (drop (length bytes - 4) bytes) (be32 suffix))))
        (protocol_error "invalid Tuya frame prefix or suffix")
    let sequence = u32 (drop 4 bytes)
    let command = u32 (drop 8 bytes)
    let size = u32 (drop 12 bytes)
    raise_if (ltb max_length size || not (nat_eq (length bytes) (16 + size)))
        (protocol_error "invalid Tuya frame length")
    raise_if (ltb size (trailer_size version))
        (protocol_error "Tuya frame is shorter than its integrity trailer")
    let payload_end = 16 + size - trailer_size version
    let payload = take (payload_end - 16) (drop 16 bytes)
    let signed = take payload_end bytes
    let trailer = take (trailer_size version) (drop payload_end bytes)
    verify version key signed trailer
    ok (record { sequence = sequence; command = command; payload = payload })

  -- `_read_frame`, on the bytes that the peer sends until it closes the stream.
  unfoldable pub read_frame : List ℕ → String → List ℕ → Result (TuyaFrame × List ℕ)
  read_frame stream version key = do
    (header, after) ← read_exactly 16 stream
    guard (list_eq (take 4 header) (be32 prefix)) (protocol_error "invalid Tuya frame prefix")
    let size = u32 (drop 12 header)
    raise_if (ltb max_length size) (protocol_error "Tuya frame exceeds 1 MiB")
    (body, left) ← read_exactly size after
    frame ← parse_frame (header ++ body) version key
    ok (frame, left)
