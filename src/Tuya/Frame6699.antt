-- ===== src/Tuya/Frame6699.antt =====
-- tuya.py: `_frame_6699` and `_parse_6699`, the authenticated frames of the discovery on the local network.
pub mod RoundTrip
use linker.Prelude.{
  ℕ, ◌+◌, ◌-◌, Bool, true, not, ◌||◌, Option, none, some, ◌≡◌, List, [], ◌∷◌, ◌++◌, ltb, nat_eq,
  nat_Eq, length, take, drop, list_eq,
}
use linker.Python.Exc.{Result, ok, err, protocol_error, raise_if, ◌>>=◌, ◌>>◌}
use linker.Python.Bytes.{be32, pack_u32, u32}
use linker.Tuya.Frame.{TuyaFrame}

-- AESGCM of the package `cryptography`, by key, nonce, data and associated data. `decrypt` is none where it
-- raises InvalidTag or ValueError. The tag that `encrypt` appends has 16 bytes, and with the same key, nonce
-- and associated data `decrypt` gives back what was encrypted.
pub record Gcm : Type 0 where
  pub encrypt : List ℕ → List ℕ → List ℕ → List ℕ → List ℕ
  pub decrypt : List ℕ → List ℕ → List ℕ → List ℕ → Option (List ℕ)
  pub length-encrypt : (key nonce d aad : List ℕ) → length (encrypt key nonce d aad) ≡ length d + 16
  pub decrypt-encrypt :
      (key nonce d aad : List ℕ) → decrypt key nonce (encrypt key nonce d aad) aad ≡ some d

abbrev pub prefix_6699 : ℕ
prefix_6699 = 0x00006699

abbrev pub suffix_6699 : ℕ
suffix_6699 = 0x00009966

-- The two reserved bytes are not zero: `reserved != 0`.
abbrev pub is_reserved : List ℕ → Bool
is_reserved (a ∷ b ∷ rest) = not (nat_eq a 0) || not (nat_eq b 0)
is_reserved _ = true

abbrev pub authentic : Option (List ℕ) → Result (List ℕ)
authentic none = err (protocol_error "Tuya 6699 discovery authentication failed")
authentic (some d) = ok d

-- The header as struct.pack(">I H I I I") writes it, with zero for the reserved field.
unfoldable pub header_6699 : ℕ → ℕ → ℕ → Result (List ℕ)
header_6699 sequence command size = do
  p ← pack_u32 prefix_6699
  s ← pack_u32 sequence
  c ← pack_u32 command
  l ← pack_u32 size
  ok (p ++ (0 ∷ 0 ∷ (s ++ (c ++ l))))

module _ (gcm : Gcm) where
  -- `_frame_6699`, with the nonce that `os.urandom(12)` returns.
  unfoldable pub frame_6699 : List ℕ → ℕ → ℕ → List ℕ → List ℕ → Result (List ℕ)
  frame_6699 nonce sequence command payload key = do
    header ← header_6699 sequence command (length nonce + length payload + 16)
    ok ((header ++ (nonce ++ gcm.encrypt key nonce payload (drop 4 header))) ++ be32 suffix_6699)

  -- `_parse_6699`
  unfoldable pub parse_6699 : List ℕ → List ℕ → Result TuyaFrame
  parse_6699 bytes key = do
    raise_if
        (ltb (length bytes) 50
          || (not (list_eq (take 4 bytes) (be32 prefix_6699))
              || not (list_eq (drop (length bytes - 4) bytes) (be32 suffix_6699))))
        (protocol_error "invalid Tuya 6699 frame prefix or suffix")
    let size = u32 (drop 14 bytes)
    raise_if
        (is_reserved (drop 4 bytes) || (ltb size 28 || not (nat_eq (length bytes) (18 + size + 4))))
        (protocol_error "invalid Tuya 6699 frame length")
    let encrypted = take size (drop 18 bytes)
    payload ←
        authentic (gcm.decrypt key (take 12 encrypted) (drop 12 encrypted) (drop 4 (take 18 bytes)))
    ok (record { sequence = u32 (drop 6 bytes); command = u32 (drop 10 bytes); payload = payload })
