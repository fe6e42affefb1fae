-- ===== src/Tuya/Frame6699/RoundTrip.antt =====
-- `_parse_6699` reads back what `_frame_6699` builds.
use linker.Prelude.{
  ℕ, ◌+◌, ◌-◌, ◌^◌, ◌≤◌, ◌<◌, true, false, ◌≡◌, List, ◌∷◌, ◌++◌, arith, ltb, nat_eq, nat_Eq, length,
  take, drop, take-append, drop-append, length-append, some,
}
use linker.Python.Exc.{ok}
use linker.Python.Bytes.{be32, length-be32, u32-be32, pack_u32-fits}
use linker.Tuya.Frame.{TuyaFrame}
use linker.Tuya.Frame6699.{Gcm, prefix_6699, suffix_6699, header_6699, frame_6699, parse_6699}

-- The header of a frame whose numbers fit.
abbrev header : ℕ → ℕ → ℕ → List ℕ
header sequence command size =
    be32 prefix_6699 ++ (0 ∷ 0 ∷ (be32 sequence ++ (be32 command ++ be32 size)))

header_6699-header :
    (sequence command size : ℕ)
    → sequence < 2 ^ 32
    → command < 2 ^ 32
    → size < 2 ^ 32
    → header_6699 sequence command size ≡ ok (header sequence command size)
unfolding header_6699
header_6699-header sequence command size s c l = rw (
  pack_u32-fits prefix_6699 (omega arith),
  pack_u32-fits sequence s,
  pack_u32-fits command c,
  pack_u32-fits size l,
)

module _ (gcm : Gcm) (sequence command : ℕ) (nonce sealed key : List ℕ) (size : ℕ)
    (twelve : length nonce ≡ 12) (tagged : 16 ≤ length sealed)
    (same : size ≡ length nonce + length sealed) (word : size < 2 ^ 32) where
  abbrev front : List ℕ
  front = header sequence command size ++ (nonce ++ sealed)

  front-length : length front ≡ 18 + size
  unfolding be32
  front-length = omega (arith, length-append nonce sealed, same)

  last_four :
      drop (length (front ++ be32 suffix_6699) - 4) (front ++ be32 suffix_6699) ≡ be32 suffix_6699
  last_four =
      drop-append (length (front ++ be32 suffix_6699) - 4) front (be32 suffix_6699)
        (omega (arith, length-append front (be32 suffix_6699), length-be32 suffix_6699))

  sealed_part : take size ((nonce ++ sealed) ++ be32 suffix_6699) ≡ nonce ++ sealed
  sealed_part =
      take-append size (nonce ++ sealed) (be32 suffix_6699)
        (omega (arith, length-append nonce sealed, same))

  whole-length : length (front ++ be32 suffix_6699) ≡ 18 + size + 4
  whole-length =
      omega (arith, length-append front (be32 suffix_6699), length-be32 suffix_6699, front-length)

  parse_6699-sealed :
      {payload : List ℕ}
      → sequence < 2 ^ 32
      → command < 2 ^ 32
      → gcm.decrypt key nonce sealed (drop 4 (header sequence command size)) ≡ some payload
      → parse_6699 gcm (front ++ be32 suffix_6699) key
        ≡ ok (record { sequence = sequence; command = command; payload = payload })
  unfolding parse_6699 be32
  parse_6699-sealed s c opened =
      let rest = (nonce ++ sealed) ++ be32 suffix_6699 in
      let long : ltb (length (front ++ be32 suffix_6699)) 50 ≡ false =
        ground (arith, whole-length) in
      let enough : ltb size 28 ≡ false = ground arith in
      let whole : nat_eq (length (front ++ be32 suffix_6699)) (18 + size + 4) ≡ true =
        ground (arith, whole-length) in
      rw (
        long,
        last_four,
        u32-be32 size rest word,
        enough,
        whole,
        sealed_part,
        take-append 12 nonce sealed twelve,
        drop-append 12 nonce sealed twelve,
        opened,
        u32-be32 command (be32 size ++ rest) c,
        u32-be32 sequence (be32 command ++ (be32 size ++ rest)) s,
      )

-- For a nonce of 12 bytes and numbers of 32 bits, `_frame_6699` returns bytes, and under the same key
-- `_parse_6699` reads the sequence number, the command and the payload back from them.
pub parse_6699-frame_6699 :
    (gcm : Gcm) (f : TuyaFrame) (nonce key : List ℕ)
    → length nonce ≡ 12
    → f.sequence < 2 ^ 32
    → f.command < 2 ^ 32
    → length f.payload + 28 < 2 ^ 32
    → (bytes : List ℕ) × (frame_6699 gcm nonce f.sequence f.command f.payload key ≡ ok bytes)
      × (parse_6699 gcm bytes key ≡ ok f)
unfolding frame_6699
parse_6699-frame_6699 gcm f nonce key twelve s c fits =
    let size = length nonce + length f.payload + 16 in
    let head = header f.sequence f.command size in
    let sealed = gcm.encrypt key nonce f.payload (drop 4 head) in
    let tagged = gcm.length-encrypt key nonce f.payload (drop 4 head) in
    let word : size < 2 ^ 32 = omega arith in
    (
      (head ++ (nonce ++ sealed)) ++ be32 suffix_6699,
      rw (header_6699-header f.sequence f.command size s c word),
      parse_6699-sealed gcm f.sequence f.command nonce sealed key size twelve
          (omega (arith, tagged)) (omega (arith, tagged)) word s c
          (gcm.decrypt-encrypt key nonce f.payload (drop 4 head)),
    )
