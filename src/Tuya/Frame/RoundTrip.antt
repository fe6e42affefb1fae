-- ===== src/Tuya/Frame/RoundTrip.antt =====
-- `parse_frame` inverts `_frame_bytes`, and accepts nothing else.
use linker.Prelude.{
  ℕ, ◌+◌, ◌-◌, ◌%◌, ◌^◌, ◌≤◌, ◌<◌, String, ◌≡◌, refl, sym, ap, ◌∙◌, subst, List, [], ◌++◌,
  append-nil, arith, nat_Eq, str_eq, length, take, inl, inr, Bool-cases, drop, list_eq_self,
  list_eq→eq, take-append, length-take, length-drop,
}
use linker.Python.Exc.{ok-injective, ok, >>=-eq-ok}
use linker.Python.Bytes.{
  AreBytes, AreBytes-take, AreBytes-drop, be32, u32, length-be32, u32-be32, be32-u32, u32-lt,
  pack_u32-fits,
}
use linker.Tuya.Frame.{
  TuyaFrame, Digests, prefix, suffix, max_length, trailer_size, integrity, verify, frame_bytes,
  parse_frame,
}
use linker.Tuya.Frame.Layout.{
  signed, frame, drop-twelve, trailer_size-room, parse_frame-frame, split_frame, parse_frame-IsCut,
}

module _ (digests : Digests) (version : String) (key : List ℕ) where
  length-integrity :
      (bytes : List ℕ) → length (integrity digests version key bytes) + 4 ≡ trailer_size version
  unfolding integrity trailer_size
  length-integrity bytes = elim (Bool-cases (str_eq version "3.4")) [
    | inl new ↦ rw new (omega (arith, digests.length-hmac_sha256 key bytes))
    | inr old ↦ rw old (omega (arith, length-be32 (digests.crc32 bytes % 2 ^ 32)))
  ]

  -- The integrity code passes the check, whatever stands behind it.
  verify-integrity :
      (bytes x : List ℕ)
      → verify digests version key bytes (integrity digests version key bytes ++ x) ≡ ok tt
  unfolding integrity verify
  verify-integrity bytes x = elim (Bool-cases (str_eq version "3.4")) [
    | inl new ↦
        let mac = digests.hmac_sha256 key bytes in
        rw new
          (rw (take-append 32 mac x (digests.length-hmac_sha256 key bytes)) (rw (list_eq_self mac)))
    | inr old ↦
        let crc = digests.crc32 bytes % 2 ^ 32 in
        let word : u32 (be32 crc) ≡ crc =
          rw (← append-nil (be32 crc)) (u32-be32 crc [] (omega arith)) in
        rw old (rw (take-append 4 (be32 crc) x (length-be32 crc)) (rw word (ground arith)))
  ]

  -- A code of the right length that passes the check is the integrity code.
  verify-eq_ok :
      (bytes code x : List ℕ) {u : Unit {0}}
      → length code + 4 ≡ trailer_size version
      → AreBytes code
      → verify digests version key bytes (code ++ x) ≡ ok u
      → code ≡ integrity digests version key bytes
  unfolding integrity verify trailer_size
  verify-eq_ok bytes code x size bs h = elim (Bool-cases (str_eq version "3.4")) [
    | inl new ↦
        let mac = digests.hmac_sha256 key bytes in
        let long : length code ≡ 32 = let size' = rw new at size in omega arith in
        let passed = rw (take-append 32 code x long) at (rw new at h) in
        rw new (list_eq→eq code mac (ground arith))
    | inr old ↦
        let crc = digests.crc32 bytes % 2 ^ 32 in
        let four : length code ≡ 4 = let size' = rw old at size in omega arith in
        let passed = rw (take-append 4 code x four) at (rw old at h) in
        let same : u32 code ≡ crc = ground arith in
        rw old (sym (rw same at (rw append-nil at (be32-u32 code [] four bs))))
  ]

-- A frame that the 32-bit words of the header can hold, within the limit of 1 MiB.
pub record IsFramable (version : String) (f : TuyaFrame) : Type 0 where
  pub sequence_word : f.sequence < 2 ^ 32
  pub command_word : f.command < 2 ^ 32
  pub fits : length f.payload + trailer_size version ≤ max_length

module _ (digests : Digests) (version : String) (key : List ℕ) where
  abbrev header_and_payload : TuyaFrame → List ℕ
  header_and_payload f =
      signed (be32 prefix) (be32 f.sequence) (be32 f.command)
        (be32 (length f.payload + trailer_size version)) f.payload

  -- The bytes that `_frame_bytes` builds.
  abbrev built : TuyaFrame → List ℕ
  built f =
      (header_and_payload f ++ integrity digests version key (header_and_payload f)) ++ be32 suffix

  frame_bytes-built :
      (f : TuyaFrame)
      → IsFramable version f
      → frame_bytes digests f.sequence f.command f.payload version key ≡ ok (built f)
  unfolding frame_bytes
  frame_bytes-built f k = rw (pack_u32-fits prefix (omega arith)) (
      rw (pack_u32-fits f.sequence k.sequence_word) (
        rw (pack_u32-fits f.command k.command_word)
          (rw (pack_u32-fits (length f.payload + trailer_size version) (omega (arith, k.fits))))))

  parse_frame-built :
      (f : TuyaFrame) → IsFramable version f → parse_frame digests (built f) version key ≡ ok f
  parse_frame-built f k =
      let p = be32 prefix in
      let q = be32 f.sequence in
      let c = be32 f.command in
      let l = be32 (length f.payload + trailer_size version) in
      let code = integrity digests version key (header_and_payload f) in
      let x = be32 suffix in
      let lp = length-be32 prefix in
      let lq = length-be32 f.sequence in
      let lc = length-be32 f.command in
      let ll = length-be32 (length f.payload + trailer_size version) in
      let lx = length-be32 suffix in
      let n = length f.payload + trailer_size version in
      let size : n < 2 ^ 32 = omega (arith, k.fits) in
      parse_frame-frame p q c l f.payload code x lp lq lc ll lx digests version key refl refl
        (u32-be32 n (f.payload ++ (code ++ x)) size) k.fits
        (length-integrity digests version key (header_and_payload f))
      ∙ rw (verify-integrity digests version key (header_and_payload f) x) (
          rw (u32-be32 f.sequence (c ++ (l ++ (f.payload ++ (code ++ x)))) k.sequence_word)
            (rw (u32-be32 f.command (l ++ (f.payload ++ (code ++ x))) k.command_word)))

-- For a frame whose numbers have 32 bits and whose length is within the limit of 1 MiB, `_frame_bytes`
-- returns bytes, and `parse_frame` reads the frame back from them, in every protocol version and under
-- every key.
pub parse_frame-frame_bytes :
    (digests : Digests) (version : String) (key : List ℕ) (f : TuyaFrame)
    → IsFramable version f
    → (bytes : List ℕ) × (frame_bytes digests f.sequence f.command f.payload version key ≡ ok bytes)
      × (parse_frame digests bytes version key ≡ ok f)
parse_frame-frame_bytes digests version key f k = (
  built digests version key f,
  frame_bytes-built digests version key f k,
  parse_frame-built digests version key f k,
)

-- A frame in parts that is accepted is built from the frame that is returned.
module _ (digests : Digests) (version : String) (key : List ℕ) (p s c l payload code x : List ℕ)
    (lp : length p ≡ 4) (ls : length s ≡ 4) (lc : length c ≡ 4) (ll : length l ≡ 4)
    (lx : length x ≡ 4) (bs : AreBytes s) (bc : AreBytes c) (bl : AreBytes l)
    (bcode : AreBytes code) where
  parts_accepted :
      (f : TuyaFrame)
      → p ≡ be32 prefix
      → x ≡ be32 suffix
      → u32 (l ++ (payload ++ (code ++ x))) ≡ length payload + trailer_size version
      → length payload + trailer_size version ≤ max_length
      → length code + 4 ≡ trailer_size version
      → parse_frame digests (frame p s c l payload code x) version key ≡ ok f
      → IsFramable version f × (frame p s c l payload code x ≡ built digests version key f)
  parts_accepted f ep ex size fits trailer h =
      let passed =
        sym (
          parse_frame-frame p s c l payload code x lp ls lc ll lx digests version key ep ex size
            fits trailer)
        ∙ h in
      let (u, good, same) =
        >>=-eq-ok (verify digests version key (signed p s c l payload) (code ++ x)) _ passed in
      let es : s ≡ be32 (u32 (s ++ (c ++ (l ++ (payload ++ (code ++ x)))))) =
        sym (be32-u32 s _ ls bs) in
      let ec : c ≡ be32 (u32 (c ++ (l ++ (payload ++ (code ++ x))))) = sym (be32-u32 c _ lc bc) in
      let el : l ≡ be32 (length payload + trailer_size version) =
        sym (be32-u32 l _ ll bl) ∙ ap be32 size in
      let ecode =
        verify-eq_ok digests version key (signed p s c l payload) code x trailer bcode good in
      subst
        (λ g. IsFramable version g × (frame p s c l payload code x ≡ built digests version key g))
        (ok-injective same)
        (
          record { sequence_word = u32-lt s _ ls bs; command_word = u32-lt c _ lc bc; fits = fits },
          ap (λ k. (signed p s c l payload ++ k) ++ x) ecode ∙ λ i.
              (signed (ep i) (es i) (ec i) (el i) payload
                ++ integrity digests version key (signed (ep i) (es i) (ec i) (el i) payload))
              ++ ex i,
        )

-- `parse_frame` accepts only what `_frame_bytes` builds: a string of bytes that is accepted is the framing
-- of the frame that is returned, which has numbers of 32 bits and a length within the limit.
pub frame_bytes-parse_frame :
    (digests : Digests) (version : String) (key bytes : List ℕ) (f : TuyaFrame)
    → AreBytes bytes
    → parse_frame digests bytes version key ≡ ok f
    → IsFramable version f
      × (frame_bytes digests f.sequence f.command f.payload version key ≡ ok bytes)
frame_bytes-parse_frame digests version key bytes f bs h =
    let cut = parse_frame-IsCut digests bytes version key h in
    let size = u32 (drop 12 bytes) in
    let n = size - trailer_size version in
    let p = take 4 bytes in
    let s = take 4 (drop 4 bytes) in
    let c = take 4 (drop 8 bytes) in
    let l = take 4 (drop 12 bytes) in
    let payload = take n (drop 16 bytes) in
    let code = take (trailer_size version - 4) (drop (16 + n) bytes) in
    let x = drop (length bytes - 4) bytes in
    let room = trailer_size-room version in
    let whole =
      split_frame bytes n (trailer_size version - 4) (length bytes - 4)
        (omega (arith, cut.long, cut.holds_trailer, room)) in
    let lp : length p ≡ 4 = omega (arith, length-take 4 bytes, cut.long) in
    let ls : length s ≡ 4 =
      omega (arith, length-take 4 (drop 4 bytes), length-drop 4 bytes, cut.long) in
    let lc : length c ≡ 4 =
      omega (arith, length-take 4 (drop 8 bytes), length-drop 8 bytes, cut.long) in
    let ll : length l ≡ 4 =
      omega (arith, length-take 4 (drop 12 bytes), length-drop 12 bytes, cut.long) in
    let lx : length x ≡ 4 = omega (arith, length-drop (length bytes - 4) bytes, cut.long) in
    let lpayload : length payload ≡ n =
      omega (arith, length-take n (drop 16 bytes), length-drop 16 bytes, cut.long) in
    let lcode : length code ≡ trailer_size version - 4 = omega (
      arith,
      length-take (trailer_size version - 4) (drop (16 + n) bytes),
      length-drop (16 + n) bytes,
      cut.long,
      cut.holds_trailer,
      room,
    ) in
    let word = λ (k m : ℕ). AreBytes-take k (drop m bytes) (AreBytes-drop m bytes bs) in
    let sized : u32 (l ++ (payload ++ (code ++ x))) ≡ length payload + trailer_size version =
      ap u32 (sym (ap (drop 12) whole ∙ drop-twelve p s c l payload code x lp ls lc ll lx))
      ∙ omega (arith, lpayload, cut.holds_trailer) in
    let (framable, same) =
      parts_accepted digests version key p s c l payload code x lp ls lc ll lx (word 4 4) (word 4 8)
        (word 4 12) (word (trailer_size version - 4) (16 + n)) f cut.first cut.last sized
        (omega (arith, lpayload, cut.fits, cut.holds_trailer)) (omega (arith, lcode, room))
        (subst (λ b. parse_frame digests b version key ≡ ok f) whole h) in
    (framable, frame_bytes-built digests version key f framable ∙ ap ok (sym same ∙ sym whole))
