-- ===== src/Tuya/Frame/Layout.antt =====
-- The layout of a frame: four words, the payload, the integrity code and the suffix, and what `parse_frame`
-- cuts from their concatenation.
use linker.Prelude.{
  ℕ, ◌+◌, ◌-◌, ◌≤◌, String, true, false, ◌≡◌, refl, sym, ap, ◌∙◌, List, [], ◌++◌, append-nil,
  append_assoc, arith, ltb, nat_eq, nat_Eq, length, take, drop, list_eq_self, list_eq→eq, split_at,
  length-append, take-append, drop-append,
}
use linker.Python.Exc.{ok, ◌>>◌}
use linker.Python.Bytes.{be32, u32}
use linker.Tuya.Frame.{
  TuyaFrame, Digests, prefix, suffix, max_length, trailer_size, verify, parse_frame,
}

-- The bytes of a frame with the right words, cut by their positions, go on to the check of the trailer.
pub parse_frame-cut :
    (digests : Digests) (bytes : List ℕ) (version : String) (key : List ℕ) (n : ℕ)
    → take 4 bytes ≡ be32 prefix
    → drop (length bytes - 4) bytes ≡ be32 suffix
    → u32 (drop 12 bytes) ≡ n + trailer_size version
    → length bytes ≡ 16 + (n + trailer_size version)
    → n + trailer_size version ≤ max_length
    → 8 ≤ trailer_size version
    → parse_frame digests bytes version key ≡ (
        verify digests version key
          (take (16 + n) bytes)
          (take (trailer_size version) (drop (16 + n) bytes))
        >> ok (record {
          sequence = u32 (drop 4 bytes);
          command = u32 (drop 8 bytes);
          payload = take n (drop 16 bytes);
        }))
unfolding parse_frame
parse_frame-cut digests bytes version key n first last size long fits room =
    let payload_end : 16 + (n + trailer_size version) - trailer_size version ≡ 16 + n =
      omega arith in
    let payload_length : 16 + n - 16 ≡ n = omega arith in
    let not_short : ltb (length bytes) 24 ≡ false = ground arith in
    let in_limit : ltb max_length (n + trailer_size version) ≡ false = ground arith in
    let holds_trailer : ltb (n + trailer_size version) (trailer_size version) ≡ false =
      ground arith in
    let as_long : nat_eq (length bytes) (16 + (n + trailer_size version)) ≡ true = ground arith in
    rw not_short (
      rw first (
        rw last (
          rw size (
            rw payload_end (
              rw payload_length (
                rw (list_eq_self (be32 prefix)) (
                  rw (list_eq_self (be32 suffix))
                    (rw in_limit (rw as_long (rw holds_trailer))))))))))

pub trailer_size-room : (version : String) → 8 ≤ trailer_size version
unfolding trailer_size
trailer_size-room version = ground arith

-- What `parse_frame` has checked of the bytes of a frame that it returns.
pub record IsCut (bytes : List ℕ) (version : String) : Type 0 where
  pub first : take 4 bytes ≡ be32 prefix
  pub last : drop (length bytes - 4) bytes ≡ be32 suffix
  pub long : length bytes ≡ 16 + u32 (drop 12 bytes)
  pub fits : u32 (drop 12 bytes) ≤ max_length
  pub holds_trailer : trailer_size version ≤ u32 (drop 12 bytes)

pub parse_frame-IsCut :
    (digests : Digests) (bytes : List ℕ) (version : String) (key : List ℕ) {f : TuyaFrame}
    → parse_frame digests bytes version key ≡ ok f
    → IsCut bytes version
unfolding parse_frame
parse_frame-IsCut digests bytes version key h = record {
  first = list_eq→eq (take 4 bytes) (be32 prefix) (ground arith);
  last = list_eq→eq (drop (length bytes - 4) bytes) (be32 suffix) (ground arith);
  long = ground arith;
  fits = ground arith;
  holds_trailer = ground arith;
}

abbrev pub signed : (p s c l payload : List ℕ) → List ℕ
signed p s c l payload = (p ++ (s ++ (c ++ l))) ++ payload

abbrev pub frame : (p s c l payload code x : List ℕ) → List ℕ
frame p s c l payload code x = (signed p s c l payload ++ code) ++ x

module _ (p s c l payload code x : List ℕ) (lp : length p ≡ 4) (ls : length s ≡ 4)
    (lc : length c ≡ 4) (ll : length l ≡ 4) (lx : length x ≡ 4) where
  length-signed : length (signed p s c l payload) ≡ 16 + length payload
  length-signed = omega (
    arith,
    length-append (p ++ (s ++ (c ++ l))) payload,
    length-append p (s ++ (c ++ l)),
    length-append s (c ++ l),
    length-append c l,
  )

  pub length-frame : length (frame p s c l payload code x) ≡ 16 + (length payload + length code + 4)
  length-frame = omega (
    arith,
    length-append ((signed p s c l payload) ++ code) x,
    length-append (signed p s c l payload) code,
    length-signed,
  )

  words : (frame p s c l payload code x) ≡ p ++ (s ++ (c ++ (l ++ (payload ++ (code ++ x)))))
  words = simp append_assoc

  pub take-prefix : take 4 (frame p s c l payload code x) ≡ p
  take-prefix = rw words (take-append 4 p _ lp)

  pub drop-suffix :
      drop (length (frame p s c l payload code x) - 4) (frame p s c l payload code x) ≡ x
  drop-suffix =
      drop-append (length (frame p s c l payload code x) - 4) ((signed p s c l payload) ++ code) x
        (omega (arith, length-append ((signed p s c l payload) ++ code) x))

  pub drop-four :
      drop 4 (frame p s c l payload code x) ≡ s ++ (c ++ (l ++ (payload ++ (code ++ x))))
  drop-four = rw words (drop-append 4 p _ lp)

  pub drop-eight : drop 8 (frame p s c l payload code x) ≡ c ++ (l ++ (payload ++ (code ++ x)))
  drop-eight = rw words (
      rw (← append_assoc p s (c ++ (l ++ (payload ++ (code ++ x)))))
        (drop-append 8 (p ++ s) _ (omega (arith, length-append p s))))

  pub drop-twelve : drop 12 (frame p s c l payload code x) ≡ l ++ (payload ++ (code ++ x))
  drop-twelve =
      let regroup : (frame p s c l payload code x)
          ≡ (p ++ (s ++ c)) ++ (l ++ (payload ++ (code ++ x))) =
        simp append_assoc in
      ap (drop 12) regroup
      ∙ drop-append 12 (p ++ (s ++ c)) (l ++ (payload ++ (code ++ x)))
          (omega (arith, length-append p (s ++ c), length-append s c))

  pub take-payload : take (length payload) (drop 16 (frame p s c l payload code x)) ≡ payload
  take-payload =
      let regroup : (frame p s c l payload code x)
          ≡ (p ++ (s ++ (c ++ l))) ++ (payload ++ (code ++ x)) =
        simp append_assoc in
      ap (λ f. take (length payload) (drop 16 f)) regroup
      ∙ ap (take (length payload)) (
          drop-append 16 (p ++ (s ++ (c ++ l))) (payload ++ (code ++ x)) (
            omega (
              arith,
              length-append p (s ++ (c ++ l)),
              length-append s (c ++ l),
              length-append c l,
            )))
      ∙ take-append (length payload) payload (code ++ x) refl

  pub take-signed :
      take (16 + length payload) (frame p s c l payload code x) ≡ (signed p s c l payload)
  take-signed =
      rw (append_assoc (signed p s c l payload) code x)
        (take-append (16 + length payload) (signed p s c l payload) (code ++ x) length-signed)

  pub drop-signed : drop (16 + length payload) (frame p s c l payload code x) ≡ code ++ x
  drop-signed =
      rw (append_assoc (signed p s c l payload) code x)
        (drop-append (16 + length payload) (signed p s c l payload) (code ++ x) length-signed)

  take-trailer :
      (n : ℕ)
      → length code + 4 ≡ n
      → take n (drop (16 + length payload) (frame p s c l payload code x)) ≡ code ++ x
  take-trailer n size =
      ap (take n) (drop-signed ∙ sym (append-nil (code ++ x)))
      ∙ take-append n (code ++ x) [] (omega (arith, length-append code x))

  -- A frame with the right words goes on to the check of its integrity code.
  pub parse_frame-frame :
      (digests : Digests) (version : String) (key : List ℕ)
      → p ≡ be32 prefix
      → x ≡ be32 suffix
      → u32 (l ++ (payload ++ (code ++ x))) ≡ length payload + trailer_size version
      → length payload + trailer_size version ≤ max_length
      → length code + 4 ≡ trailer_size version
      → parse_frame digests (frame p s c l payload code x) version key ≡ (
          verify digests version key (signed p s c l payload) (code ++ x)
          >> ok (record {
            sequence = u32 (s ++ (c ++ (l ++ (payload ++ (code ++ x)))));
            command = u32 (c ++ (l ++ (payload ++ (code ++ x))));
            payload = payload;
          }))
  parse_frame-frame digests version key ep ex size fits trailer =
      let n = length payload in
      parse_frame-cut digests (frame p s c l payload code x) version key n (take-prefix ∙ ep)
        (drop-suffix ∙ ex) (ap u32 drop-twelve ∙ size) (omega (arith, length-frame)) fits
        (trailer_size-room version)
      ∙ λ i.
          verify digests version key (take-signed i) (take-trailer (trailer_size version) trailer i)
          >> ok (record {
            sequence = u32 (drop-four i);
            command = u32 (drop-eight i);
            payload = take-payload i;
          })

-- Bytes that are long enough are a frame in parts.
pub split_frame :
    (bytes : List ℕ) (n t j : ℕ)
    → 16 + n + t ≡ j
    → bytes
      ≡ frame
          (take 4 bytes)
          (take 4 (drop 4 bytes))
          (take 4 (drop 8 bytes))
          (take 4 (drop 12 bytes))
          (take n (drop 16 bytes))
          (take t (drop (16 + n) bytes))
          (drop j bytes)
split_frame bytes n t j e =
    let p = take 4 bytes in
    let s = take 4 (drop 4 bytes) in
    let c = take 4 (drop 8 bytes) in
    let l = take 4 (drop 12 bytes) in
    let payload = take n (drop 16 bytes) in
    let code = take t (drop (16 + n) bytes) in
    let tail₁ =
      split_at 16 n (16 + n) bytes refl ∙ ap (λ r. payload ++ r) (split_at (16 + n) t j bytes e) in
    let tail₂ = split_at 12 4 16 bytes refl ∙ ap (λ r. l ++ r) tail₁ in
    let tail₃ = split_at 8 4 12 bytes refl ∙ ap (λ r. c ++ r) tail₂ in
    let tail₄ = split_at 4 4 8 bytes refl ∙ ap (λ r. s ++ r) tail₃ in
    split_at 0 4 4 bytes refl ∙ ap (λ r. p ++ r) tail₄ ∙ sym (simp append_assoc)
