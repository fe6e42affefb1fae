-- ===== src/Tuya/Frame/Stream.antt =====
-- `_read_frame` on a stream, and the errors of `parse_frame`.
use linker.Prelude.{
  ℕ, String, true, false, ◌≡◌, sym, ap, ◌∙◌, List, ◌++◌, append_assoc, arith, ltb, length, take,
  drop, list_eq_self, length-append, take-append, drop-append, take-append_le, drop-append_le,
  take-append-drop, length-take, length-drop,
}
use linker.Python.Exc.{Exc, ok, err, is_protocol_error}
use linker.Python.Exc.Raises.{RaisesOnly, raises_rules}
use linker.Python.Bytes.{be32, u32, u32-append}
use linker.Tuya.Frame.{
  TuyaFrame, Digests, prefix, max_length, verify, parse_frame, read_exactly, read_frame,
}
use linker.Tuya.Frame.Layout.{parse_frame-IsCut}

verify-errors :
    (digests : Digests) (version : String) (key signed trailer : List ℕ)
    → RaisesOnly is_protocol_error (verify digests version key signed trailer)
unfolding verify
verify-errors digests version key signed trailer = search raises_rules

parse_frame-RaisesOnly :
    (digests : Digests) (bytes : List ℕ) (version : String) (key : List ℕ)
    → RaisesOnly is_protocol_error (parse_frame digests bytes version key)
unfolding parse_frame
parse_frame-RaisesOnly digests bytes version key = search (raises_rules, verify-errors) depth 12

-- What `parse_frame` refuses, it refuses with a TuyaProtocolError, whatever the bytes and their number
-- are.
pub parse_frame-errors :
    (digests : Digests) (bytes : List ℕ) (version : String) (key : List ℕ) (e : Exc)
    → parse_frame digests bytes version key ≡ err e
    → is_protocol_error e ≡ true
parse_frame-errors digests bytes version key = (parse_frame-RaisesOnly digests bytes version key).at

read_exactly-append :
    (n : ℕ) (xs ys : List ℕ) → length xs ≡ n → read_exactly n (xs ++ ys) ≡ ok (xs, ys)
unfolding read_exactly
read_exactly-append n xs ys e =
    let enough : ltb (length (xs ++ ys)) n ≡ false = ground (arith, length-append xs ys) in
    rw enough (rw (take-append n xs ys e) (rw (drop-append n xs ys e)))

-- If `parse_frame` accepts the bytes at the front of a stream, `_read_frame` returns their frame and
-- leaves what stands behind them for the next call.
pub read_frame-append :
    (digests : Digests) (version : String) (key bytes rest : List ℕ) (f : TuyaFrame)
    → parse_frame digests bytes version key ≡ ok f
    → read_frame digests (bytes ++ rest) version key ≡ ok (f, rest)
unfolding read_frame
read_frame-append digests version key bytes rest f h =
    let cut = parse_frame-IsCut digests bytes version key h in
    let header = take 16 bytes in
    let body = drop 16 bytes in
    let whole : header ++ body ≡ bytes = take-append-drop 16 bytes in
    let stream : bytes ++ rest ≡ header ++ (body ++ rest) =
      ap (λ l. l ++ rest) (sym whole) ∙ append_assoc header body rest in
    let lheader : length header ≡ 16 = omega (arith, length-take 16 bytes, cut.long) in
    let first : take 4 header ≡ be32 prefix =
      sym (take-append_le 4 header body (omega arith)) ∙ ap (take 4) whole ∙ cut.first in
    let size : u32 (drop 12 bytes) ≡ u32 (drop 12 header) =
      ap (λ l. u32 (drop 12 l)) (sym whole)
      ∙ ap u32 (drop-append_le 12 header body (omega arith))
      ∙ u32-append (drop 12 header) body (omega (arith, length-drop 12 header)) in
    let lbody : length body ≡ u32 (drop 12 header) =
      omega (arith, size, length-drop 16 bytes, cut.long) in
    let small : ltb max_length (u32 (drop 12 header)) ≡ false = ground (arith, size, cut.fits) in
    rw stream (
      rw (read_exactly-append 16 header (body ++ rest) lheader) (
        rw first (
          rw (list_eq_self (be32 prefix)) (
            rw small (
              rw (read_exactly-append (u32 (drop 12 header)) body rest lbody) (rw whole (rw h)))))))
