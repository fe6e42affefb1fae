-- ===== src/Tuya/Dps/Bounds.antt =====
-- The indices that `parse_dps` returns, and what it raises.
use linker.Prelude.{
  ℕ, ◌≤◌, String, true, Option, ◌≡◌, subst, List, [], ◌∷◌, All, nat_Eq, string_Eq, arith,
}
use linker.Python.Exc.{Exc, ok, err, ok-injective, is_protocol_error, >>=-eq-ok}
use linker.Python.Exc.Raises.{RaisesOnly, raises_rules, RaisesOnly-bind, RaisesOnly-ok}
use linker.Python.Dict.{put, get}
use linker.Python.Value.{Value, obj, to_dict}
use linker.Protocol.{Payload}
use linker.Tuya.Mapping.{bounded_int}
use linker.Tuya.Dps.{
  Reading, Dps, dp_index, indexed_dps, dps_of_value, parse_dps, valid_json, indexed, found_dps,
}

-- An index of a data point.
abbrev pub IsIndexed : ℕ × Value → Type 0
IsIndexed (i, v) = (1 ≤ i) × (i ≤ 255)

dp_index-range :
    (reading : Reading) (key : String) {i : ℕ} → dp_index reading key ≡ ok i → (1 ≤ i) × (i ≤ 255)
unfolding dp_index bounded_int
dp_index-range reading key h = ground arith

put-IsIndexed :
    (dps : Dps) (i : ℕ) (v : Value)
    → (1 ≤ i) × (i ≤ 255)
    → All IsIndexed dps
    → All IsIndexed (put dps i v)
put-IsIndexed [] i v k all = (k, tt)
put-IsIndexed ((j, w) ∷ dps) i v k all = ground (arith, put-IsIndexed dps i v k all.1)

indexed_dps-IsIndexed :
    (reading : Reading) (items : Payload) (before : Dps) {dps : Dps}
    → All IsIndexed before
    → indexed_dps reading items before ≡ ok dps
    → All IsIndexed dps
unfolding indexed_dps
indexed_dps-IsIndexed reading [] before all h = subst (All IsIndexed) (ok-injective h) all
indexed_dps-IsIndexed reading ((key, v) ∷ items) before all h =
    let (i, parsed, rest) =
      >>=-eq-ok (dp_index reading key) (λ i. indexed_dps reading items (put before i v)) h in
    indexed_dps-IsIndexed reading items (put before i v)
      (put-IsIndexed before i v (dp_index-range reading key parsed) all) rest

dps_of_value-IsIndexed :
    (reading : Reading) (v : Value) {dps : Dps}
    → dps_of_value reading v ≡ ok dps
    → All IsIndexed dps
unfolding dps_of_value
dps_of_value-IsIndexed reading (obj fs) h =
    let d = to_dict fs in
    let (items, found, rest) =
      >>=-eq-ok (indexed (found_dps (get d "dps") (get d "data")))
        (λ items. indexed_dps reading items []) h in
    indexed_dps-IsIndexed reading items [] tt rest
dps_of_value-IsIndexed reading v h = cc

-- Whatever JSON text a device sends: every data point that is read from it has an index from 1 to 255.
pub parse_dps-IsIndexed :
    (reading : Reading) (payload : List ℕ) {dps : Dps}
    → parse_dps reading payload ≡ ok dps
    → All IsIndexed dps
unfolding parse_dps
parse_dps-IsIndexed reading payload h =
    let (v, loaded, rest) =
      >>=-eq-ok (valid_json (reading.loads payload)) (λ v. dps_of_value reading v) h in
    dps_of_value-IsIndexed reading v rest

dp_index-errors :
    (reading : Reading) (key : String) → RaisesOnly is_protocol_error (dp_index reading key)
unfolding dp_index bounded_int
dp_index-errors reading key = record { at = λ e h. ground arith }

indexed_dps-errors :
    (reading : Reading) (items : Payload) (before : Dps)
    → RaisesOnly is_protocol_error (indexed_dps reading items before)
unfolding indexed_dps
indexed_dps-errors reading [] before = RaisesOnly-ok before
indexed_dps-errors reading ((key, v) ∷ items) before =
    RaisesOnly-bind (dp_index reading key) (λ i. indexed_dps reading items (put before i v))
      (dp_index-errors reading key) (λ i. indexed_dps-errors reading items (put before i v))

indexed-errors : (o : Option Value) → RaisesOnly is_protocol_error (indexed o)
indexed-errors o = record { at = λ e h. ground arith }

valid_json-errors : (o : Option Value) → RaisesOnly is_protocol_error (valid_json o)
valid_json-errors o = record { at = λ e h. ground arith }

dps_of_value-errors :
    (reading : Reading) (v : Value) → RaisesOnly is_protocol_error (dps_of_value reading v)
unfolding dps_of_value
dps_of_value-errors reading (obj fs) = search (raises_rules, indexed-errors, indexed_dps-errors)
dps_of_value-errors reading v = search raises_rules

-- What `parse_dps` refuses, it refuses with a TuyaProtocolError, which the callers catch, whatever the
-- bytes are.
pub parse_dps-errors :
    (reading : Reading) (payload : List ℕ) (e : Exc)
    → parse_dps reading payload ≡ err e
    → is_protocol_error e ≡ true
unfolding parse_dps
parse_dps-errors reading payload =
    (RaisesOnly-bind (valid_json (reading.loads payload)) (dps_of_value reading)
      (valid_json-errors (reading.loads payload)) (dps_of_value-errors reading)).at
