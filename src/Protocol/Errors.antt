-- ===== src/Protocol/Errors.antt =====
-- What `Envelope.from_dict` refuses.
use linker.Prelude.{
  ◌≡◌, refl, Option, none, some, Bool, true, false, ◌&&◌, ◌||◌, ◌⊎◌, inl, inr, String, string_Eq,
  arith,
}
use linker.Python.Exc.{
  Exc, err, envelope_error, overflow_error, is_envelope_error, is_overflow_error,
}
use linker.Python.Exc.Raises.{RaisesOnly, raises_rules}
use linker.Python.Dict.{get}
use linker.Python.Value.{Value, Fields, str, obj, null, to_dict}
use linker.Protocol.{
  Envelope, IsoTime, IsoText, unrepresentable, new, from_dict, uuid_field, timestamp_field,
  optional_uuid, texts_of, fields_of, item,
}

abbrev is_unrepresentable : IsoText → Bool
is_unrepresentable unrepresentable = true
is_unrepresentable t = false

-- The value is a text of a time that UTC does not have.
abbrev is_late : IsoTime → Value → Bool
is_late iso (str s) = is_unrepresentable (iso.from_iso s)
is_late iso v = false

-- A ProtocolError, or an OverflowError where there may be one.
abbrev is_refusal : Bool → Exc → Bool
is_refusal late e = is_envelope_error e || (is_overflow_error e && late)

module _ (late : Bool) where
  uuid_field-RaisesOnly :
      (name : String) (v : Value) → RaisesOnly (is_refusal late) (uuid_field name v)
  unfolding uuid_field
  uuid_field-RaisesOnly name v = record { at = λ e h. ground arith }

  optional_uuid-RaisesOnly : (o : Option Value) → RaisesOnly (is_refusal late) (optional_uuid o)
  optional_uuid-RaisesOnly none = search raises_rules
  optional_uuid-RaisesOnly (some null) = search raises_rules
  optional_uuid-RaisesOnly (some _) = search (raises_rules, uuid_field-RaisesOnly)

  texts_of-RaisesOnly : (a b : Value) → RaisesOnly (is_refusal late) (texts_of a b)
  texts_of-RaisesOnly a b = record { at = λ e h. ground arith }

  fields_of-RaisesOnly : (v : Value) → RaisesOnly (is_refusal late) (fields_of v)
  fields_of-RaisesOnly v = record { at = λ e h. ground arith }

  new-RaisesOnly : (e : Envelope) → RaisesOnly (is_refusal late) (new e)
  unfolding new
  new-RaisesOnly e = search raises_rules

timestamp_field-RaisesOnly :
    (iso : IsoTime) (v : Value) → RaisesOnly (is_refusal (is_late iso v)) (timestamp_field iso v)
unfolding timestamp_field
timestamp_field-RaisesOnly iso v = record { at = λ e h. ground arith }

abbrev is_late_in : IsoTime → Value → Bool
is_late_in iso (obj fs) = is_late iso (item (to_dict fs) "ts")
is_late_in iso v = false

from_dict-RaisesOnly :
    (iso : IsoTime) (v : Value) → RaisesOnly (is_refusal (is_late_in iso v)) (from_dict iso v)
unfolding from_dict
from_dict-RaisesOnly iso (obj fs) =
    search
      (
        raises_rules, uuid_field-RaisesOnly, optional_uuid-RaisesOnly, timestamp_field-RaisesOnly,
        texts_of-RaisesOnly, fields_of-RaisesOnly, new-RaisesOnly,
      )
      depth 24
from_dict-RaisesOnly iso _ = search raises_rules

-- An object whose `ts` is a text of a time that is in no year of UTC.
abbrev pub IsLate : IsoTime → Value → Type 0
IsLate iso v =
    (fs : Fields) × (s : String) × (v ≡ obj fs)
    × (get (to_dict fs) "ts" ≡ some (str s))
    × (iso.from_iso s ≡ unrepresentable)

is_unrepresentable-eq : (t : IsoText) → is_unrepresentable t ≡ true → t ≡ unrepresentable
is_unrepresentable-eq unrepresentable h = refl
is_unrepresentable-eq t h = cc

is_late_in-IsLate : (iso : IsoTime) (v : Value) → is_late_in iso v ≡ true → IsLate iso v
is_late_in-IsLate iso (obj fs) h = found (get (to_dict fs) "ts") refl h
  where
    found :
        (o : Option Value)
        → get (to_dict fs) "ts" ≡ o
        → is_late iso (elim o [ none ↦ null | some v ↦ v ]) ≡ true
        → IsLate iso (obj fs)
    found (some (str s)) e h = (fs, s, refl, e, is_unrepresentable-eq (iso.from_iso s) h)
    found _ e h = cc
is_late_in-IsLate iso _ h = cc

refusal-cases :
    (iso : IsoTime) (v : Value) (e : Exc)
    → is_refusal (is_late_in iso v) e ≡ true
    → (is_envelope_error e ≡ true) ⊎ ((is_overflow_error e ≡ true) × IsLate iso v)
refusal-cases iso v (envelope_error m) h = inl refl
refusal-cases iso v (overflow_error m) h = inr (refl, is_late_in-IsLate iso v h)
refusal-cases iso v _ h = cc

pub from_dict-errors :
    (iso : IsoTime) (v : Value) (e : Exc)
    → from_dict iso v ≡ err e
    → (is_envelope_error e ≡ true) ⊎ ((is_overflow_error e ≡ true) × IsLate iso v)
from_dict-errors iso v e h = refusal-cases iso v e ((from_dict-RaisesOnly iso v).at e h)
