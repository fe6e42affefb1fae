-- ===== src/Python/Value.antt =====
-- The values that `json.loads` returns.
use linker.Prelude.{
  ℕ, zero, suc, ◌/◌, ◌^◌, String, Bool, ◌≡◌, refl, ap, ℤ, pos, negsuc, List, [], ◌∷◌,
}
use linker.Python.Exc.{Result, ok, err, value_error, overflow_error}

-- A double. `finite m k` is m / 2 ^ k, which every finite one is.
pub data Float : Type 0 where
  finite : ℤ → ℕ → Float
  inf minus_inf nan : Float

-- `int(x)`: towards zero. A quotient of 0 is `int(-0.5)`, which is 0.
neg_or_zero : ℕ → ℤ
neg_or_zero q = elim q [ zero ↦ pos 0 | suc n ↦ negsuc n ]

pub trunc : Float → Result ℤ
unfolding neg_or_zero
trunc (finite (pos m) k) = ok (pos (m / 2 ^ k))
trunc (finite (negsuc m) k) = ok (neg_or_zero (suc m / 2 ^ k))
trunc inf = err (overflow_error "cannot convert float infinity to integer")
trunc minus_inf = err (overflow_error "cannot convert float infinity to integer")
trunc nan = err (value_error "cannot convert float NaN to integer")

mutual
  pub data Value : Type 0 where
    null : Value
    bool : Bool → Value
    int : ℤ → Value
    float : Float → Value
    str : String → Value
    arr : Items → Value
    obj : Fields → Value

  pub data Fields : Type 0 where
    end : Fields
    field : String → Value → Fields → Fields

  pub data Items : Type 0 where
    nil : Items
    cons : Value → Items → Items

-- A JSON object is a dict with text keys.
abbrev pub to_dict : Fields → List (String × Value)
to_dict end = []
to_dict (field k v fs) = (k, v) ∷ to_dict fs

abbrev pub of_dict : List (String × Value) → Fields
of_dict [] = end
of_dict ((k, v) ∷ d) = field k v (of_dict d)

pub to_dict-of_dict : (d : List (String × Value)) → to_dict (of_dict d) ≡ d
to_dict-of_dict [] = refl
to_dict-of_dict ((k, v) ∷ d) = ap (λ l. (k, v) ∷ l) (to_dict-of_dict d)
