-- ===== src/Python/Exc/Raises.antt =====
-- Which exceptions a call raises, with one rule for each way to build a call.
use linker.Prelude.{Bool, true, false, ◌≡◌, refl, arith, if◌then◌else◌}
use linker.Python.Exc.{Exc, Result, ok, err, guard, raise_if, ◌>>=◌}

-- Every exception that `r` raises is of the classes `P`.
pub record RaisesOnly {ℓ} {A : Type ℓ} (P : Exc → Bool) (r : Result A) : Type ℓ where
  pub at : (e : Exc) → r ≡ err e → P e ≡ true

module _ {ℓ} {A : Type ℓ} {P : Exc → Bool} where
  pub RaisesOnly-ok : (a : A) → RaisesOnly P (ok a)
  RaisesOnly-ok a = record { at = λ e h. cc }

  pub RaisesOnly-err : (e : Exc) → P e ≡ true → RaisesOnly {A = A} P (err e)
  RaisesOnly-err e h = record { at = λ f same. ground (arith, h) }

  pub RaisesOnly-if :
      (b : Bool) (m n : Result A)
      → RaisesOnly P m
      → RaisesOnly P n
      → RaisesOnly P (if b then m else n)
  RaisesOnly-if true m n km kn = km
  RaisesOnly-if false m n km kn = kn

module _ {P : Exc → Bool} where
  pub RaisesOnly-guard : (b : Bool) (e : Exc) → P e ≡ true → RaisesOnly P (guard b e)
  RaisesOnly-guard true e h = RaisesOnly-ok tt
  RaisesOnly-guard false e h = RaisesOnly-err e h

  pub RaisesOnly-raise_if : (b : Bool) (e : Exc) → P e ≡ true → RaisesOnly P (raise_if b e)
  RaisesOnly-raise_if true e h = RaisesOnly-err e h
  RaisesOnly-raise_if false e h = RaisesOnly-ok tt

module _ {ℓ κ} {A : Type ℓ} {B : Type κ} {P : Exc → Bool} where
  pub RaisesOnly-bind :
      (m : Result A) (f : A → Result B)
      → RaisesOnly P m
      → ((a : A) → RaisesOnly P (f a))
      → RaisesOnly P (m >>= f)
  RaisesOnly-bind (ok a) f km kf = kf a
  RaisesOnly-bind (err e) f km kf = RaisesOnly-err e (km.at e refl)

pub ruleset raises_rules = (
  RaisesOnly-ok, RaisesOnly-err, RaisesOnly-if, RaisesOnly-guard, RaisesOnly-raise_if,
  RaisesOnly-bind,
)
