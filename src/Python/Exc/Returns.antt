-- ===== src/Python/Exc/Returns.antt =====
-- What holds of every value that a call returns, with one rule for each way to build a call.
use linker.Prelude.{Bool, true, false, ◌≡◌, arith, subst, if◌then◌else◌}
use linker.Python.Exc.{Exc, Result, ok, err, ok-injective, reraise, ◌>>=◌}

-- Every value that `r` returns satisfies `Q`.
pub record Returns {A : Type 0} (Q : A → Type 0) (r : Result A) : Type 0 where
  pub at : (a : A) → r ≡ ok a → Q a

module _ {A : Type 0} {Q : A → Type 0} where
  pub Returns-ok : (a : A) → Q a → Returns Q (ok a)
  Returns-ok a q = record { at = λ b h. subst Q (ok-injective h) q }

  pub Returns-err : (e : Exc) → Returns Q (err e)
  Returns-err e = record { at = λ b h. cc }

  pub Returns-if :
      (b : Bool) (m n : Result A) → Returns Q m → Returns Q n → Returns Q (if b then m else n)
  Returns-if true m n km kn = km
  Returns-if false m n km kn = kn

  pub Returns-reraise :
      (caught : Exc → Bool) (e : Exc) (r : Result A) → Returns Q r → Returns Q (reraise caught e r)
  Returns-reraise caught e (ok a) k = k
  Returns-reraise caught e (err f) k = record { at = λ b h. ground arith }

pub Returns-bind :
    {A B : Type 0} {Q : B → Type 0} (m : Result A) (f : A → Result B)
    → ((a : A) → Returns Q (f a))
    → Returns Q (m >>= f)
Returns-bind (ok a) f k = k a
Returns-bind (err e) f k = Returns-err e

pub ruleset returns_rules = (Returns-ok, Returns-err, Returns-if, Returns-reraise, Returns-bind)
