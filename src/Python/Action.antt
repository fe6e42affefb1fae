-- ===== src/Python/Action.antt =====
-- A method that may raise, on the state of its object.
use linker.Prelude.{Bool, true, false, ◌≡◌, refl, ap, if◌then◌else◌}
use linker.Python.Exc.{Exc, Result, ok, err}

abbrev pub Action : Type 0 → Type 0 → Type 0
Action S A = S → Result A × S

module _ {S A : Type 0} where
  abbrev pub pure : A → Action S A
  pure a s = (ok a, s)

  abbrev pub raise : Exc → Action S A
  raise e s = (err e, s)

  -- A call that changes nothing.
  abbrev pub lift : Result A → Action S A
  lift r s = (r, s)

-- A change of the state.
abbrev pub modify : {S : Type 0} → (S → S) → Action S (Unit {0})
modify change s = (ok tt, change s)

abbrev pub then_call : {S A B : Type 0} → (A → Action S B) → Result A × S → Result B × S
then_call f (ok a, t) = f a t
then_call f (err e, t) = (err e, t)

infixl 5 ◌>>=◌
abbrev pub ◌>>=◌ : {S A B : Type 0} → Action S A → (A → Action S B) → Action S B
◌>>=◌ m f s = then_call f (m s)

infixl 5 ◌>>◌
abbrev pub ◌>>◌ : {S B : Type 0} → Action S (Unit {0}) → Action S B → Action S B
m >> rest = m >>= λ _. rest

then_call-eq-ok :
    {S A B : Type 0} (f : A → Action S B) (r : Result A × S) {b : B}
    → (then_call f r).0 ≡ ok b
    → (a : A) × (r.0 ≡ ok a) × ((f a r.1).0 ≡ ok b)
then_call-eq-ok f (ok a, t) h = (a, refl, h)
then_call-eq-ok f (err e, t) h = cc

-- A block that returned: its first call did, and so did the rest of it.
pub >>=-eq-ok :
    {S A B : Type 0} (m : Action S A) (f : A → Action S B) (s : S) {b : B}
    → ((m >>= f) s).0 ≡ ok b
    → (a : A) × ((m s).0 ≡ ok a) × ((f a (m s).1).0 ≡ ok b)
>>=-eq-ok m f s h = then_call-eq-ok f (m s) h

-- A test of the state.
abbrev pub inspect : {S A : Type 0} → (S → Action S A) → Action S A
inspect f s = f s s

-- The cleanup of `except BaseException: cleanup; raise`.
abbrev pub clean_up : {S A : Type 0} → Action S (Unit {0}) → Result A × S → Result A × S
clean_up cleanup (ok a, t) = (ok a, t)
clean_up cleanup (err e, t) = (cleanup >> raise e) t

abbrev pub on_error : {S A : Type 0} → Action S (Unit {0}) → Action S A → Action S A
on_error cleanup m s = clean_up cleanup (m s)

-- What every call keeps of the state.
pub record Keeps {S A : Type 0} (P : S → Type 0) (m : Action S A) : Type 0 where
  pub after : (s : S) → P s → P (m s).1

module _ {S A : Type 0} {P : S → Type 0} where
  pub Keeps-pure : (a : A) → Keeps P (pure a)
  Keeps-pure a = record { after = λ s h. h }

  pub Keeps-raise : (e : Exc) → Keeps {A = A} P (raise e)
  Keeps-raise e = record { after = λ s h. h }

  pub Keeps-lift : (r : Result A) → Keeps P (lift r)
  Keeps-lift r = record { after = λ s h. h }

pub Keeps-modify :
    {S : Type 0} {P : S → Type 0} (f : S → S) → ((s : S) → P s → P (f s)) → Keeps P (modify f)
Keeps-modify f h = record { after = h }

module _ {S A B : Type 0} {P : S → Type 0} where
  after_bind :
      (r : Result A × S) (f : A → Action S B)
      → P r.1
      → ((a : A) → Keeps P (f a))
      → P (then_call f r).1
  after_bind (ok a, t) f h k = (k a).after t h
  after_bind (err e, t) f h k = h

  pub Keeps-bind :
      (m : Action S A) (f : A → Action S B)
      → Keeps P m
      → ((a : A) → Keeps P (f a))
      → Keeps P (m >>= f)
  Keeps-bind m f km kf = record { after = λ s h. after_bind (m s) f (km.after s h) kf }

-- What a call may return where `P` holds before it.
abbrev pub Returned : {S A : Type 0} → (S → Type 0) → Action S A → A → Type 0
Returned {S = S} P m a = (s : S) × P s × ((m s).0 ≡ ok a)

module _ {S A B : Type 0} {P : S → Type 0} where
  after_returned :
      (m : Action S A) (s : S) (r : Result A × S) (f : A → Action S B)
      → m s ≡ r
      → P s
      → P r.1
      → ((a : A) → Returned P m a → Keeps P (f a))
      → P (then_call f r).1
  after_returned m s (ok a, t) f e p h k = (k a (s, p, ap (λ q. q.0) e)).after t h
  after_returned m s (err e, t) f same p h k = h

  -- The rest of a block may rely on what the call before it returned.
  pub Keeps-Returned :
      (m : Action S A) (f : A → Action S B)
      → Keeps P m
      → ((a : A) → Returned P m a → Keeps P (f a))
      → Keeps P (m >>= f)
  Keeps-Returned m f km kf = record {
    after = λ s h. after_returned m s (m s) f refl h (km.after s h) kf;
  }

module _ {S A : Type 0} {P : S → Type 0} where
  pub Keeps-inspect : (f : S → Action S A) → ((s : S) → P s → Keeps P (f s)) → Keeps P (inspect f)
  Keeps-inspect f k = record { after = λ s h. (k s h).after s h }

  pub Keeps-if :
      (b : Bool) (m n : Action S A) → Keeps P m → Keeps P n → Keeps P (if b then m else n)
  Keeps-if true m n km kn = km
  Keeps-if false m n km kn = kn

  -- The two branches, each where the test leads to it.
  pub Keeps-cases :
      (b : Bool) (m n : Action S A)
      → (b ≡ true → Keeps P m)
      → (b ≡ false → Keeps P n)
      → Keeps P (if b then m else n)
  Keeps-cases true m n km kn = km refl
  Keeps-cases false m n km kn = kn refl

  after_error :
      (cleanup : Action S (Unit {0})) (r : Result A × S)
      → P r.1
      → Keeps P cleanup
      → P (clean_up cleanup r).1
  after_error cleanup (ok a, t) h k = h
  after_error cleanup (err e, t) h k =
      (Keeps-bind cleanup (λ _. raise {A = A} e) k (λ _. Keeps-raise e)).after t h

  pub Keeps-on_error :
      (cleanup : Action S (Unit {0})) (m : Action S A)
      → Keeps P cleanup
      → Keeps P m
      → Keeps P (on_error cleanup m)
  Keeps-on_error cleanup m kc km = record {
    after = λ s h. after_error cleanup (m s) (km.after s h) kc;
  }

pub ruleset keeps_rules = (
  Keeps-pure, Keeps-raise, Keeps-lift, Keeps-modify, Keeps-bind, Keeps-inspect, Keeps-if,
  Keeps-on_error,
)

-- What holds of every value that a call returns.
pub record Yields {S A : Type 0} (Q : A → Type 0) (m : Action S A) : Type 0 where
  pub at : (s : S) (a : A) → (m s).0 ≡ ok a → Q a

module _ {S A B : Type 0} {Q : B → Type 0} where
  pub Yields-bind :
      (m : Action S A) (f : A → Action S B) → ((a : A) → Yields Q (f a)) → Yields Q (m >>= f)
  Yields-bind m f k = record {
    at = λ s b e. let (a, first, rest) = >>=-eq-ok m f s e in (k a).at (m s).1 b rest;
  }

  -- The rest of a block may rely on what the call before it yields.
  pub Yields-yielded :
      {R : A → Type 0} (m : Action S A) (f : A → Action S B)
      → Yields R m
      → ((a : A) → R a → Yields Q (f a))
      → Yields Q (m >>= f)
  Yields-yielded m f r k = record {
    at = λ s b e.
        let (a, first, rest) = >>=-eq-ok m f s e in (k a (r.at s a first)).at (m s).1 b rest;
  }
