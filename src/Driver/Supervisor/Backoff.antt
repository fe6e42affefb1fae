-- ===== src/Driver/Supervisor/Backoff.antt =====
-- The times that the supervisor waits between its attempts.
use native.Mathlib.Numerals.{unary_clauses}
use linker.Prelude.{
  ℕ, zero, suc, ◌*◌, ◌^◌, ◌≤◌, Bool, true, false, Option, some, ◌≡◌, ◌≢◌, refl, sym, ap, ◌∙◌, List,
  [], ◌∷◌, length, min, if◌then◌else◌, arith,
}
use linker.Python.Exc.{Exc, Result, ok, err, cancelled}
use linker.Driver.Supervisor.{
  ReconnectPolicy, Connection, Supervisor, Pass, again, returned, raised, wait, recover, announce,
  connected, attempt, passes, after_pass, run,
}

-- The wait after `k` failures: doubled each time, up to the maximum.
abbrev pub backoff : ReconnectPolicy → ℕ → ℕ
backoff policy k = min (policy.initial_s * 2 ^ k) policy.maximum_s

-- The first `k` waits, the last one first.
abbrev pub backoffs : ReconnectPolicy → ℕ → List ℕ
backoffs policy zero = []
backoffs policy (suc k) = backoff policy k ∷ backoffs policy k

-- The supervisor has waited as the policy says, and so it will the next time.
record IsOnSchedule {D : Type 0} (policy : ReconnectPolicy) (s : Supervisor D) : Type 0 where
  waited : s.waited ≡ backoffs policy (length s.waited)
  delay : s.delay ≡ backoff policy (length s.waited)

double : (a b : ℕ) → a * (b * 2) ≡ a * b * 2
double a b = grind arith

power : (k : ℕ) → 2 ^ suc k ≡ 2 ^ k * 2
power k = simp unary_clauses

min-double : (a m : ℕ) → min (min a m * 2) m ≡ min (a * 2) m
min-double a m = omega arith

min-one : (a m : ℕ) → a ≤ m → a ≡ min (a * 2 ^ 0) m
min-one a m h = omega arith

backoff-suc :
    (policy : ReconnectPolicy) (k : ℕ)
    → min (backoff policy k * 2) policy.maximum_s ≡ backoff policy (suc k)
backoff-suc policy k =
    min-double (policy.initial_s * 2 ^ k) policy.maximum_s
    ∙ ap (λ a. min a policy.maximum_s)
        (sym (ap (λ a. policy.initial_s * a) (power k) ∙ double policy.initial_s (2 ^ k)))

length-backoffs : (policy : ReconnectPolicy) (k : ℕ) → length (backoffs policy k) ≡ k
length-backoffs policy zero = refl
length-backoffs policy (suc k) = ap suc (length-backoffs policy k)

-- What a pass of the loop does to the waits.
data IsPass {D : Type 0} (policy : ReconnectPolicy) (delay : ℕ) (before : List ℕ)
    : Pass × Supervisor D → Type 0 where
  no_wait :
      (p : Pass) (t : Supervisor D)
      → p ≢ again
      → t.waited ≡ before
      → IsPass policy delay before (p, t)
  waited :
      (p : Pass) (t : Supervisor D)
      → p ≢ again
      → t.waited ≡ delay ∷ before
      → IsPass policy delay before (p, t)
  waited_again :
      (t : Supervisor D)
      → t.waited ≡ delay ∷ before
      → t.delay ≡ min (delay * 2) policy.maximum_s
      → IsPass policy delay before (again, t)

module _ {D : Type 0} (policy : ReconnectPolicy) (connection : Connection D) where
  wait-IsPass :
      (r : Result (Unit {0}) × D) (s : Supervisor D)
      → IsPass policy s.delay s.waited (wait policy connection r s)
  unfolding wait
  wait-IsPass (ok u, d) s = waited_again _ refl refl
  wait-IsPass (err e, d) s = waited _ _ (λ h. cc) refl

  recover-IsPass :
      (e : Exc) (s : Supervisor D) → IsPass policy s.delay s.waited (recover policy connection e s)
  unfolding recover
  recover-IsPass cancelled s = no_wait _ _ (λ h. cc) refl
  recover-IsPass e s = wait-IsPass _ _

  announce-IsPass :
      (r : Result (Unit {0}) × D) (s : Supervisor D)
      → IsPass policy s.delay s.waited (announce policy connection r s)
  unfolding announce
  announce-IsPass (ok u, d) s = no_wait _ _ (λ h. cc) refl
  announce-IsPass (err e, d) s = recover-IsPass e _

  connected-IsPass :
      (r : Result (Unit {0}) × D) (s : Supervisor D)
      → IsPass policy s.delay s.waited (connected policy connection r s)
  unfolding connected
  connected-IsPass (ok u, d) s = announce-IsPass (connection.on_connected d) _
  connected-IsPass (err e, d) s = recover-IsPass e _

  attempt-IsPass : (s : Supervisor D) → IsPass policy s.delay s.waited (attempt policy connection s)
  unfolding attempt
  attempt-IsPass s = connected-IsPass (connection.connect s.driver) s

  waited-schedule :
      (s t : Supervisor D)
      → IsOnSchedule policy s
      → t.waited ≡ s.delay ∷ s.waited
      → t.waited ≡ backoffs policy (length t.waited)
  waited-schedule s t k w =
      rw w (rw k.delay (ap (λ l. backoff policy (length s.waited) ∷ l) k.waited))

  next-schedule :
      (s t : Supervisor D)
      → IsOnSchedule policy s
      → t.waited ≡ s.delay ∷ s.waited
      → t.delay ≡ min (s.delay * 2) policy.maximum_s
      → IsOnSchedule policy t
  next-schedule s t k w d = record {
    waited = waited-schedule s t k w;
    delay = d ∙ rw w (rw k.delay (backoff-suc policy (length s.waited)));
  }

  after_pass-schedule :
      (s : Supervisor D) (p : Pass × Supervisor D)
      (rest : Option (Result (Unit {0})) × Supervisor D)
      → IsOnSchedule policy s
      → IsPass policy s.delay s.waited p
      → (IsOnSchedule policy p.1 → rest.1.waited ≡ backoffs policy (length rest.1.waited))
      → let t = (after_pass policy connection p rest).1 in
        t.waited ≡ backoffs policy (length t.waited)
  unfolding after_pass
  after_pass-schedule s p rest k (no_wait again t h w) later = absurd (h refl)
  after_pass-schedule s p rest k (no_wait returned t h w) later = rw w k.waited
  after_pass-schedule s p rest k (no_wait (raised e) t h w) later = rw w k.waited
  after_pass-schedule s p rest k (waited again t h w) later = absurd (h refl)
  after_pass-schedule s p rest k (waited returned t h w) later = waited-schedule s t k w
  after_pass-schedule s p rest k (waited (raised e) t h w) later = waited-schedule s t k w
  after_pass-schedule s p rest k (waited_again t w d) later = later (next-schedule s t k w d)

  passes-schedule :
      (stop : ℕ → Bool) (fuel : ℕ) (s : Supervisor D)
      → IsOnSchedule policy s
      → let t = (passes policy connection stop fuel s).1 in
        t.waited ≡ backoffs policy (length t.waited)
  unfolding passes
  passes-schedule stop zero s k = k.waited
  passes-schedule stop (suc fuel) s k =
      elim (stop (length s.waited))
        as (λ b.
          let t =
            (if b
              then (some (ok tt), s)
              else after_pass policy connection (attempt policy connection s)
                  (passes policy connection stop fuel (attempt policy connection s).1)).1 in
          t.waited ≡ backoffs policy (length t.waited)) [
            | true ↦ k.waited
            | false ↦
                after_pass-schedule s (attempt policy connection s)
                  (passes policy connection stop fuel (attempt policy connection s).1) k
                  (attempt-IsPass s) (passes-schedule stop fuel (attempt policy connection s).1)
          ]

  -- Where the policy's first time is at most its maximum: whatever the driver does and however long it
  -- runs, after the k-th failure `run` has waited for the first time doubled k times, or for the maximum
  -- where that is less, k counted from 0.
  pub run-backoffs :
      (stop : ℕ → Bool) (fuel : ℕ) (s : Supervisor D)
      → policy.initial_s ≤ policy.maximum_s
      → let t = (run policy connection stop fuel s).1 in
        t.waited ≡ backoffs policy (length t.waited)
  unfolding run
  run-backoffs stop fuel s h =
      passes-schedule stop fuel _
        (record { waited = refl; delay = min-one policy.initial_s policy.maximum_s h })
