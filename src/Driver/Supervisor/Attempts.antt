-- ===== src/Driver/Supervisor/Attempts.antt =====
-- The health that the supervisor reports, and how a run ends.
use linker.Prelude.{
  ℕ, zero, suc, ◌+◌, ◌≤◌, Bool, true, false, Option, none, ◌≡◌, ◌≢◌, refl, length, arith,
  Bool-cases, inl, inr,
}
use linker.Python.Exc.{Result}
use linker.Driver.Supervisor.{
  ReconnectPolicy, Connection, Supervisor, Pass, again, returned, raised, wait, recover, announce,
  connected, attempt, passes, after_pass, run,
}

not_yet : (stop : ℕ → Bool) (m n : ℕ) → stop m ≡ false → stop n ≡ true → m ≢ n
not_yet stop m n f t e = cc

module _ {D : Type 0} (policy : ReconnectPolicy) (connection : Connection D) where
  -- A pass of the loop after which `run` returns leaves no error and no count of attempts from the
  -- failures before it, and has not waited.
  pub attempt-returned :
      (s : Supervisor D)
      → (attempt policy connection s).0 ≡ returned
      → let t = (attempt policy connection s).1 in
        (t.last_error ≡ none) × (t.attempts ≡ 0) × (t.waited ≡ s.waited)
  unfolding attempt connected announce recover wait
  attempt-returned s h = ground arith

  attempt-again :
      (s : Supervisor D)
      → (attempt policy connection s).0 ≡ again
      → length (attempt policy connection s).1.waited ≡ suc (length s.waited)
  unfolding attempt connected announce recover wait
  attempt-again s h = ground arith

  after_pass-stops :
      (p : Pass × Supervisor D) (rest : Option (Result (Unit {0})) × Supervisor D)
      → (p.0 ≡ again → rest.0 ≢ none)
      → (after_pass policy connection p rest).0 ≢ none
  unfolding after_pass
  after_pass-stops (again, t) rest later = later refl
  after_pass-stops (returned, t) rest later = λ h. cc
  after_pass-stops (raised e, t) rest later = λ h. cc

  passes-stops :
      (stop : ℕ → Bool) (n fuel : ℕ) (s : Supervisor D)
      → stop n ≡ true
      → length s.waited + fuel ≡ n + 1
      → length s.waited ≤ n
      → (passes policy connection stop fuel s).0 ≢ none
  unfolding passes
  passes-stops stop n zero s h e l = omega arith
  passes-stops stop n (suc fuel) s h e l = elim (Bool-cases (stop (length s.waited))) [
    | inl is_true ↦ rw is_true (λ h. cc)
    | inr is_false ↦
        let t = (attempt policy connection s).1 in
        rw is_false (
          after_pass-stops (attempt policy connection s) (passes policy connection stop fuel t)
            (λ a.
              passes-stops stop n fuel t h (omega (arith, attempt-again s a))
                (omega (arith, attempt-again s a, not_yet stop (length s.waited) n is_false h))))
  ]

  -- If the stop is set after n waits, n + 1 passes of the loop are enough for `run` to end, whatever the
  -- driver does.
  pub run-stops :
      (stop : ℕ → Bool) (n : ℕ) (s : Supervisor D)
      → stop n ≡ true
      → (run policy connection stop (n + 1) s).0 ≢ none
  unfolding run
  run-stops stop n s h = passes-stops stop n (n + 1) _ h (omega arith) (omega arith)
