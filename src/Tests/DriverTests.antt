-- ===== src/Tests/DriverTests.antt =====
-- The theorems on the supervisor, applied to a driver that connects at its third call.
use linker.Prelude.{
  ℕ, suc, Bool, false, none, ◌≡◌, ◌≢◌, refl, [], length, leb, nat_eq, if◌then◌else◌, arith,
}
use linker.Python.Exc.{ok, err, connection_error}
use linker.Driver.Supervisor.{ReconnectPolicy, Connection, Supervisor, run}
use linker.Driver.Supervisor.Backoff.{backoffs, run-backoffs}
use linker.Driver.Supervisor.Attempts.{run-stops}

abbrev policy : ReconnectPolicy
policy = record { initial_s = 1; maximum_s = 30 }

-- The state counts the calls of `connect`.
abbrev slow : Connection ℕ
slow = record {
  connect = λ n. (if leb 2 n then ok tt else err (connection_error "refused"), suc n);
  disconnect = λ n. (ok tt, n);
  on_connected = λ n. (ok tt, n);
}

abbrev start : Supervisor ℕ
start = record { driver = 0; last_error = none; attempts = 0; delay = 0; waited = [] }

abbrev never : ℕ → Bool
never n = false

abbrev after_two : ℕ → Bool
after_two n = nat_eq n 2

run-backoffs_example :
    let t = (run policy slow never 5 start).1 in t.waited ≡ backoffs policy (length t.waited)
run-backoffs_example = run-backoffs policy slow never 5 start (omega arith)

run-stops_example : (run policy slow after_two 3 start).0 ≢ none
run-stops_example = run-stops policy slow after_two 2 start refl
