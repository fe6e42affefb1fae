-- ===== src/Driver/Supervisor.antt =====
-- driver.py: ReconnectPolicy and ConnectionSupervisor. Times are in a unit in which both times of the policy are
-- whole; doubling such a double is exact.
pub mod Attempts
pub mod Backoff
use linker.Prelude.{
  ℕ, zero, suc, ◌+◌, ◌*◌, String, Bool, true, false, Option, none, some, List, [], ◌∷◌, length, min,
  if◌then◌else◌,
}
use linker.Python.Exc.{Exc, Result, ok, err, cancelled, message, is_exception}

pub record ReconnectPolicy : Type 0 where
  pub initial_s : ℕ
  pub maximum_s : ℕ

-- What `run` calls: the driver, and the callback.
pub record Connection (D : Type 0) : Type 0 where
  pub connect : D → Result (Unit {0}) × D
  pub disconnect : D → Result (Unit {0}) × D
  pub on_connected : D → Result (Unit {0}) × D

-- The supervisor in `run`. `waited` lists the times that it has waited for, the last one first.
pub record Supervisor (D : Type 0) : Type 0 where
  pub driver : D
  pub last_error : Option String
  pub attempts : ℕ
  pub delay : ℕ
  pub waited : List ℕ

-- How one pass of the loop ends.
pub data Pass : Type 0 where
  again : Pass
  returned : Pass
  raised : Exc → Pass

module _ {D : Type 0} (policy : ReconnectPolicy) (connection : Connection D) where
  -- The wait after a failure, and the next delay, which an exception of `disconnect` skips.
  unfoldable pub wait : Result (Unit {0}) × D → Supervisor D → Pass × Supervisor D
  wait (ok u, d) s = (
    again,
    record s {
      driver = d;
      delay = min (s.delay * 2) policy.maximum_s;
      waited = s.delay ∷ s.waited;
    },
  )
  wait (err e, d) s = (raised e, record s { driver = d; waited = s.delay ∷ s.waited })

  -- What the two `except` make of an exception.
  unfoldable pub recover : Exc → Supervisor D → Pass × Supervisor D
  recover cancelled s = (raised cancelled, s)
  recover e s =
      wait (connection.disconnect s.driver)
        (record s { last_error = some (message e); attempts = s.attempts + 1 })

  -- The callback after a connection. When it returns, `run` waits for the stop and returns.
  unfoldable pub announce : Result (Unit {0}) × D → Supervisor D → Pass × Supervisor D
  announce (ok u, d) s = (returned, record s { driver = d })
  announce (err e, d) s = recover e (record s { driver = d })

  unfoldable pub connected : Result (Unit {0}) × D → Supervisor D → Pass × Supervisor D
  connected (ok u, d) s =
      announce (connection.on_connected d)
        (record s { driver = d; last_error = none; attempts = 0 })
  connected (err e, d) s = recover e (record s { driver = d })

  unfoldable pub attempt : Supervisor D → Pass × Supervisor D
  attempt s = connected (connection.connect s.driver) s

  -- Another pass follows, or `run` ends.
  unfoldable pub after_pass :
      Pass × Supervisor D
      → Option (Result (Unit {0})) × Supervisor D
      → Option (Result (Unit {0})) × Supervisor D
  after_pass (returned, t) rest = (some (ok tt), t)
  after_pass (raised e, t) rest = (some (err e), t)
  after_pass (again, t) rest = rest

  -- `run` for at most `fuel` passes: how it ended, or none while it goes on. `stop n` says whether the stop
  -- is set after n waits.
  unfoldable pub passes : (ℕ → Bool) → ℕ → Supervisor D → Option (Result (Unit {0})) × Supervisor D
  passes stop zero s = (none, s)
  passes stop (suc fuel) s =
      let rest = passes stop fuel (attempt s).1 in
      if stop (length s.waited) then (some (ok tt), s) else after_pass (attempt s) rest

  unfoldable pub run : (ℕ → Bool) → ℕ → Supervisor D → Option (Result (Unit {0})) × Supervisor D
  run stop fuel s = passes stop fuel (record s { delay = policy.initial_s; waited = [] })
