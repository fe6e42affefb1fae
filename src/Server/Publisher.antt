-- ===== src/Server/Publisher.antt =====
-- server_client.py: `_publish_states` of LinkerServerClient, one pass of its loop. It runs beside the receiver
-- of a session; what the receiver does between its steps is not in the pass.
pub mod Ending
use linker.Prelude.{
  ℕ, zero, suc, ◌*◌, min, String, Bool, true, false, Option, none, some, ◌∷◌, if◌then◌else◌,
}
use linker.Python.Exc.{Exc, Result, ok, err, cancelled, message}
use linker.Python.Action.{Action, pure, raise, inspect, modify, ◌>>=◌, ◌>>◌}
use linker.Models.Light.{LightState}
use linker.Driver.{VendorRgbDriver}
use linker.Boundary.{LinkerBoundary, Stamps}
use linker.Boundary.Sessions.{state_message}
use linker.Server.Client.{Network, LinkerServerClient, Client, of_boundary, send, wait_or_stop}

-- The operations of the driver that the publisher calls, besides those that the boundary does. The callback that
-- is subscribed is the client's `publish`; a number stands for the closure `unsubscribe` that is returned.
pub record Watched (D : Type 0) : Type 0 where
  pub connect : D → Result (Unit {0}) × D
  pub disconnect : D → Result (Unit {0}) × D
  pub subscribe_state : Option String → D → Result ℕ × D
  pub unsubscribe : ℕ → D → Result (Unit {0}) × D
  pub poll_state : Option String → D → Result LightState × D

-- The client with the local variables of `_publish_states`; `subscription` is `unsubscribe`.
pub record Publisher (D : Type 0) : Type 0 where
  pub client : LinkerServerClient D
  pub delay : ℕ
  pub subscription : Option ℕ

abbrev pub Publishing : Type 0 → Type 0 → Type 0
Publishing D A = Action (Publisher D) A

abbrev pub of_client : {D A : Type 0} → Client D A → Publishing D A
of_client m p = let (r, c) = m p.client in (r, record p { client = c })

-- A method of the driver, for the boundary's device.
abbrev pub of_driver : {D A : Type 0} → (Option String → D → Result A × D) → Publishing D A
of_driver m =
    of_client (of_boundary λ b. let (r, d) = m b.device_id b.driver in (r, record b { driver = d }))

module _ {D : Type 0} (network : Network) (drv : VendorRgbDriver D) (watched : Watched D)
    (stamps : Stamps) where
  -- `publish`
  unfoldable pub publish_state : LightState → Publishing D (Unit {0})
  publish_state state = of_client (of_boundary (state_message drv stamps state) >>= send network)

  abbrev poll : Publishing D (Unit {0})
  poll = of_driver watched.poll_state >>= publish_state

  abbrev pub set_subscription : ℕ → Publisher D → Publisher D
  set_subscription n p = record p { subscription = some n }

  abbrev log_wait : ℕ → Publisher D → Publisher D
  log_wait interval p = record p {
    client = record p.client { waited = interval ∷ p.client.waited };
  }

  -- The inner loop, where `polls` of its waits run out before the stop is set.
  unfoldable pub poll_until_stop : ℕ → ℕ → Publishing D (Unit {0})
  unfolding publish_state
  poll_until_stop interval zero = modify (log_wait interval)
  poll_until_stop interval (suc polls) =
      modify (log_wait interval) >> (poll >> poll_until_stop interval polls)

  -- The block of `try`.
  unfoldable pub watch : ℕ → ℕ → Publishing D (Unit {0})
  unfolding publish_state poll_until_stop
  watch interval polls =
      of_driver (λ device. watched.connect)
      >> (of_driver watched.subscribe_state >>= λ n.
          modify (set_subscription n)
          >> (poll
              >> (modify (λ p. record p { delay = p.client.reconnect_initial_s })
                  >> poll_until_stop interval polls)))

  -- `except CancelledError: raise` and `except Exception`
  unfoldable pub watch_failed : Result (Unit {0}) × Publisher D → Result (Unit {0}) × Publisher D
  watch_failed (ok u, p) = (ok u, p)
  watch_failed (err cancelled, p) = (err cancelled, p)
  watch_failed (err e, p) = (
    ok tt,
    record p {
      client = record p.client { last_error = some (message e) };
      delay = min (p.delay * 2) p.client.reconnect_max_s;
    },
  )

  -- `if unsubscribe is not None`
  abbrev pub end_subscription : Option ℕ → Publishing D (Unit {0})
  end_subscription none = pure tt
  end_subscription (some n) =
      of_client (
        of_boundary
          λ b. let (r, d) = watched.unsubscribe n b.driver in (r, record b { driver = d }))
      >> modify (λ q. record q { subscription = none })

  -- The block of `finally`.
  unfoldable pub unwatch : Publishing D (Unit {0})
  unwatch = inspect λ p. end_subscription p.subscription >> of_driver (λ device. watched.disconnect)

  -- An exception of the block goes on behind `finally`.
  unfoldable pub finish_watch : Result (Unit {0}) × Publisher D → Result (Unit {0}) × Publisher D
  unfolding unwatch
  finish_watch (ok u, p) = unwatch p
  finish_watch (err e, p) = (unwatch >> raise e) p

  unfoldable pub watch_device : ℕ → ℕ → Publishing D (Unit {0})
  unfolding watch watch_failed finish_watch
  watch_device interval polls p = finish_watch (watch_failed (watch interval polls p))

  -- A pass of the loop, of a boundary that controls a light: whether another one follows.
  unfoldable pub publish_pass : ℕ → ℕ → Publishing D Bool
  unfolding watch_device
  publish_pass interval polls =
      watch_device interval polls >> inspect λ p. of_client (wait_or_stop network p.delay)
