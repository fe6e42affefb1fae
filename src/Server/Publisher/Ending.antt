-- ===== src/Server/Publisher/Ending.antt =====
-- How a pass of the publisher ends.
use linker.Prelude.{ℕ, Option, none, some, ◌≡◌, refl}
use linker.Python.Exc.{Exc, Result, ok, err}
use linker.Python.Action.{then_call, raise, modify, inspect}
use linker.Driver.{VendorRgbDriver}
use linker.Boundary.{Stamps}
use linker.Server.Client.{Network, wait_or_stop}
use linker.Server.Publisher.{
  Watched, Publisher, of_client, of_driver, watch, watch_failed, end_subscription, unwatch,
  finish_watch, watch_device, publish_pass,
}

module _ {D : Type 0} (watched : Watched D) where
  -- The last call to the driver was `disconnect`.
  abbrev pub IsClosed : Publisher D → Type 0
  IsClosed p = (d : D) × (p.client.boundary.driver ≡ (watched.disconnect d).1)

  -- A subscription ends without an exception.
  abbrev pub UnsubscribesQuietly : Type 0
  UnsubscribesQuietly = (n : ℕ) (d : D) → (watched.unsubscribe n d).0 ≡ ok tt

  modified-ok :
      (f : Publisher D → Publisher D) (r : Result (Unit {0}) × Publisher D)
      → r.0 ≡ ok tt
      → (then_call (λ _. modify f) r).0 ≡ ok tt
  modified-ok f (ok u, p) h = refl
  modified-ok f (err e, p) h = h

  then_disconnect-IsClosed :
      (r : Result (Unit {0}) × Publisher D)
      → r.0 ≡ ok tt
      → IsClosed (then_call (λ _. of_driver λ device. watched.disconnect) r).1
  then_disconnect-IsClosed (ok u, p) h = (p.client.boundary.driver, refl)
  then_disconnect-IsClosed (err e, p) h = cc

  raised-IsClosed :
      (e : Exc) (r : Result (Unit {0}) × Publisher D)
      → IsClosed r.1
      → IsClosed (then_call (λ _. raise {A = Unit {0}} e) r).1
  raised-IsClosed e (ok u, p) h = h
  raised-IsClosed e (err x, p) h = h

  module _ (network : Network) (drv : VendorRgbDriver D) (stamps : Stamps) where
    end_subscription-ok :
        (o : Option ℕ) (p : Publisher D)
        → UnsubscribesQuietly
        → (end_subscription network drv watched stamps o p).0 ≡ ok tt
    end_subscription-ok none p quiet = refl
    end_subscription-ok (some n) p quiet =
        modified-ok (λ q. record q { subscription = none }) _ (quiet n p.client.boundary.driver)

    unwatch-IsClosed :
        (p : Publisher D) → UnsubscribesQuietly → IsClosed (unwatch network drv watched stamps p).1
    unfolding unwatch
    unwatch-IsClosed p quiet =
        then_disconnect-IsClosed (end_subscription network drv watched stamps p.subscription p)
          (end_subscription-ok p.subscription p quiet)

    finish_watch-IsClosed :
        (r : Result (Unit {0}) × Publisher D)
        → UnsubscribesQuietly
        → IsClosed (finish_watch network drv watched stamps r).1
    unfolding finish_watch
    finish_watch-IsClosed (ok u, p) quiet = unwatch-IsClosed p quiet
    finish_watch-IsClosed (err e, p) quiet =
        raised-IsClosed e (unwatch network drv watched stamps p) (unwatch-IsClosed p quiet)

    waited-IsClosed :
        (r : Result (Unit {0}) × Publisher D)
        → IsClosed r.1
        → IsClosed (then_call (λ _. inspect λ p. of_client (wait_or_stop network p.delay)) r).1
    unfolding wait_or_stop
    waited-IsClosed (ok u, p) h = h
    waited-IsClosed (err e, p) h = h

    -- If ending a subscription raises nothing: whatever the driver, the network and the callbacks do in a pass of
    -- the publisher, a cancellation included, the last call to the driver in it is `disconnect`.
    pub publish_pass-IsClosed :
        (interval polls : ℕ) (p : Publisher D)
        → UnsubscribesQuietly
        → IsClosed (publish_pass network drv watched stamps interval polls p).1
    unfolding publish_pass watch_device
    publish_pass-IsClosed interval polls p quiet =
        waited-IsClosed (watch_device network drv watched stamps interval polls p) (
          finish_watch-IsClosed
            (watch_failed network drv watched stamps
              (watch network drv watched stamps interval polls p))
            quiet)
