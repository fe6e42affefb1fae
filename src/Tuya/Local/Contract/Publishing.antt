-- ===== src/Tuya/Local/Contract/Publishing.antt =====
-- The state publisher of the server's client over a TuyaLocalDriver.
use linker.Prelude.{ℕ, refl, sym, subst}
use linker.Boundary.{Stamps}
use linker.Server.Client.{Network}
use linker.Server.Publisher.{Publisher, publish_pass}
use linker.Server.Publisher.Ending.{UnsubscribesQuietly, publish_pass-IsClosed}
use linker.Tuya.Scan.{Lan}
use linker.Tuya.Local.{Outside, TuyaLocalDriver}
use linker.Tuya.Local.Polling.{unsubscribe}
use linker.Tuya.Local.Exchange.Failures.{IsDisconnected, disconnect-IsDisconnected}
use linker.Tuya.Local.Contract.{tuya_driver, tuya_watched}

tuya_watched-UnsubscribesQuietly :
    (out : Outside) (callback : ℕ) → UnsubscribesQuietly (tuya_watched out callback)
unfolding unsubscribe
tuya_watched-UnsubscribesQuietly out callback list s = refl

-- Behind every pass of the state publisher, whatever the lamp answers, the network does and the pass raises, the
-- TuyaLocalDriver has no connection, no reader, no session key and no request that waits.
pub publish_pass-IsDisconnected :
    (out : Outside) (heard : ℕ → Lan) (network : Network) (stamps : Stamps)
    (callback interval polls : ℕ) (p : Publisher TuyaLocalDriver)
    → IsDisconnected
        (publish_pass network
          (tuya_driver out heard)
          (tuya_watched out callback)
          stamps
          interval
          polls
          p).1.client.boundary.driver
publish_pass-IsDisconnected out heard network stamps callback interval polls p =
    let (d, closed) =
      publish_pass-IsClosed (tuya_watched out callback) network (tuya_driver out heard) stamps
        interval polls p (tuya_watched-UnsubscribesQuietly out callback) in
    subst IsDisconnected (sym closed) (disconnect-IsDisconnected out d)
