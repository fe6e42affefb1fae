-- ===== src/Server/Client.antt =====
-- server_client.py: `run`, `_session`, `_receive_loop`, `_send` and `_wait_or_stop` of LinkerServerClient. Times are
-- in a unit in which the reconnect times are whole.
pub mod Once
use linker.Prelude.{
  ℕ, zero, suc, ◌+◌, ◌*◌, min, String, Bool, true, false, Option, none, some, List, [], ◌∷◌,
  if◌then◌else◌,
}
use linker.Python.Exc.{Exc, Result, ok, err, cancelled, message}
use linker.Python.Action.{Action, pure, raise, inspect, modify, ◌>>=◌, ◌>>◌}
use linker.Protocol.{Envelope, IsoTime}
use linker.Driver.{VendorRgbDriver}
use linker.Boundary.{LinkerBoundary, Stamps}
use linker.Boundary.Sessions.{register}
use linker.Server.{Loaded, receive}

-- The network and the signals. The numbered functions answer the n-th call: `open_connection` is
-- `websockets.connect` with its time limit, `received` are the messages that arrive on the connection before it
-- ends or the stop is set, `ended` is how the wait for them ends, and `stop` says whether the stop is set at a
-- look at it, at the head of the loop or at the end of a wait.
pub record Network : Type 0 where
  pub open_connection : ℕ → Result (Unit {0})
  pub send : ℕ → Result (Unit {0})
  pub received : ℕ → List Loaded
  pub ended : ℕ → Result (Unit {0})
  pub stop : ℕ → Bool

-- The client in `run`. `ticks` counts the calls to the network, `connections` those that open a connection;
-- `sent` and `waited` list what was sent and the times waited, the last one first.
pub record LinkerServerClient (D : Type 0) : Type 0 where
  pub boundary : LinkerBoundary D
  pub reconnect_initial_s : ℕ
  pub reconnect_max_s : ℕ
  pub last_error : Option String
  pub delay : ℕ
  pub ticks : ℕ
  pub connections : ℕ
  pub sent : List Envelope
  pub waited : List ℕ

abbrev pub Client : Type 0 → Type 0 → Type 0
Client D A = Action (LinkerServerClient D) A

abbrev pub call : {D A : Type 0} → (ℕ → Result A) → Client D A
call f s = (f s.ticks, record s { ticks = suc s.ticks })

-- A method of the boundary.
abbrev pub of_boundary :
    {D A : Type 0} → (LinkerBoundary D → Result A × LinkerBoundary D) → Client D A
of_boundary m s = let (r, b) = m s.boundary in (r, record s { boundary = b })

-- `finally: cleanup`: an exception of the cleanup takes the place of the block's own.
abbrev pub after_block :
    {D : Type 0}
    → Client D (Unit {0})
    → Result (Unit {0}) × LinkerServerClient D
    → Result (Unit {0}) × LinkerServerClient D
after_block cleanup (ok u, t) = cleanup t
after_block cleanup (err e, t) = (cleanup >> raise e) t

module _ {D : Type 0} (network : Network) where
  -- `_send`
  unfoldable pub send : Envelope → Client D (Unit {0})
  send m = modify (λ s. record s { sent = m ∷ s.sent }) >> call network.send

  -- `_send_many`
  unfoldable pub send_many : List Envelope → Client D (Unit {0})
  unfolding send
  send_many [] = pure tt
  send_many (m ∷ ms) = send m >> send_many ms

  -- `_wait_or_stop`: whether the stop was set before the time was over.
  unfoldable pub wait_or_stop : ℕ → Client D Bool
  wait_or_stop timeout s =
      (ok (network.stop s.ticks), record s { ticks = suc s.ticks; waited = timeout ∷ s.waited })

  -- What `run` makes of the exception of a session; a cancellation goes on.
  unfoldable pub connection_failed :
      Result (Unit {0}) × LinkerServerClient D → Result (Unit {0}) × LinkerServerClient D
  connection_failed (ok u, s) = (ok u, s)
  connection_failed (err cancelled, s) = (err cancelled, s)
  connection_failed (err e, s) = (
    ok tt,
    record s { last_error = some (message e); delay = min (s.delay * 2) s.reconnect_max_s },
  )

  module _ (drv : VendorRgbDriver D) (disconnect : D → Result (Unit {0}) × D) (stamps : Stamps)
      (iso : IsoTime) where
    -- `_receive`, with what it sends.
    unfoldable pub receive_message : Loaded → Client D (Unit {0})
    unfolding send_many
    receive_message raw = of_boundary (receive drv stamps iso raw) >>= send_many

    -- `_receive_loop`
    unfoldable pub receive_loop : List Loaded → Client D (Unit {0})
    unfolding receive_message
    receive_loop [] = call network.ended
    receive_loop (raw ∷ received) = receive_message raw >> receive_loop received

    -- `self.boundary.driver.disconnect()`
    abbrev pub disconnect_driver : Client D (Unit {0})
    disconnect_driver =
        of_boundary λ b. let (r, d) = disconnect b.driver in (r, record b { driver = d })

    -- `_session`, without the state publisher that runs beside it.
    unfoldable pub session : Client D (Unit {0})
    unfolding send receive_loop
    session =
        of_boundary (register drv stamps)
        >>= send
        >> (λ s. after_block disconnect_driver (receive_loop (network.received s.ticks) s))

    abbrev pub open_connection : Client D (Unit {0})
    open_connection =
        modify (λ s. record s { connections = suc s.connections }) >> call network.open_connection

    -- The block of `try` in `run`.
    unfoldable pub connected_session : Client D (Unit {0})
    unfolding session
    connected_session =
        open_connection
        >> (modify (λ s. record s { last_error = none })
            >> (session >> modify (λ s. record s { delay = s.reconnect_initial_s })))

    -- One pass of the loop: whether another one follows.
    unfoldable pub one_pass : Client D Bool
    unfolding connected_session connection_failed wait_or_stop
    one_pass = (λ s. connection_failed (connected_session s)) >> inspect λ s. wait_or_stop s.delay

    abbrev pub after_pass :
        Result Bool × LinkerServerClient D
        → Option (Result (Unit {0})) × LinkerServerClient D
        → Option (Result (Unit {0})) × LinkerServerClient D
    after_pass (ok true, t) rest = rest
    after_pass (ok false, t) rest = (some (ok tt), t)
    after_pass (err e, t) rest = (some (err e), t)

    abbrev pub look : LinkerServerClient D → LinkerServerClient D
    look s = record s { ticks = suc s.ticks }

    -- The loop, for at most `fuel` passes: how it ended, or none while it goes on.
    unfoldable pub passes :
        ℕ → LinkerServerClient D → Option (Result (Unit {0})) × LinkerServerClient D
    unfolding one_pass
    passes zero s = (none, s)
    passes (suc fuel) s =
        let rest = passes fuel (one_pass (look s)).1 in
        if network.stop s.ticks then (some (ok tt), look s) else after_pass (one_pass (look s)) rest

    -- `run`
    unfoldable pub run :
        ℕ → LinkerServerClient D → Option (Result (Unit {0})) × LinkerServerClient D
    unfolding passes
    run fuel s = passes fuel (record s { delay = s.reconnect_initial_s })
