-- ===== src/Server/Client/Once.antt =====
-- How often `run` connects.
use linker.Prelude.{
  ℕ, suc, Bool, true, false, Option, none, ◌≡◌, ◌≢◌, refl, ◌∙◌, subst, List, [], ◌∷◌, arith,
  Bool-cases, inl, inr, if◌then◌else◌,
}
use linker.Python.Exc.{Result, ok, err, ok-injective}
use linker.Python.Action.{
  Keeps, Keeps-bind, Keeps-raise, then_call, raise, modify, inspect, ◌>>◌, keeps_rules,
}
use linker.Protocol.{Envelope, IsoTime}
use linker.Driver.{VendorRgbDriver}
use linker.Boundary.{LinkerBoundary, Stamps}
use linker.Server.{Loaded}
use linker.Server.Client.{
  Network, LinkerServerClient, Client, call, of_boundary, after_block, send, send_many,
  wait_or_stop, connection_failed, receive_message, receive_loop, disconnect_driver, session,
  connected_session, one_pass, after_pass, look, passes, run,
}

-- A stop that is set stays set.
abbrev pub StaysSet : Network → Type 0
StaysSet network = (n : ℕ) → network.stop n ≡ true → network.stop (suc n) ≡ true

module _ {D : Type 0} (n : ℕ) where
  abbrev Counted : LinkerServerClient D → Type 0
  Counted s = s.connections ≡ n

  Keeps-call : {A : Type 0} (f : ℕ → Result A) → Keeps Counted (call f)
  Keeps-call f = record { after = λ s h. h }

  Keeps-of_boundary :
      {A : Type 0} (m : LinkerBoundary D → Result A × LinkerBoundary D)
      → Keeps Counted (of_boundary m)
  Keeps-of_boundary m = record { after = λ s h. h }

  Counted-after_block :
      (cleanup : Client D (Unit {0})) (r : Result (Unit {0}) × LinkerServerClient D)
      → Keeps Counted cleanup
      → Counted r.1
      → Counted (after_block cleanup r).1
  Counted-after_block cleanup (ok u, t) k h = k.after t h
  Counted-after_block cleanup (err e, t) k h =
      (Keeps-bind cleanup (λ _. raise e) k (λ _. Keeps-raise e)).after t h

  module _ (network : Network) where
    Keeps-send : (m : Envelope) → Keeps Counted (send network m)
    unfolding send
    Keeps-send m = search (keeps_rules, Keeps-call)

    Keeps-send_many : (ms : List Envelope) → Keeps Counted (send_many network ms)
    unfolding send_many
    Keeps-send_many [] = search keeps_rules
    Keeps-send_many (m ∷ ms) =
        Keeps-bind (send network m) (λ _. send_many network ms) (Keeps-send m)
          λ _. Keeps-send_many ms

    module _ (drv : VendorRgbDriver D) (disconnect : D → Result (Unit {0}) × D) (stamps : Stamps)
        (iso : IsoTime) where
      Keeps-receive_message :
          (raw : Loaded) → Keeps Counted (receive_message network drv disconnect stamps iso raw)
      unfolding receive_message
      Keeps-receive_message raw = search (keeps_rules, Keeps-of_boundary, Keeps-send_many)

      Keeps-receive_loop :
          (received : List Loaded)
          → Keeps Counted (receive_loop network drv disconnect stamps iso received)
      unfolding receive_loop
      Keeps-receive_loop [] = Keeps-call network.ended
      Keeps-receive_loop (raw ∷ received) =
          Keeps-bind (receive_message network drv disconnect stamps iso raw)
            (λ _. receive_loop network drv disconnect stamps iso received)
            (Keeps-receive_message raw) λ _. Keeps-receive_loop received

      Keeps-received : Keeps Counted (λ s.
          after_block
            (disconnect_driver network drv disconnect stamps iso)
            (receive_loop network drv disconnect stamps iso (network.received s.ticks) s))
      Keeps-received = record {
        after = λ s h.
            Counted-after_block (disconnect_driver network drv disconnect stamps iso)
              (receive_loop network drv disconnect stamps iso (network.received s.ticks) s)
              (Keeps-of_boundary _) ((Keeps-receive_loop (network.received s.ticks)).after s h);
      }

      Keeps-session : Keeps Counted (session network drv disconnect stamps iso)
      unfolding session
      Keeps-session = search (keeps_rules, Keeps-of_boundary, Keeps-send, Keeps-received)

      Keeps-opened : Keeps Counted (
          call network.open_connection
          >> (modify (λ s. record s { last_error = none })
              >> (session network drv disconnect stamps iso
                  >> modify (λ s. record s { delay = s.reconnect_initial_s }))))
      Keeps-opened = search (keeps_rules, Keeps-call, Keeps-session) depth 16

module _ {D : Type 0} (network : Network) (drv : VendorRgbDriver D)
    (disconnect : D → Result (Unit {0}) × D) (stamps : Stamps) (iso : IsoTime) where
  connected_session-counted :
      (s : LinkerServerClient D)
      → (connected_session network drv disconnect stamps iso s).1.connections ≡ suc s.connections
  unfolding connected_session
  connected_session-counted s =
      (Keeps-opened (suc s.connections) network drv disconnect stamps iso).after
        (record s { connections = suc s.connections }) refl

  connection_failed-counted :
      (r : Result (Unit {0}) × LinkerServerClient D)
      → (connection_failed network r).1.connections ≡ r.1.connections
  unfolding connection_failed
  connection_failed-counted (ok u, s) = refl
  connection_failed-counted (err e, s) = ground arith

  waited-counted :
      (r : Result (Unit {0}) × LinkerServerClient D)
      → (then_call (λ _. inspect λ s. wait_or_stop network s.delay) r).1.connections
        ≡ r.1.connections
  unfolding wait_or_stop
  waited-counted (ok u, t) = refl
  waited-counted (err e, t) = refl

  one_pass-counted :
      (s : LinkerServerClient D)
      → (one_pass network drv disconnect stamps iso s).1.connections ≡ suc s.connections
  unfolding one_pass
  one_pass-counted s =
      let r = connected_session network drv disconnect stamps iso s in
      waited-counted (connection_failed network r)
      ∙ connection_failed-counted r
      ∙ connected_session-counted s

  -- Another pass follows only a wait that the stop ended.
  waited-again :
      (r : Result (Unit {0}) × LinkerServerClient D)
      → StaysSet network
      → (then_call (λ _. inspect λ s. wait_or_stop network s.delay) r).0 ≡ ok true
      → network.stop (then_call (λ _. inspect λ s. wait_or_stop network s.delay) r).1.ticks ≡ true
  unfolding wait_or_stop
  waited-again (ok u, t) stays h = stays t.ticks (ok-injective h)
  waited-again (err e, t) stays h = cc

  one_pass-again :
      (s : LinkerServerClient D)
      → StaysSet network
      → (one_pass network drv disconnect stamps iso s).0 ≡ ok true
      → network.stop (one_pass network drv disconnect stamps iso s).1.ticks ≡ true
  unfolding one_pass
  one_pass-again s stays h =
      waited-again
        (connection_failed network (connected_session network drv disconnect stamps iso s)) stays h

  abbrev Ended : ℕ → Option (Result (Unit {0})) × LinkerServerClient D → Type 0
  Ended n r = (r.0 ≢ none) × (r.1.connections ≡ n)

  passes-stopped :
      (fuel : ℕ) (s : LinkerServerClient D)
      → network.stop s.ticks ≡ true
      → Ended s.connections (passes network drv disconnect stamps iso (suc fuel) s)
  unfolding passes
  passes-stopped fuel s h = rw h ((λ e. cc), refl)

  after_pass-Ended :
      (n : ℕ) (r : Result Bool × LinkerServerClient D)
      (rest : Option (Result (Unit {0})) × LinkerServerClient D)
      → r.1.connections ≡ n
      → (r.0 ≡ ok true → Ended n rest)
      → Ended n (after_pass network drv disconnect stamps iso r rest)
  after_pass-Ended n (ok true, t) rest h later = later refl
  after_pass-Ended n (ok false, t) rest h later = ((λ e. cc), h)
  after_pass-Ended n (err e, t) rest h later = ((λ e. cc), h)

  passes-Ended :
      (fuel : ℕ) (s : LinkerServerClient D)
      → StaysSet network
      → network.stop s.ticks ≡ false
      → Ended (suc s.connections) (passes network drv disconnect stamps iso (suc (suc fuel)) s)
  unfolding passes
  passes-Ended fuel s stays h =
      let r =
        one_pass network drv disconnect stamps iso (look network drv disconnect stamps iso s) in
      let counted = one_pass-counted (look network drv disconnect stamps iso s) in
      rw h (
        after_pass-Ended (suc s.connections) r
          (passes network drv disconnect stamps iso (suc fuel) r.1) counted
          (λ again.
            subst (λ n. Ended n (passes network drv disconnect stamps iso (suc fuel) r.1)) counted
              (passes-stopped fuel r.1
                (one_pass-again (look network drv disconnect stamps iso s) stays again))))

  passes-once :
      (fuel : ℕ) (s : LinkerServerClient D)
      → StaysSet network
      → Ended
          (if network.stop s.ticks then s.connections else suc s.connections)
          (passes network drv disconnect stamps iso (suc (suc fuel)) s)
  passes-once fuel s stays = elim (Bool-cases (network.stop s.ticks)) [
    | inl is_set ↦ rw is_set (passes-stopped (suc fuel) s is_set)
    | inr not_set ↦ rw not_set (passes-Ended fuel s stays not_set)
  ]

  -- If a stop that is set stays set: `run` connects once at most. Unless the stop is set when it is called,
  -- it opens one connection, and however this ends and whether or not the stop is set by then, it returns or
  -- raises within two passes of its loop and opens no other.
  pub run-once :
      (fuel : ℕ) (s : LinkerServerClient D)
      → StaysSet network
      → let r = run network drv disconnect stamps iso (suc (suc fuel)) s in
        (r.0 ≢ none)
        × (r.1.connections ≡ (if network.stop s.ticks then s.connections else suc s.connections))
  unfolding run
  run-once fuel s stays = passes-once fuel (record s { delay = s.reconnect_initial_s }) stays
