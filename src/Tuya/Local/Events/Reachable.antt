-- ===== src/Tuya/Local/Events/Reachable.antt =====
-- What holds of every TuyaLocalDriver that can be reached.
use linker.Prelude.{ℕ, ap, subst, List, [], ◌∷◌, string_Eq, arith}
use linker.Python.Action.{Keeps, Keeps-pure, Keeps-bind, pure, ◌>>=◌, modify, keeps_rules}
use linker.Tuya.Discovery.{Found}
use linker.Tuya.Local.{Outside, TuyaLocalDriver, disconnect}
use linker.Tuya.Scan.{Lan}
use linker.Tuya.Local.Finding.{add_found, clear_found, describe_one, describe, discover}
use linker.Tuya.Local.Link.{connect}
use linker.Tuya.Local.Reader.{reader_step}
use linker.Tuya.Local.Polling.{
  poll_state, inspect_dps, turn_on, turn_off, set_brightness, set_rgb, set_white, subscribe_state,
  unsubscribe,
}
use linker.Tuya.Local.Pairing.{pair}
use linker.Tuya.Local.Closing.{ClosesQuietly}
use linker.Tuya.Local.Pairing.Outcome.{pair-IsPairOutcome}
use linker.Tuya.Local.Invariant.Connecting.{Keeps-connect, Keeps-disconnect}
use linker.Tuya.Local.Invariant.Reading.{reader_step-Links}
use linker.Tuya.Local.Invariant.Operating.{
  Keeps-poll_state, Keeps-inspect_dps, Keeps-turn_on, Keeps-turn_off, Keeps-set_brightness,
  Keeps-set_rgb, Keeps-set_white, Keeps-subscribe_state, Keeps-unsubscribe,
}
use linker.Tuya.Local.Events.{
  Event, connects, disconnects, inspects, arrives, polls, turns_on, turns_off, sets_brightness,
  sets_white, sets_rgb, subscribes, unsubscribes, discovers, pairs, step, Reach, constructed, after,
}
use linker.Tuya.Local.Events.Valid.{
  IsValid, AreCandidates-put, IsValid-owned, IsValid-kept, IsValid-paired,
}
use linker.Tuya.Local.Events.Constructed.{new_driver-IsValid}

module _ (out : Outside) where
  Keeps-add_found : (item : Found) → Keeps (IsValid out) (modify (add_found out item))
  Keeps-add_found item = record {
    after = λ s v. record {
      links = ground (arith, v.links);
      paired = v.paired;
      candidates = AreCandidates-put out s.discovered item v.candidates;
    };
  }

  Keeps-clear_found : Keeps (IsValid out) (modify clear_found)
  Keeps-clear_found = record {
    after = λ s v. record { links = ground (arith, v.links); paired = v.paired; candidates = tt };
  }

  Keeps-describe_one : (item : Found) → Keeps (IsValid out) (describe_one out item)
  unfolding describe_one
  Keeps-describe_one item = search (keeps_rules, Keeps-add_found)

  Keeps-describe : (found : List Found) → Keeps (IsValid out) (describe out found)
  unfolding describe
  Keeps-describe [] = Keeps-pure []
  Keeps-describe (item ∷ found) =
      Keeps-bind (describe_one out item)
        (λ descriptor. describe out found >>= λ rest. pure (descriptor ∷ rest))
        (Keeps-describe_one item)
        λ descriptor.
          Keeps-bind (describe out found) (λ rest. pure (descriptor ∷ rest)) (Keeps-describe found)
            λ rest. Keeps-pure (descriptor ∷ rest)

  Keeps-discover : (lan : Lan) (timeout : ℕ) → Keeps (IsValid out) (discover out lan timeout)
  unfolding discover
  Keeps-discover lan timeout = search (keeps_rules, Keeps-clear_found, Keeps-describe) depth 14

  pub step-IsValid :
      (event : Event) (s : TuyaLocalDriver)
      → ClosesQuietly out
      → IsValid out s
      → IsValid out (step out event s)
  step-IsValid connects s quiet v = IsValid-kept out (connect out) s (Keeps-connect out) v
  step-IsValid disconnects s quiet v = IsValid-kept out (disconnect out) s (Keeps-disconnect out) v
  step-IsValid inspects s quiet v = IsValid-kept out (inspect_dps out) s (Keeps-inspect_dps out) v
  step-IsValid (arrives a) s quiet v =
      IsValid-owned out s (reader_step out a s) (reader_step-Links out a s v.links) v
  step-IsValid (polls id) s quiet v =
      IsValid-kept out (poll_state out id) s (Keeps-poll_state out id) v
  step-IsValid (turns_off id) s quiet v =
      IsValid-kept out (turn_off out id) s (Keeps-turn_off out id) v
  step-IsValid (turns_on id rgb brightness white) s quiet v =
      IsValid-kept out (turn_on out id rgb brightness white) s
        (Keeps-turn_on out id rgb brightness white) v
  step-IsValid (sets_brightness id brightness) s quiet v =
      IsValid-kept out (set_brightness out id brightness) s (Keeps-set_brightness out id brightness)
        v
  step-IsValid (sets_white id white) s quiet v =
      IsValid-kept out (set_white out id white) s (Keeps-set_white out id white) v
  step-IsValid (sets_rgb id rgb) s quiet v =
      IsValid-kept out (set_rgb out id rgb) s (Keeps-set_rgb out id rgb) v
  step-IsValid (subscribes id callback) s quiet v =
      IsValid-kept out (subscribe_state id callback) s (Keeps-subscribe_state id callback) v
  step-IsValid (unsubscribes list callback) s quiet v =
      IsValid-kept out (unsubscribe list callback) s (Keeps-unsubscribe list callback) v
  step-IsValid (discovers lan timeout) s quiet v = (Keeps-discover lan timeout).after s v
  step-IsValid (pairs candidate) s quiet v =
      IsValid-paired out candidate s (pair out candidate s)
        (pair-IsPairOutcome out candidate s quiet v.links) v

  -- If closing a connection never raises: a driver, after any events at all, has a state of its own device or
  -- none, a sequence number of 32 bits, no future in its table of requests that it has not made, a light id
  -- only if it has a device and then the opaque id of this device, and every device found under its opaque
  -- id. The events are the methods, whether they return or raise, a scan of any datagrams, a pairing with any
  -- candidate, and whatever arrives for the reader.
  pub Reach-IsValid : (s : TuyaLocalDriver) → ClosesQuietly out → Reach out s → IsValid out s
  Reach-IsValid s quiet (constructed device options pairing has_path file _ h) =
      subst (IsValid out) (ap (λ r. r.1) h)
        (new_driver-IsValid out device options pairing has_path file)
  Reach-IsValid _ quiet (after {s} event r) = step-IsValid event s quiet (Reach-IsValid s quiet r)
