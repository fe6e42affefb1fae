-- ===== src/Tuya/Local/Invariant/Exchanging.antt =====
-- `_exchange` keeps the links of a TuyaLocalDriver.
use linker.Prelude.{
  ℕ, zero, suc, ◌<◌, ◌≤◌, String, Option, none, some, List, [], ◌∷◌, nat_Eq, arith, if◌then◌else◌,
}
use linker.Python.Exc.{Exc, Result, ok, err, message, cancelled}
use linker.Python.Action.{Keeps, Keeps-raise, modify, raise, ◌>>◌, keeps_rules}
use linker.Python.Dict.{get}
use linker.Tuya.Config.{TuyaDeviceConfig}
use linker.Tuya.Frame.{TuyaFrame}
use linker.Tuya.Local.{Outside, Arrival, TuyaLocalDriver, Io}
use linker.Tuya.Local.Reader.{reader_step}
use linker.Tuya.Local.Exchange.{
  give_up, await_future, create_future, send, answer, await_done, request, is_retried, pop_failed,
  attempt, pause, recover, after_attempt, attempts, exchange,
}
use linker.Tuya.Local.Invariant.{
  Owner, Links, AreDone-settle, AreDone-suc, ArePending-suc, ArePending-put, ArePending-remove,
  Keeps-outside, Keeps-write, Keeps-next_sequence, Keeps-device,
}
use linker.Tuya.Local.Invariant.Connecting.{Keeps-connect, Keeps-disconnect}
use linker.Tuya.Local.Invariant.Reading.{reader_step-Links}

module _ {o : Owner} {n : ℕ} where
  Keeps-give_up : (future : ℕ) → future < n → Keeps (Links o n) (modify (give_up future))
  Keeps-give_up future small = record {
    after = λ s h. record {
      same = h.same;
      word = h.word;
      counted = h.counted;
      own_state = h.own_state;
      fresh_pending = h.fresh_pending;
      fresh_futures =
          AreDone-settle s.made future (err cancelled) s.futures (omega (arith, small, h.counted))
            h.fresh_futures;
    };
  }

  Links-await_done :
      (found : Option (Result TuyaFrame)) (rest : Io TuyaFrame) (t : TuyaLocalDriver)
      → Links o n t
      → Keeps (Links o n) rest
      → Links o n (await_done found rest t).1
  Links-await_done none rest t h k = k.after t h
  Links-await_done (some outcome) rest t h k = h

  Keeps-await_future :
      (out : Outside) (future : ℕ) (small : future < n) (arrivals : List Arrival)
      → Keeps (Links o n) (await_future out future arrivals)
  unfolding await_future
  Keeps-await_future out future small [] = search (keeps_rules, Keeps-give_up future small)
  Keeps-await_future out future small (a ∷ arrivals) = record {
    after = λ s h.
        let t = reader_step out a s in
        Links-await_done (get t.futures future) (await_future out future arrivals) t
          (reader_step-Links out a s h) (Keeps-await_future out future small arrivals);
  }

  Keeps-send :
      (out : Outside) (c : TuyaDeviceConfig) (command : ℕ) (clear : List ℕ) (sequence : ℕ)
      → Keeps (Links o n) (send out c command clear sequence)
  unfolding send
  Keeps-send out c command clear sequence = search (keeps_rules, Keeps-write) depth 14

  Keeps-answer :
      (out : Outside) (c : TuyaDeviceConfig) (command : ℕ) (clear : List ℕ) (sequence future : ℕ)
      → future < n
      → Keeps (Links o n) (answer out c command clear sequence future)
  unfolding answer
  Keeps-answer out c command clear sequence future small =
      search (keeps_rules, Keeps-send, Keeps-outside, Keeps-await_future out future small) depth 14

-- With one future more.
Links-create_future :
    {o : Owner} {n : ℕ} (sequence : ℕ) (s : TuyaLocalDriver)
    → Links o n s
    → Links o (suc s.made) (create_future sequence s).1
unfolding create_future
Links-create_future sequence s h = record {
  same = h.same;
  word = h.word;
  counted = omega arith;
  own_state = h.own_state;
  fresh_pending =
      ArePending-put (suc s.made) s.pending sequence s.made (omega arith)
        (ArePending-suc s.made s.pending h.fresh_pending);
  fresh_futures = AreDone-suc s.made s.futures h.fresh_futures;
}

Links-fewer : {o : Owner} (m n : ℕ) (s : TuyaLocalDriver) → m ≤ n → Links o n s → Links o m s
Links-fewer m n s le h = record {
  same = h.same;
  word = h.word;
  counted = omega (arith, le, h.counted);
  own_state = h.own_state;
  fresh_pending = h.fresh_pending;
  fresh_futures = h.fresh_futures;
}

module _ {o : Owner} {n : ℕ} where
  Keeps-request :
      (out : Outside) (c : TuyaDeviceConfig) (command : ℕ) (clear : List ℕ) (sequence : ℕ)
      → Keeps (Links o n) (request out c command clear sequence)
  unfolding request create_future
  Keeps-request out c command clear sequence = record {
    after = λ s h.
        let t = (create_future sequence s).1 in
        Links-fewer n (suc s.made) (answer out c command clear sequence s.made t).1
          (omega (arith, h.counted))
          ((Keeps-answer out c command clear sequence s.made (omega arith)).after t
            (Links-create_future sequence s h));
  }

  Links-pop_failed :
      (sequence : ℕ) (r : Result (List ℕ) × TuyaLocalDriver)
      → Links o n r.1
      → Links o n (pop_failed sequence r).1
  unfolding pop_failed
  Links-pop_failed sequence (ok payload, s) h = h
  Links-pop_failed sequence (err e, s) h =
      ground (arith, ArePending-remove s.made s.pending sequence h.fresh_pending)

  Keeps-numbered :
      (out : Outside) (c : TuyaDeviceConfig) (command : ℕ) (clear : List ℕ) (sequence : ℕ)
      → Keeps (Links o n) (λ s. pop_failed sequence (request out c command clear sequence s))
  Keeps-numbered out c command clear sequence = record {
    after = λ s h.
        Links-pop_failed sequence (request out c command clear sequence s)
          ((Keeps-request out c command clear sequence).after s h);
  }

  Keeps-attempt :
      (out : Outside) (c : TuyaDeviceConfig) (command : ℕ) (clear : List ℕ)
      → Keeps (Links o n) (attempt out c command clear)
  unfolding attempt
  Keeps-attempt out c command clear =
      search (keeps_rules, Keeps-connect, Keeps-next_sequence, Keeps-numbered) depth 14

  Keeps-failed_with :
      (text : String) → Keeps (Links o n) (modify λ s. record s { last_error = some text })
  Keeps-failed_with text = record { after = λ s h. ground arith }

  Keeps-pause : (k left : ℕ) → Keeps (Links o n) (modify (pause k left))
  Keeps-pause k zero = record { after = λ s h. h }
  Keeps-pause k (suc left) = record { after = λ s h. ground arith }

  Keeps-recover : (out : Outside) (k left : ℕ) (e : Exc) → Keeps (Links o n) (recover out k left e)
  unfolding recover
  Keeps-recover out k left e =
      search (keeps_rules, Keeps-failed_with, Keeps-disconnect, Keeps-pause) depth 14

  Links-after_attempt :
      (out : Outside) (k left : ℕ) (rest : String → Io (List ℕ))
      (r : Result (List ℕ) × TuyaLocalDriver)
      → ((text : String) → Keeps (Links o n) (rest text))
      → Links o n r.1
      → Links o n (after_attempt out k left rest r).1
  unfolding after_attempt
  Links-after_attempt out k left rest (ok payload, s) kept h = h
  Links-after_attempt out k left rest (err e, s) kept h =
      let handled : Keeps (Links o n)
          (if is_retried e then recover out k left e >> rest (message e) else raise e) =
        search (keeps_rules, Keeps-recover, kept) in
      handled.after s h

  Keeps-attempts :
      (out : Outside) (c : TuyaDeviceConfig) (command : ℕ) (clear : List ℕ) (left k : ℕ)
      (last : String)
      → Keeps (Links o n) (attempts out c command clear left k last)
  unfolding attempts
  Keeps-attempts out c command clear zero k last = Keeps-raise _
  Keeps-attempts out c command clear (suc left) k last = record {
    after = λ s h.
        Links-after_attempt out k left (attempts out c command clear left (suc k))
          (attempt out c command clear s) (Keeps-attempts out c command clear left (suc k))
          ((Keeps-attempt out c command clear).after s h);
  }

  pub Keeps-exchange :
      (out : Outside) (command : ℕ) (clear : List ℕ)
      → Keeps (Links o n) (exchange out command clear)
  unfolding exchange
  Keeps-exchange out command clear = search (keeps_rules, Keeps-device, Keeps-attempts) depth 14
