-- ===== src/Tuya/Local/Exchange/Returning.antt =====
-- An exchange over an open connection returns what the device answers.
use linker.Prelude.{
  ℕ, true, String, Option, some, ◌≡◌, refl, ap, ◌∙◌, List, pos, nat_Eq, if◌then◌else◌, arith,
}
use linker.Python.Exc.{Result, ok, err, ok-injective}
use linker.Python.Action.{then_call, pure, lift, inspect, ◌>>=◌}
use linker.Python.Dict.{get-put_self}
use linker.Tuya.Config.{TuyaDeviceConfig}
use linker.Tuya.Frame.{TuyaFrame}
use linker.Tuya.Payload.{or_key}
use linker.Tuya.Local.{
  Outside, TuyaLocalDriver, Io, outside, device, required, no_device, next_sequence, is_open,
  is_reading, tick,
}
use linker.Tuya.Local.Link.{key_bytes, connect}
use linker.Tuya.Local.Reader.{decoded}
use linker.Tuya.Local.Invariant.{owner, Links, Keeps-next_sequence}
use linker.Tuya.Local.Exchange.{
  await_future, create_future, answer, request, send, attempt, attempts, attempt_count,
  after_attempt, pop_failed, exchange,
}
use linker.Tuya.Local.Exchange.Correlation.{IsSole-new, not_done}
use linker.Tuya.Local.Exchange.Answered.{IsAnswered, IsWaiting, await_future-answered, Keeps-send}

-- A block whose first call returns.
then_call-returned :
    {A B : Type 0} (r : Result A × TuyaLocalDriver)
    (f : A → TuyaLocalDriver → Result B × TuyaLocalDriver) (a : A)
    → r.0 ≡ ok a
    → then_call f r ≡ f a r.1
then_call-returned (ok x, t) f a h = ap (λ x. f x t) (ok-injective h)
then_call-returned (err e, t) f a h = cc

-- The request is in the table, with its future and the reader at work.
create_future-IsWaiting :
    (d : TuyaDeviceConfig) (sequence : ℕ) (s : TuyaLocalDriver)
    → Links (owner s) 0 s
    → s.device ≡ some d
    → is_reading s ≡ true
    → s.has_reader ≡ true
    → IsWaiting d s.session_key sequence s.made (create_future sequence s).1
unfolding create_future
create_future-IsWaiting d sequence s h own reads has = record {
  own = own;
  reads = reads;
  has = has;
  keyed = refl;
  waits = get-put_self s.pending sequence s.made;
  open_yet = not_done s.made s.futures h.fresh_futures;
  sole = IsSole-new sequence s.made s.pending h.fresh_pending;
}

tick-IsWaiting :
    (d : TuyaDeviceConfig) (key : Option (List ℕ)) (sequence future : ℕ) (s : TuyaLocalDriver)
    → IsWaiting d key sequence future s
    → IsWaiting d key sequence future (tick s)
tick-IsWaiting d key sequence future s w = ground arith

module _ (out : Outside) (d : TuyaDeviceConfig) (command : ℕ) (clear : List ℕ) where
  -- The driver when the request has been sent.
  abbrev pub sent : ℕ → TuyaLocalDriver → Result (Unit {0}) × TuyaLocalDriver
  sent sequence s = send out d command clear sequence (create_future sequence s).1

  request-answered :
      (sequence : ℕ) (s : TuyaLocalDriver) (frame : TuyaFrame) (payload : List ℕ)
      → Links (owner s) 0 s
      → s.device ≡ some d
      → is_reading s ≡ true
      → s.has_reader ≡ true
      → (sent sequence s).0 ≡ ok tt
      → IsAnswered out d.protocol_version
          (or_key s.session_key (key_bytes d))
          sequence
          frame
          (out.arrivals (sent sequence s).1.ticks)
      → decoded out d s.session_key frame ≡ ok payload
      → (request out d command clear sequence s).0 ≡ ok payload
  unfolding request create_future answer
  request-answered sequence s frame payload h own reads has was_sent answered decodes =
      let future = s.made in
      let wait = outside out.arrivals >>= await_future out future in
      let decode =
        λ (f : TuyaFrame). inspect λ (u : TuyaLocalDriver). lift (decoded out d u.session_key f) in
      let t = (sent sequence s).1 in
      let w =
        (Keeps-send out d s.session_key sequence future command clear sequence).after
          (create_future sequence s).1 (create_future-IsWaiting d sequence s h own reads has) in
      let (returned, keyed) =
        await_future-answered out d s.session_key sequence future frame (out.arrivals t.ticks)
          answered (tick t) (tick-IsWaiting d s.session_key sequence future t w) in
      ap (λ r. r.0) (then_call-returned (sent sequence s) (λ _. wait >>= decode) tt was_sent)
      ∙ ap (λ r. r.0) (then_call-returned (wait t) decode frame returned)
      ∙ ap (λ k. decoded out d k frame) (keyed ∙ w.keyed)
      ∙ decodes

  pop_failed-ok :
      (sequence : ℕ) (r : Result (List ℕ) × TuyaLocalDriver) (payload : List ℕ)
      → r.0 ≡ ok payload
      → (pop_failed sequence r).0 ≡ ok payload
  unfolding pop_failed
  pop_failed-ok sequence (ok x, t) payload h = h
  pop_failed-ok sequence (err e, t) payload h = cc

  after_attempt-ok :
      (n left : ℕ) (rest : String → Io (List ℕ)) (r : Result (List ℕ) × TuyaLocalDriver)
      (payload : List ℕ)
      → r.0 ≡ ok payload
      → (after_attempt out n left rest r).0 ≡ ok payload
  unfolding after_attempt
  after_attempt-ok n left rest (ok x, t) payload h = h
  after_attempt-ok n left rest (err e, t) payload h = cc

  attempt-answered :
      (s : TuyaLocalDriver) (payload : List ℕ)
      → is_open s ≡ true
      → (let (r, t) = next_sequence s in (request out d command clear t.sequence t).0 ≡ ok payload)
      → (attempt out d command clear s).0 ≡ ok payload
  unfolding attempt next_sequence
  attempt-answered s payload is_there h =
      let t = (next_sequence s).1 in
      let numbered =
        λ (q : ℕ) (u : TuyaLocalDriver). pop_failed q (request out d command clear q u) in
      ap
        (λ b.
          (then_call (λ _. next_sequence >>= numbered) ((if b then pure tt else connect out) s)).0)
        is_there
      ∙ pop_failed-ok t.sequence (request out d command clear t.sequence t) payload h

  -- Over an open connection whose reader is at work, a request that can be sent and that the device answers
  -- gets its answer on the first attempt: if what arrives while the driver waits has a frame with the
  -- sequence number of the request that decodes, behind any number of answers to other requests, the exchange
  -- returns its payload. The driver is a valid one, and its number of retries is no negative one.
  pub exchange-answered :
      (s : TuyaLocalDriver) (retries : ℕ) (frame : TuyaFrame) (payload : List ℕ)
      → Links (owner s) 0 s
      → s.device ≡ some d
      → d.retries ≡ pos retries
      → is_open s ≡ true
      → is_reading s ≡ true
      → s.has_reader ≡ true
      → (let t = (next_sequence s).1 in
          ((sent t.sequence t).0 ≡ ok tt)
          × IsAnswered out d.protocol_version
              (or_key s.session_key (key_bytes d))
              t.sequence
              frame
              (out.arrivals (sent t.sequence t).1.ticks))
      → decoded out d s.session_key frame ≡ ok payload
      → (exchange out command clear s).0 ≡ ok payload
  unfolding exchange device attempts next_sequence
  exchange-answered s retries frame payload h own count is_there reads has (was_sent, answered)
        decodes =
      let t = (next_sequence s).1 in
      let tried =
        λ (c : TuyaDeviceConfig). attempts out c command clear (attempt_count c.retries) 0 "None" in
      let returned =
        request-answered t.sequence t frame payload (Keeps-next_sequence.after s h) own reads has
          was_sent answered decodes in
      ap (λ o. (then_call tried (required o no_device, s)).0) own
      ∙ ap (λ c. (attempts out d command clear (attempt_count c) 0 "None" s).0) count
      ∙ after_attempt-ok 0 retries (attempts out d command clear retries 1)
          (attempt out d command clear s) payload (attempt-answered s payload is_there returned)
