-- ===== src/Tuya/Local/Invariant/Reading.antt =====
-- `_reader_loop` keeps the links of a TuyaLocalDriver.
use linker.Prelude.{
  ℕ, nat_Eq, Bool, true, false, Option, none, some, List, [], ◌∷◌, ◌≡◌, refl, sym, ap, subst, ◌∙◌,
  arith, if◌then◌else◌,
}
use linker.Python.Exc.{Exc, Result, ok, err, connection_error, cancelled, message}
use linker.Python.Action.{
  Keeps, Keeps-pure, Keeps-bind, Returned, Keeps-Returned, Keeps-inspect, Keeps-lift, modify, lift,
  keeps_rules,
}
use linker.Python.Dict.{get, update}
use linker.Models.Light.{LightState}
use linker.Tuya.Config.{TuyaDeviceConfig}
use linker.Tuya.Dps.{Dps}
use linker.Tuya.Frame.{TuyaFrame}
use linker.Tuya.Mapping.{TuyaDpMapping}
use linker.Tuya.Local.{Outside, Arrival, TuyaLocalDriver, device, revisioned, is_reading}
use linker.Tuya.Local.Reader.{
  decoded, update_dps, mapped_state, drop_protocol_error, called, call_back, publish, publish_all,
  report_state, status_state, handle_status, pop_future, deliver, take_frame, read_one,
  fail_pending, end_loop, reader_step,
}
use linker.Tuya.Local.Invariant.Stating.{drop_protocol_error-eq-ok, status_state-IsOf}
use linker.Tuya.Local.Invariant.{
  Owner, Links, IsOwnState, AreDone-settle, AreDone-settle_all, ArePending-remove, ArePending-get,
  Keeps-outside, Keeps-device, Returned-device,
}

module _ {o : Owner} {n : ℕ} where
  Keeps-set_dps :
      (new : Dps) → Keeps (Links o n) (modify λ s. record s { raw_dps = update s.raw_dps new })
  Keeps-set_dps new = record { after = λ s h. ground arith }

  Keeps-revisioned : (state : LightState) → Keeps (Links o n) (revisioned state)
  unfolding revisioned
  Keeps-revisioned state = record { after = λ s h. h }

  Keeps-update_dps : (out : Outside) (payload : List ℕ) → Keeps (Links o n) (update_dps out payload)
  unfolding update_dps
  Keeps-update_dps out payload = search (keeps_rules, Keeps-set_dps)

  pub Keeps-mapped_state :
      (out : Outside) (c : TuyaDeviceConfig) (m : TuyaDpMapping)
      → Keeps (Links o n) (mapped_state out c m)
  unfolding mapped_state
  Keeps-mapped_state out c m = search (keeps_rules, Keeps-outside, Keeps-revisioned) depth 14

  Keeps-called : (r : Result (Unit {0})) → Keeps (Links o n) (called r)
  Keeps-called (ok u) = Keeps-pure tt
  Keeps-called (err e) = record { after = λ s h. ground arith }

  Keeps-published :
      (callback : ℕ) (state : LightState)
      → Keeps (Links o n) (modify λ s. record s { published = (callback, state) ∷ s.published })
  Keeps-published callback state = record { after = λ s h. ground arith }

  Keeps-call_back :
      (out : Outside) (state : LightState) (callback : ℕ)
      → Keeps (Links o n) (call_back out state callback)
  unfolding call_back
  Keeps-call_back out state callback =
      search (keeps_rules, Keeps-outside, Keeps-published, Keeps-called) depth 14

  Keeps-publish :
      (out : Outside) (state : LightState) (callbacks : List ℕ)
      → Keeps (Links o n) (publish out state callbacks)
  unfolding publish
  Keeps-publish out state [] = Keeps-pure tt
  Keeps-publish out state (callback ∷ callbacks) =
      Keeps-bind (call_back out state callback) (λ _. publish out state callbacks)
        (Keeps-call_back out state callback) λ _. Keeps-publish out state callbacks

  Keeps-publish_all :
      (out : Outside) (c : TuyaDeviceConfig) (state : LightState)
      → Keeps (Links o n) (publish_all out c state)
  unfolding publish_all
  Keeps-publish_all out c state = search (keeps_rules, Keeps-publish)

  Keeps-set_state :
      (state : LightState)
      → IsOwnState o.device (some state)
      → Keeps (Links o n) (modify λ s. record s { state = some state })
  Keeps-set_state state own = record { after = λ s h. ground arith }

  Links-pop_future :
      (frame : TuyaFrame) (s : TuyaLocalDriver) (found : Option ℕ)
      → get s.pending frame.sequence ≡ found
      → Links o n s
      → Links o n (pop_future frame.sequence frame s found)
  Links-pop_future frame s none e h = h
  Links-pop_future frame s (some future) e h = record {
    same = h.same;
    word = h.word;
    counted = h.counted;
    own_state = h.own_state;
    fresh_pending = ArePending-remove s.made s.pending frame.sequence h.fresh_pending;
    fresh_futures =
        AreDone-settle s.made future (ok frame) s.futures
          (ArePending-get s.made s.pending frame.sequence h.fresh_pending e) h.fresh_futures;
  }

  Keeps-deliver : (frame : TuyaFrame) → Keeps (Links o n) (modify (deliver frame))
  unfolding deliver
  Keeps-deliver frame = record {
    after = λ s h. Links-pop_future frame s (get s.pending frame.sequence) refl h;
  }

  Links-fail_pending : (e : Exc) (s : TuyaLocalDriver) → Links o n s → Links o n (fail_pending e s)
  unfolding fail_pending
  Links-fail_pending e s h = record {
    same = h.same;
    word = h.word;
    counted = h.counted;
    own_state = h.own_state;
    fresh_pending = tt;
    fresh_futures =
        AreDone-settle_all s.made s.pending (connection_error (message e)) s.futures h.fresh_pending
          h.fresh_futures;
  }

  Keeps-report_state :
      (out : Outside) (c : TuyaDeviceConfig) (found : Option LightState)
      → o.device ≡ some c
      → ((state : LightState) → found ≡ some state → state.device_id ≡ c.device_id)
      → Keeps (Links o n) (report_state out c found)
  unfolding report_state
  Keeps-report_state out c none same own = Keeps-pure tt
  Keeps-report_state out c (some state) same own = search (
    keeps_rules,
    Keeps-publish_all,
    Keeps-set_state state (subst (λ d. IsOwnState d (some state)) (sym same) (own state refl)),
  )

  Keeps-status_state :
      (out : Outside) (c : TuyaDeviceConfig) (payload : List ℕ) (m : Option TuyaDpMapping)
      → Keeps (Links o n) (status_state out c payload m)
  unfolding status_state
  Keeps-status_state out c payload none = search (keeps_rules, Keeps-update_dps)
  Keeps-status_state out c payload (some m) =
      search (keeps_rules, Keeps-update_dps, Keeps-mapped_state) depth 14

  Links-drop_protocol_error :
      (r : Result (Option LightState) × TuyaLocalDriver)
      → Links o n r.1
      → Links o n (drop_protocol_error r).1
  unfolding drop_protocol_error
  Links-drop_protocol_error (ok state, s) h = h
  Links-drop_protocol_error (err e, s) h = h

  Keeps-status :
      (out : Outside) (c : TuyaDeviceConfig) (payload : List ℕ)
      → Keeps (Links o n) (λ t. drop_protocol_error (status_state out c payload c.dps t))
  Keeps-status out c payload = record {
    after = λ s h.
        Links-drop_protocol_error (status_state out c payload c.dps s)
          ((Keeps-status_state out c payload c.dps).after s h);
  }

  Returned-status :
      (out : Outside) (c : TuyaDeviceConfig) (payload : List ℕ) (found : Option LightState)
      → Returned (Links o n) (λ t. drop_protocol_error (status_state out c payload c.dps t)) found
      → (state : LightState) → found ≡ some state
      → state.device_id ≡ c.device_id
  Returned-status out c payload found (s, h, e) state same =
      status_state-IsOf out c payload c.dps s state
        (drop_protocol_error-eq-ok (status_state out c payload c.dps s) (e ∙ ap ok same))

  Keeps-handle_status :
      (out : Outside) (frame : TuyaFrame) → Keeps (Links o n) (handle_status out frame)
  unfolding handle_status
  Keeps-handle_status out frame = Keeps-Returned device _ Keeps-device λ c rc.
      Keeps-inspect _ λ s h.
        Keeps-bind (lift (decoded out c s.session_key frame)) _
          (Keeps-lift (decoded out c s.session_key frame))
          λ payload. Keeps-Returned _ (report_state out c) (Keeps-status out c payload) λ found rf.
            Keeps-report_state out c found (Returned-device c rc)
              (Returned-status out c payload found rf)

  Keeps-take_frame : (out : Outside) (frame : TuyaFrame) → Keeps (Links o n) (take_frame out frame)
  unfolding take_frame
  Keeps-take_frame out frame = search (keeps_rules, Keeps-handle_status, Keeps-deliver)

  Keeps-read_one : (out : Outside) (arrival : Arrival) → Keeps (Links o n) (read_one out arrival)
  unfolding read_one
  Keeps-read_one out arrival = search (keeps_rules, Keeps-device, Keeps-take_frame) depth 14

  Links-end_loop :
      (r : Result (Unit {0}) × TuyaLocalDriver) → Links o n r.1 → Links o n (end_loop r)
  unfolding end_loop
  Links-end_loop (ok u, s) h = h
  Links-end_loop (err cancelled, s) h = ground arith
  Links-end_loop (err e, s) h = Links-fail_pending e s h

  Links-if :
      (b : Bool) (s t : TuyaLocalDriver)
      → Links o n s
      → Links o n t
      → Links o n (if b then s else t)
  Links-if true s t hs ht = hs
  Links-if false s t hs ht = ht

  Links-done :
      (s : TuyaLocalDriver) → Links o n s → Links o n (record s { reader_task = some true })
  Links-done s h = ground arith

  -- Whatever arrives, the reader keeps the links.
  pub reader_step-Links :
      (out : Outside) (arrival : Arrival) (s : TuyaLocalDriver)
      → Links o n s
      → Links o n (reader_step out arrival s)
  unfolding reader_step
  reader_step-Links out arrival s h =
      let read = end_loop (read_one out arrival s) in
      let looped =
        Links-end_loop (read_one out arrival s) ((Keeps-read_one out arrival).after s h) in
      let done = record s { reader_task = some true } in
      Links-if (is_reading s) (if s.has_reader then read else done) s
        (Links-if s.has_reader read done looped (Links-done s h)) h
