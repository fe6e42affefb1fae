-- ===== src/Tuya/Local/Reader.antt =====
-- tuya.py: `_reader_loop` and `_handle_status` of TuyaLocalDriver.
pub mod Statuses
use linker.Prelude.{
  ℕ, String, Bool, true, false, not, Option, none, some, List, [], ◌∷◌, nat_eq, nat_Eq, string_Eq,
  str_eq, if◌then◌else◌,
}
use linker.Python.Exc.{
  Exc, Result, ok, err, connection_error, protocol_error, cancelled, message, is_protocol_error,
}
use linker.Python.Exc
use linker.Python.Action.{Action, pure, raise, lift, inspect, modify, ◌>>=◌, ◌>>◌}
use linker.Python.Dict.{Dict, get, remove, update}
use linker.Python.Text.{concat}
use linker.Models.Light.{LightState}
use linker.Tuya.Config.{TuyaDeviceConfig}
use linker.Tuya.Dps.{Dps, parse_dps, state_from_dps}
use linker.Tuya.Frame.{TuyaFrame}
use linker.Tuya.Mapping.{TuyaDpMapping}
use linker.Tuya.Payload.{decode_payload, without_retcode, command_status, or_key}
use linker.Tuya.Local.{
  Outside, Arrival, TuyaLocalDriver, Io, outside, outside_call, device, revisioned, is_reading,
  settle, settle_all, tick,
}
use linker.Tuya.Local.Link.{key_bytes, read_arrival}

-- `decode_payload` and `_without_retcode` with the keys of the session
unfoldable pub decoded : Outside → TuyaDeviceConfig → Option (List ℕ) → TuyaFrame → Result (List ℕ)
decoded out d session_key frame =
    Exc.◌>>=◌
      (decode_payload out.crypto out.encodings frame d.protocol_version (key_bytes d) session_key)
      λ payload. ok (without_retcode payload)

-- `self._raw_dps.update(parse_dps(payload))`
unfoldable pub update_dps : Outside → List ℕ → Io (Unit {0})
update_dps out payload = lift (parse_dps out.reading payload) >>= λ dps.
    modify λ s. record s { raw_dps = update s.raw_dps dps }

-- The state that the data points describe.
unfoldable pub mapped_state : Outside → TuyaDeviceConfig → TuyaDpMapping → Io LightState
unfolding revisioned
mapped_state out d m = outside out.now >>= λ now.
    inspect
      λ s. lift (state_from_dps out.colorsys d.device_id s.raw_dps m (some now)) >>= revisioned

-- `except TuyaProtocolError: return`; none where there is no new state.
unfoldable pub drop_protocol_error :
    Result (Option LightState) × TuyaLocalDriver → Result (Option LightState) × TuyaLocalDriver
drop_protocol_error (ok state, s) = (ok state, s)
drop_protocol_error (err e, s) = (if is_protocol_error e then ok none else err e, s)

-- One callback. Its exception is kept as the last error; a cancellation goes on.
abbrev pub called : Result (Unit {0}) → Io (Unit {0})
called (ok u) = pure tt
called (err cancelled) = raise cancelled
called (err e) =
    modify λ s. record s { last_error = some (concat "state callback failed: " (message e)) }

unfoldable pub call_back : Outside → LightState → ℕ → Io (Unit {0})
call_back out state callback = outside (out.callback callback state) >>= λ outcome.
    modify (λ s. record s { published = (callback, state) ∷ s.published }) >> called outcome

unfoldable pub publish : Outside → LightState → List ℕ → Io (Unit {0})
unfolding call_back
publish out state [] = pure tt
publish out state (callback ∷ callbacks) =
    call_back out state callback >> publish out state callbacks

abbrev callbacks_of : Option (ℕ × List ℕ) → List ℕ
callbacks_of none = []
callbacks_of (some (number, callbacks)) = callbacks

unfoldable pub publish_all : Outside → TuyaDeviceConfig → LightState → Io (Unit {0})
unfolding publish
publish_all out d state =
    inspect λ s. publish out state (callbacks_of (get s.callbacks d.device_id))

-- The new state, and the callbacks that get it.
unfoldable pub report_state : Outside → TuyaDeviceConfig → Option LightState → Io (Unit {0})
unfolding publish_all
report_state out d none = pure tt
report_state out d (some state) =
    modify (λ s. record s { state = some state }) >> publish_all out d state

-- The two halves of `_handle_status`: without a mapping, only the data points are kept.
unfoldable pub status_state :
    Outside → TuyaDeviceConfig → List ℕ → Option TuyaDpMapping → Io (Option LightState)
unfolding update_dps mapped_state
status_state out d payload none = update_dps out payload >> pure none
status_state out d payload (some m) =
    update_dps out payload >> (mapped_state out d m >>= λ state. pure (some state))

-- `_handle_status`
unfoldable pub handle_status : Outside → TuyaFrame → Io (Unit {0})
unfolding device decoded status_state drop_protocol_error report_state
handle_status out frame = device >>= λ d. inspect λ s.
    lift (decoded out d s.session_key frame) >>= λ payload.
    (λ t. drop_protocol_error (status_state out d payload d.dps t)) >>= report_state out d

abbrev pub pop_future : ℕ → TuyaFrame → TuyaLocalDriver → Option ℕ → TuyaLocalDriver
pop_future sequence frame s none = s
pop_future sequence frame s (some future) = record s {
  pending = remove s.pending sequence;
  futures = settle future (ok frame) s.futures;
}

-- An answer: the future of the request with its sequence number gets it.
unfoldable pub deliver : TuyaFrame → TuyaLocalDriver → TuyaLocalDriver
deliver frame s = pop_future frame.sequence frame s (get s.pending frame.sequence)

unfoldable pub take_frame : Outside → TuyaFrame → Io (Unit {0})
unfolding handle_status deliver
take_frame out frame =
    if nat_eq frame.command command_status then handle_status out frame else modify (deliver frame)

-- The body of the loop: one frame.
unfoldable pub read_one : Outside → Arrival → Io (Unit {0})
unfolding device read_arrival take_frame
read_one out arrival = inspect λ s. device >>= λ d.
    lift (read_arrival out d.protocol_version (or_key s.session_key (key_bytes d)) arrival)
    >>= take_frame out

-- How the loop ends: every request that waits gets the error.
unfoldable pub fail_pending : Exc → TuyaLocalDriver → TuyaLocalDriver
unfolding settle_all
fail_pending e s = record s {
  reader_task = some true;
  last_error = some (message e);
  futures = settle_all s.pending (connection_error (message e)) s.futures;
  pending = [];
}

unfoldable pub end_loop : Result (Unit {0}) × TuyaLocalDriver → TuyaLocalDriver
unfolding fail_pending
end_loop (ok u, s) = s
end_loop (err cancelled, s) = record s { reader_task = some true }
end_loop (err e, s) = fail_pending e s

-- One pass of `_reader_loop`, where its task runs; `while self._reader is not None`.
unfoldable pub reader_step : Outside → Arrival → TuyaLocalDriver → TuyaLocalDriver
unfolding read_one end_loop
reader_step out arrival s =
    if is_reading s
    then if s.has_reader
      then end_loop (read_one out arrival s)
      else record s { reader_task = some true }
    else s
