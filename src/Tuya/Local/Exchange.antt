-- ===== src/Tuya/Local/Exchange.antt =====
-- tuya.py: `_exchange` of TuyaLocalDriver.
pub mod Failures
pub mod Matching
pub mod Correlation
pub mod Answered
pub mod Returning
use linker.Prelude.{
  ℕ, zero, suc, ◌+◌, ◌*◌, ◌^◌, min, String, Bool, true, false, Option, none, some, List, [], ◌∷◌, ℤ,
  pos, negsuc, nat_Eq, str_eq, if◌then◌else◌,
}
use linker.Python.Exc.{
  Exc, Result, ok, err, message, connection_error, timeout_error, incomplete_read, os_error,
  protocol_error, cancelled,
}
use linker.Python.Action.{Action, pure, raise, lift, inspect, modify, ◌>>=◌, ◌>>◌}
use linker.Python.Dict.{get, put, remove}
use linker.Python.Text.{concat}
use linker.Tuya.Config.{TuyaDeviceConfig}
use linker.Tuya.Frame.{TuyaFrame, frame_bytes}
use linker.Tuya.Payload.{payload_for_command, or_key}
use linker.Tuya.Local.{
  Outside, Arrival, TuyaLocalDriver, Io, outside, device, next_sequence, is_open, settle,
  disconnect,
}
use linker.Tuya.Local.Link.{key_bytes, write, connect}
use linker.Tuya.Local.Reader.{reader_step, decoded}

-- The classes that `_exchange` catches.
abbrev pub is_retried : Exc → Bool
is_retried (timeout_error m) = true
is_retried (connection_error m) = true
is_retried (incomplete_read m) = true
is_retried (os_error m) = true
is_retried (protocol_error m) = true
is_retried e = false

abbrev pub give_up : ℕ → TuyaLocalDriver → TuyaLocalDriver
give_up future s = record s { futures = settle future (err cancelled) s.futures }

-- The outcome of the future, or the rest of the wait.
abbrev pub await_done :
    Option (Result TuyaFrame) → Io TuyaFrame → TuyaLocalDriver → Result TuyaFrame × TuyaLocalDriver
await_done (some outcome) rest s = (outcome, s)
await_done none rest s = rest s

-- `wait_for(future)`: the reader runs on what arrives until the future is done or the time is over.
unfoldable pub await_future : Outside → ℕ → List Arrival → Io TuyaFrame
unfolding reader_step
await_future out future [] = modify (give_up future) >> raise (timeout_error "")
await_future out future (a ∷ arrivals) = λ s.
    let t = reader_step out a s in
    await_done (get t.futures future) (await_future out future arrivals) t

-- `self._pending[sequence] = _Pending(loop.create_future())`
unfoldable pub create_future : ℕ → Io ℕ
create_future sequence s =
    (ok s.made, record s { made = suc s.made; pending = put s.pending sequence s.made })

abbrev pub integrity_key : TuyaDeviceConfig → Option (List ℕ) → List ℕ
integrity_key d session_key =
    if str_eq d.protocol_version "3.4" then or_key session_key (key_bytes d) else key_bytes d

-- The bytes of the request.
unfoldable pub send : Outside → TuyaDeviceConfig → ℕ → List ℕ → ℕ → Io (Unit {0})
unfolding write
send out d command clear sequence = inspect λ s.
    lift (
      payload_for_command out.crypto out.encodings d.protocol_version command clear (key_bytes d)
        s.session_key)
    >>= λ payload.
        lift (
          frame_bytes out.digests sequence command payload d.protocol_version
            (integrity_key d s.session_key))
        >>= write out

-- The bytes are sent, and the answer is awaited and decoded.
unfoldable pub answer : Outside → TuyaDeviceConfig → ℕ → List ℕ → ℕ → ℕ → Io (List ℕ)
unfolding send await_future decoded
answer out d command clear sequence future =
    send out d command clear sequence
    >> (outside out.arrivals >>= await_future out future >>= λ frame.
        inspect λ s. lift (decoded out d s.session_key frame))

-- The request with its sequence number.
unfoldable pub request : Outside → TuyaDeviceConfig → ℕ → List ℕ → ℕ → Io (List ℕ)
unfolding create_future answer
request out d command clear sequence =
    create_future sequence >>= answer out d command clear sequence

-- `self._pending.pop(sequence, None)` of the handler.
unfoldable pub pop_failed :
    ℕ → Result (List ℕ) × TuyaLocalDriver → Result (List ℕ) × TuyaLocalDriver
pop_failed sequence (ok payload, s) = (ok payload, s)
pop_failed sequence (err e, s) =
    (err e, if is_retried e then record s { pending = remove s.pending sequence } else s)

-- The block of `try`.
unfoldable pub attempt : Outside → TuyaDeviceConfig → ℕ → List ℕ → Io (List ℕ)
unfolding connect next_sequence request pop_failed
attempt out d command clear =
    (inspect λ s. if is_open s then pure tt else connect out)
    >> (next_sequence >>= λ sequence.
        λ s. pop_failed sequence (request out d command clear sequence s))

-- `min(0.25 * (2**attempt), 2.0)`, in milliseconds
abbrev pub backoff : ℕ → ℕ
backoff n = min (250 * 2 ^ n) 2000

-- `if attempt < retries: sleep`, where `left` attempts follow the n-th.
abbrev pub pause : ℕ → ℕ → TuyaLocalDriver → TuyaLocalDriver
pause n zero s = s
pause n (suc left) s = record s { slept = backoff n ∷ s.slept }

-- The handler of a caught exception.
unfoldable pub recover : Outside → ℕ → ℕ → Exc → Io (Unit {0})
unfolding disconnect
recover out n left e =
    modify (λ s. record s { last_error = some (message e) })
    >> (disconnect out >> modify (pause n left))

unfoldable pub after_attempt :
    Outside
    → ℕ
    → ℕ
    → (String → Io (List ℕ))
    → Result (List ℕ) × TuyaLocalDriver
    → Result (List ℕ) × TuyaLocalDriver
unfolding recover
after_attempt out n left rest (ok payload, s) = (ok payload, s)
after_attempt out n left rest (err e, s) =
    (if is_retried e then recover out n left e >> rest (message e) else raise e) s

-- The loop: `left` attempts from the n-th on, after one that failed with the text `last`.
unfoldable pub attempts : Outside → TuyaDeviceConfig → ℕ → List ℕ → ℕ → ℕ → String → Io (List ℕ)
unfolding attempt after_attempt
attempts out d command clear zero n last =
    raise (connection_error (concat "Tuya exchange failed: " last))
attempts out d command clear (suc left) n last = λ s.
    after_attempt out n left (attempts out d command clear left (suc n))
      (attempt out d command clear s)

-- `range(retries + 1)`
abbrev pub attempt_count : ℤ → ℕ
attempt_count (pos retries) = suc retries
attempt_count (negsuc n) = 0

-- `_exchange`, on the JSON text of the body
unfoldable pub exchange : Outside → ℕ → List ℕ → Io (List ℕ)
unfolding device attempts
exchange out command clear =
    device >>= λ d. attempts out d command clear (attempt_count d.retries) 0 "None"
