-- ===== src/Tuya/Local/Link.antt =====
-- tuya.py: `_write`, `_read_frame_until`, `_negotiate_session` and `connect` of TuyaLocalDriver.
use linker.Prelude.{
  ℕ, bit_xor, String, true, false, not, ◌||◌, none, some, List, [], ◌∷◌, ltb, nat_eq, nat_Eq,
  str_eq, list_eq, length, take, drop, if◌then◌else◌,
}
use linker.Python.Exc.{Exc, Result, ok, err, connection_error, timeout_error, protocol_error, guard}
use linker.Python.Exc
use linker.Python.Action.{pure, raise, lift, inspect, modify, on_error, ◌>>=◌, ◌>>◌}
use linker.Python.Text.{codes}
use linker.Tuya.Config.{TuyaDeviceConfig}
use linker.Tuya.Frame.{TuyaFrame, frame_bytes, read_frame}
use linker.Tuya.Payload.{aes_encrypt, aes_decrypt, command_session_response}
use linker.Tuya.Local.{
  Outside, Arrival, bytes, lost, TuyaLocalDriver, Io, outside_call, device, next_sequence, is_open,
  disconnect,
}

abbrev pub key_bytes : TuyaDeviceConfig → List ℕ
key_bytes d = codes d.local_key

abbrev pub record_sent : List ℕ → TuyaLocalDriver → TuyaLocalDriver
record_sent sent_bytes s = record s { sent = sent_bytes ∷ s.sent }

-- `_write`
unfoldable pub write : Outside → List ℕ → Io (Unit {0})
write out frame = inspect λ s.
    if is_open s
    then modify (record_sent frame) >> outside_call out.drain
    else raise (connection_error "Tuya device is not connected")

-- One call of `_read_frame`
unfoldable pub read_arrival : Outside → String → List ℕ → Arrival → Result TuyaFrame
read_arrival out version key (lost e) = err e
read_arrival out version key (bytes stream) =
    Exc.◌>>=◌ (read_frame out.digests stream version key) λ (frame, left). ok frame

-- `_read_frame_until`, on what arrives until its timeout.
unfoldable pub first_frame : Outside → ℕ → List ℕ → List Arrival → Result TuyaFrame
unfolding read_arrival
first_frame out command key [] = err (timeout_error "")
first_frame out command key (a ∷ arrivals) =
    Exc.◌>>=◌ (read_arrival out "3.4" key a) λ frame.
      if nat_eq frame.command command then ok frame else first_frame out command key arrivals

unfoldable pub read_frame_until : Outside → ℕ → Io TuyaFrame
unfolding device first_frame
read_frame_until out command = inspect λ s.
    if s.has_reader
    then device >>= (λ d. outside_call λ n. first_frame out command (key_bytes d) (out.arrivals n))
    else raise (connection_error "Tuya device disconnected during negotiation")

abbrev pub local_nonce : List ℕ
local_nonce = codes "0123456789abcdef"

-- `bytes(left ^ right for left, right in zip(a, b))`
unfoldable pub mixed : List ℕ → List ℕ → List ℕ
mixed (x ∷ xs) (y ∷ ys) = bit_xor x y ∷ mixed xs ys
mixed _ _ = []

-- A frame of the negotiation, with a sequence number of its own.
unfoldable pub send_signed : Outside → ℕ → List ℕ → List ℕ → Io (Unit {0})
unfolding next_sequence write
send_signed out command payload key = next_sequence >>= λ sequence.
    lift (frame_bytes out.digests sequence command payload "3.4" key) >>= write out

-- The check of the answer: it holds the HMAC of the local nonce behind the remote one.
unfoldable pub remote_nonce : Outside → List ℕ → List ℕ → Result (List ℕ)
remote_nonce out key remote =
    if ltb (length remote) 48
      || not (list_eq (take 32 (drop 16 remote)) (out.digests.hmac_sha256 key local_nonce))
    then err (protocol_error "Tuya session negotiation response failed verification")
    else ok (take 16 remote)

abbrev pub set_session_key : Outside → List ℕ → List ℕ → TuyaLocalDriver → TuyaLocalDriver
set_session_key out key nonce s = record s {
  session_key = some (out.crypto.encrypt key (mixed local_nonce nonce));
}

-- `_negotiate_session`
unfoldable pub negotiate_session : Outside → Io (Unit {0})
unfolding device send_signed read_frame_until remote_nonce mixed
negotiate_session out = device >>= λ d.
    let key = key_bytes d in
    send_signed out 3 (aes_encrypt out.crypto local_nonce key) key
    >> (read_frame_until out command_session_response >>= λ response.
        lift (aes_decrypt out.crypto response.payload key) >>= λ remote.
        lift (remote_nonce out key remote) >>= λ nonce.
        send_signed out 5 (aes_encrypt out.crypto (out.digests.hmac_sha256 key nonce) key) key
        >> modify (set_session_key out key nonce))

abbrev pub opened : TuyaLocalDriver → TuyaLocalDriver
opened s = record s { writer = some false; has_reader = true; session_key = none }

abbrev pub start_reader : TuyaLocalDriver → TuyaLocalDriver
start_reader s = record s { reader_task = some false; last_error = none }

-- The block of `connect` that is behind the opened connection.
unfoldable pub start_session : Outside → TuyaDeviceConfig → Io (Unit {0})
unfolding negotiate_session
start_session out d =
    (if str_eq d.protocol_version "3.4" then negotiate_session out else pure tt)
    >> modify start_reader

-- `connect`
unfoldable pub connect : Outside → Io (Unit {0})
unfolding device start_session disconnect
connect out = inspect λ s.
    if is_open s
    then pure tt
    else device >>= λ d.
        outside_call out.open_connection
        >> (modify opened >> on_error (disconnect out) (start_session out d))
