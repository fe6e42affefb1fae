-- ===== src/Tests/ExchangeTests.antt =====
-- The theorems on the exchanges of TuyaLocalDriver, applied to samples.
use linker.Prelude.{none, nat_eq, ℕ, ◌≡◌, refl, List, [], ◌∷◌, false, nat_Eq, string_Eq, arith}
use linker.Python.Exc.{ok, err, timeout_error, connection_error}
use linker.Python.Bytes.{be32, u32, pack_u32}
use linker.Tuya.Frame.{
  TuyaFrame, frame_bytes, parse_frame, read_frame, verify, trailer_size, read_exactly,
}
use linker.Tuya.Payload.{command_status, payload_for_command, decode_payload, without_retcode}
use linker.Tuya.Local.{bytes, blank, device, next_sequence, reset, settle_all, disconnect}
use linker.Tuya.Local.Link.{key_bytes, write, connect, start_session, read_arrival}
use linker.Tuya.Local.Reader.{decoded, reader_step, read_one, take_frame, deliver, end_loop}
use linker.Tuya.Local.Exchange.{
  await_future, create_future, send, answer, request, pop_failed, attempt, recover, after_attempt,
  attempts, exchange,
}
use linker.Tuya.Local.Exchange.Failures.{IsFailed, exchange-IsFailed, exchange-raised_by_close}
use linker.Tuya.Local.Exchange.Matching.{IsRead}
use linker.Tuya.Local.Exchange.Correlation.{arrived, request-IsAnswer}
use linker.Tuya.Local.Exchange.Answered.{here}
use linker.Tuya.Local.Exchange.Returning.{exchange-answered}
use linker.Tuya.Local.Invariant.{Links, owner}
use linker.Tests.LocalSamples.{
  answering, unreachable, broken, reset_by_peer, lamp_device, idle, connected, answer_bytes,
}

abbrev query : List ℕ
query = 123 ∷ 125 ∷ []

exchange-raised :
    (exchange unreachable 10 query idle).0
    ≡ err (connection_error "Tuya exchange failed: no route to host")
unfolding exchange device attempts attempt after_attempt connect start_session next_sequence request
    pop_failed create_future answer send payload_for_command frame_bytes trailer_size write
    await_future reader_step read_one read_arrival read_frame parse_frame verify u32 be32 take_frame
    deliver end_loop decoded decode_payload without_retcode blank pack_u32 read_exactly recover
    disconnect reset settle_all
exchange-raised = refl

exchange-IsFailed_example :
    IsFailed
      (connection_error "Tuya exchange failed: no route to host")
      (exchange unreachable 10 query idle).1
exchange-IsFailed_example =
    exchange-IsFailed unreachable 10 query idle lamp_device 1
      (connection_error "Tuya exchange failed: no route to host") (λ n. refl) (unfold blank in refl)
      refl exchange-raised

timed_out : (attempt broken lamp_device 10 query idle).0 ≡ err (timeout_error "")
unfolding exchange device attempts attempt after_attempt connect start_session next_sequence request
    pop_failed create_future answer send payload_for_command frame_bytes trailer_size write
    await_future reader_step read_one read_arrival read_frame parse_frame verify u32 be32 take_frame
    deliver end_loop decoded decode_payload without_retcode blank pack_u32 read_exactly
timed_out = refl

exchange-raised_by_close_example : (exchange broken 10 query idle).0 ≡ err reset_by_peer
exchange-raised_by_close_example =
    exchange-raised_by_close broken 10 query idle lamp_device 1 (timeout_error "") reset_by_peer
      false (λ k. refl) (unfold blank in refl) refl timed_out refl
      (unfold exchange device attempts attempt after_attempt connect start_session next_sequence
          request pop_failed create_future answer send payload_for_command frame_bytes trailer_size
          write await_future reader_step read_one read_arrival read_frame parse_frame verify u32
          be32 take_frame deliver end_loop decoded decode_payload without_retcode blank pack_u32
          read_exactly in
        refl)

connected-Links : Links (owner connected) 0 connected
unfolding blank
connected-Links = record {
  same = refl;
  word = omega arith;
  counted = omega arith;
  own_state = tt;
  fresh_pending = tt;
  fresh_futures = tt;
}

returned : (request answering lamp_device 10 query 1 connected).0 ≡ ok query
unfolding exchange device attempts attempt after_attempt connect start_session next_sequence request
    pop_failed create_future answer send payload_for_command frame_bytes trailer_size write
    await_future reader_step read_one read_arrival read_frame parse_frame verify u32 be32 take_frame
    deliver end_loop decoded decode_payload without_retcode blank pack_u32 read_exactly
returned = refl

request-IsAnswer_example :
    (frame : TuyaFrame) × (frame.sequence ≡ 1)
    × (nat_eq frame.command command_status ≡ false)
    × IsRead answering "3.1"
        (key_bytes lamp_device)
        (arrived answering lamp_device 10 query 1 connected)
        frame
    × (decoded answering lamp_device none frame ≡ ok query)
unfolding blank
request-IsAnswer_example =
    request-IsAnswer answering lamp_device 10 query 1 connected query connected-Links refl returned

abbrev reply : TuyaFrame
reply = record { sequence = 1; command = 10; payload = query }

exchange-answered_example : (exchange answering 10 query connected).0 ≡ ok query
unfolding next_sequence blank
exchange-answered_example =
    exchange-answered answering lamp_device 10 query connected 1 reply query connected-Links refl
      refl refl refl refl
      (
        (unfold exchange device attempts attempt after_attempt connect start_session next_sequence
              request pop_failed create_future answer send payload_for_command frame_bytes
              trailer_size write await_future reader_step read_one read_arrival read_frame
              parse_frame verify u32 be32 take_frame deliver end_loop decoded decode_payload
              without_retcode blank pack_u32 read_exactly in
            refl),
        (unfold exchange device attempts attempt after_attempt connect start_session next_sequence
              request pop_failed create_future answer send payload_for_command frame_bytes
              trailer_size write await_future reader_step read_one read_arrival read_frame
              parse_frame verify u32 be32 take_frame deliver end_loop decoded decode_payload
              without_retcode blank pack_u32 read_exactly in
            here (bytes answer_bytes) [] refl refl refl),
      )
      (unfold decoded decode_payload without_retcode in refl)
