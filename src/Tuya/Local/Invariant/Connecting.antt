-- ===== src/Tuya/Local/Invariant/Connecting.antt =====
-- `connect` and `disconnect` keep the links of a TuyaLocalDriver.
use linker.Prelude.{ℕ, Bool, Option, none, some, List, arith}
use linker.Python.Exc.{connection_error}
use linker.Python.Action.{Keeps, Keeps-pure, modify, keeps_rules}
use linker.Tuya.Config.{TuyaDeviceConfig}
use linker.Tuya.Local.{Outside, TuyaLocalDriver, close, reset, disconnect}
use linker.Tuya.Local.Link.{
  opened, start_reader, set_session_key, mixed, connect, send_signed, read_frame_until,
  negotiate_session, start_session,
}
use linker.Tuya.Local.Invariant.{
  Owner, Links, AreDone-settle_all, Keeps-outside_call, Keeps-write, Keeps-next_sequence,
  Keeps-device,
}

module _ {o : Owner} {n : ℕ} where
  pub Keeps-opened : Keeps (Links o n) (modify opened)
  Keeps-opened = record { after = λ s h. ground arith }

  pub Keeps-start_reader : Keeps (Links o n) (modify start_reader)
  Keeps-start_reader = record { after = λ s h. ground arith }

  pub Keeps-set_session_key :
      (out : Outside) (key nonce : List ℕ)
      → Keeps (Links o n) (modify (set_session_key out key nonce))
  unfolding mixed
  Keeps-set_session_key out key nonce = record { after = λ s h. ground arith }

  Links-reset : (s : TuyaLocalDriver) → Links o n s → Links o n (reset s)
  unfolding reset
  Links-reset s h = record {
    same = h.same;
    word = h.word;
    counted = h.counted;
    own_state = h.own_state;
    fresh_pending = tt;
    fresh_futures =
        AreDone-settle_all s.made s.pending (connection_error "Tuya device disconnected") s.futures
          h.fresh_pending h.fresh_futures;
  }

  Keeps-close : (out : Outside) (w : Option Bool) → Keeps (Links o n) (close out w)
  Keeps-close out none = Keeps-pure tt
  Keeps-close out (some closing) = Keeps-outside_call out.wait_closed

  pub Keeps-disconnect : (out : Outside) → Keeps (Links o n) (disconnect out)
  unfolding disconnect
  Keeps-disconnect out = record {
    after = λ s h. (Keeps-close out s.writer).after (reset s) (Links-reset s h);
  }

  Keeps-send_signed :
      (out : Outside) (command : ℕ) (payload key : List ℕ)
      → Keeps (Links o n) (send_signed out command payload key)
  unfolding send_signed
  Keeps-send_signed out command payload key = search (keeps_rules, Keeps-next_sequence, Keeps-write)

  Keeps-read_frame_until :
      (out : Outside) (command : ℕ) → Keeps (Links o n) (read_frame_until out command)
  unfolding read_frame_until
  Keeps-read_frame_until out command = search (keeps_rules, Keeps-device, Keeps-outside_call)

  Keeps-negotiate_session : (out : Outside) → Keeps (Links o n) (negotiate_session out)
  unfolding negotiate_session
  Keeps-negotiate_session out =
      search
        (
          keeps_rules, Keeps-device, Keeps-send_signed, Keeps-read_frame_until,
          Keeps-set_session_key,
        )
        depth 14

  Keeps-start_session :
      (out : Outside) (c : TuyaDeviceConfig) → Keeps (Links o n) (start_session out c)
  unfolding start_session
  Keeps-start_session out c = search (keeps_rules, Keeps-negotiate_session, Keeps-start_reader)

  pub Keeps-connect : (out : Outside) → Keeps (Links o n) (connect out)
  unfolding connect
  Keeps-connect out =
      search
        (
          keeps_rules, Keeps-device, Keeps-outside_call, Keeps-opened, Keeps-start_session,
          Keeps-disconnect,
        )
        depth 14
