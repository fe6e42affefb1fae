-- ===== src/Tuya/Local/Exchange/Correlation.antt =====
-- A request of a valid driver returns its own answer.
use linker.Prelude.{
  ℕ, none, some, ◌≡◌, refl, subst, nat_eq, false, List, [], ◌∷◌, nat_Eq, nat_eq_iff, arith,
}
use linker.Python.Exc.{Result, ok}
use linker.Python.Action.{>>=-eq-ok, inspect, lift, ◌>>=◌}
use linker.Python.Dict.{Dict, get, put}
use linker.Tuya.Config.{TuyaDeviceConfig}
use linker.Tuya.Frame.{TuyaFrame}
use linker.Tuya.Local.{Outside, Arrival, TuyaLocalDriver, outside, tick}
use linker.Tuya.Local.Link.{key_bytes}
use linker.Tuya.Payload.{command_status, or_key}
use linker.Tuya.Local.Reader.{decoded}
use linker.Tuya.Local.Invariant.{owner, Links, ArePending, AreDone}
use linker.Tuya.Local.Exchange.{await_future, create_future, answer, request, send}
use linker.Tuya.Local.Exchange.Matching.{
  IsRead, IsSole, Waiting, await_future-IsAwaited, Keeps-send,
}

IsSole-below :
    (sequence n : ℕ) (pending : Dict ℕ ℕ) → ArePending n pending → IsSole sequence n pending
IsSole-below sequence n [] below = tt
IsSole-below sequence n ((k, f) ∷ pending) below =
    ((λ same. absurd (omega (arith, same, below.0))), IsSole-below sequence n pending below.1)

pub IsSole-new :
    (sequence n : ℕ) (pending : Dict ℕ ℕ)
    → ArePending n pending
    → IsSole sequence n (put pending sequence n)
IsSole-new sequence n [] below = ((λ _. refl), tt)
IsSole-new sequence n ((k, f) ∷ pending) below = ground (
  arith,
  nat_eq_iff k sequence,
  IsSole-below sequence n pending below.1,
  IsSole-new sequence n pending below.1,
)

pub not_done :
    (n : ℕ) (futures : Dict ℕ (Result TuyaFrame)) → AreDone n futures → get futures n ≡ none
not_done n [] below = refl
not_done n ((k, r) ∷ futures) below = ground (arith, nat_eq_iff k n, not_done n futures below.1)

module _ (out : Outside) (d : TuyaDeviceConfig) (command : ℕ) (clear : List ℕ) (sequence : ℕ)
    (s : TuyaLocalDriver) where
  Waiting-create_future :
      (G : TuyaFrame → Type 0)
      → Links (owner s) 0 s
      → s.device ≡ some d
      → Waiting G d s.session_key sequence s.made (create_future sequence s).1
  unfolding create_future
  Waiting-create_future G h own = record {
    same_device = own;
    same_key = refl;
    sole = IsSole-new sequence s.made s.pending h.fresh_pending;
    answered = λ r e. absurd (ground (arith, e, not_done s.made s.futures h.fresh_futures));
  }

  -- What arrives while the request waits, behind its sending.
  abbrev pub arrived : List Arrival
  arrived = out.arrivals (send out d command clear sequence (create_future sequence s).1).1.ticks

  -- The payload that a request of a valid driver returns is the decoded payload of a frame that the reader read from
  -- what arrived while the request waited, with the keys of the device and the session. The frame has the
  -- sequence number of this request, and is no status report. The request is to the driver's device.
  pub request-IsAnswer :
      (payload : List ℕ)
      → Links (owner s) 0 s
      → s.device ≡ some d
      → (request out d command clear sequence s).0 ≡ ok payload
      → (frame : TuyaFrame) × (frame.sequence ≡ sequence)
        × (nat_eq frame.command command_status ≡ false)
        × IsRead out d.protocol_version (or_key s.session_key (key_bytes d)) arrived frame
        × (decoded out d s.session_key frame ≡ ok payload)
  unfolding request create_future answer
  request-IsAnswer payload h own e =
      let future = s.made in
      let G = IsRead out d.protocol_version (or_key s.session_key (key_bytes d)) arrived in
      let t = (create_future sequence s).1 in
      let decode = λ (frame : TuyaFrame).
        inspect λ (u : TuyaLocalDriver). lift (decoded out d u.session_key frame) in
      let wait = outside out.arrivals >>= await_future out future in
      let (u, sent, rest) =
        >>=-eq-ok (send out d command clear sequence) (λ _. wait >>= decode) t e in
      let t' = (send out d command clear sequence t).1 in
      let (frame, awaited, result) = >>=-eq-ok wait decode t' rest in
      let waiting =
        (Keeps-send G d s.session_key sequence future out d command clear sequence).after t
          (Waiting-create_future G h own) in
      let (answers, after) =
        await_future-IsAwaited G d s.session_key sequence future out arrived (tick t')
          (λ frame r. r) waiting in
      let (same, plain, read) = answers frame awaited in
      (
        frame,
        same,
        plain,
        read,
        subst (λ k. decoded out d k frame ≡ ok payload) after.same_key result,
      )
