-- ===== src/Server/Answers.antt =====
-- What a message of the server can do to the session.
use linker.Prelude.{
  ◌+◌, Bool, true, false, Option, none, some, ◌≡◌, ◌≢◌, refl, sym, ap, ◌∙◌, List, [], ◌∷◌,
  string_Eq, nat_Eq, arith, inl, inr, ◌⊎◌, subst, if◌then◌else◌,
}
use linker.Python.Exc.{
  Exc, Result, ok, err, value_error, recursion_error, is_envelope_error, is_overflow_error,
  err-injective, is_bad_request,
}
use linker.Models.Identifier.{is_short_text, is_type_name}
use linker.Protocol
use linker.Protocol.{Envelope, Payload, IsoTime, from_dict}
use linker.Protocol.Errors.{IsLate, from_dict-errors}
use linker.Driver.{VendorRgbDriver}
use linker.Boundary.{LinkerConfig, LinkerBoundary, Stamps, make_envelope}
use linker.Boundary.Commands.{handle_command}
use linker.Boundary.Commands.Effects.{handle_command-SameLight}
use linker.Boundary.Sessions.{handle_discovery, handle_pairing}
use linker.Server.{
  Loaded, loaded, no_json, unreadable, too_deep, from_json, applied_state, answered, with_state,
  after_command, dispatch, parsed, receive,
}

-- The report of a state, in the envelope that the boundary builds next.
abbrev pub state_report : {D : Type 0} → Stamps → Payload → LinkerBoundary D → Envelope
state_report stamps state s = record {
  kind = "light.state.reported";
  source = s.config.id;
  payload = state;
  id = stamps.uuid4 s.built;
  timestamp = stamps.now s.built;
  correlation_id = none;
}

-- What `json.loads` of a text can raise that nothing catches.
abbrev pub IsUnread : Loaded → Exc → Type 0
IsUnread (loaded v) e = ⊥
IsUnread no_json e = ⊥
IsUnread (unreadable m) e = e ≡ value_error m
IsUnread (too_deep m) e = e ≡ recursion_error m

-- A JSON object with a time that is in no year of UTC.
abbrev pub IsLateText : IsoTime → Loaded → Type 0
IsLateText iso (loaded v) = IsLate iso v
IsLateText iso raw = ⊥

from_json-errors :
    (iso : IsoTime) (raw : Loaded) (e : Exc)
    → from_json iso raw ≡ err e
    → (is_envelope_error e ≡ true)
      ⊎ (((is_overflow_error e ≡ true) × IsLateText iso raw) ⊎ IsUnread raw e)
unfolding from_json
from_json-errors iso (loaded v) e h = elim (from_dict-errors iso v e h) [
  | inl refused ↦ inl refused
  | inr late ↦ inr (inl late)
]
from_json-errors iso no_json e h = inl (ground arith)
from_json-errors iso (unreadable m) e h = inr (inr (sym (err-injective h)))
from_json-errors iso (too_deep m) e h = inr (inr (sym (err-injective h)))

-- An exception that leaves `_receive`: of a text that is no envelope, or of a message that is answered.
abbrev pub IsEscape : IsoTime → Loaded → Exc → Type 0
IsEscape iso raw e =
    ((is_overflow_error e ≡ true) × IsLateText iso raw)
    ⊎ (IsUnread raw e
        ⊎ ((is_bad_request e ≡ false) × (message : Envelope) × (from_json iso raw ≡ ok message)))

-- What `except ProtocolError` does not catch goes on as it is.
not_refused :
    {S : Type 0} (caught : Bool) (f e : Exc) (s : S)
    → (if◌then◌else◌ {A = Result (List Envelope) × S} caught (ok [], s) (err f, s)).0 ≡ err e
    → (caught ≡ false) × (f ≡ e)
not_refused true f e s h = cc
not_refused false f e s h = (refl, err-injective h)

module _ {D : Type 0} (drv : VendorRgbDriver D) (stamps : Stamps) where
  answered-errors :
      (r : Result (List Envelope) × LinkerBoundary D) (e : Exc)
      → (answered r).0 ≡ err e
      → is_bad_request e ≡ false
  answered-errors (ok ms, s) e h = cc
  answered-errors (err f, s) e h = ground arith

  with_state-reports :
      (r : Envelope) (state : Payload) (s : LinkerBoundary D)
      → is_short_text s.config.id ≡ true
      → with_state drv stamps r (some state) s
        ≡ (ok (r ∷ state_report stamps state s ∷ []), record s { built = s.built + 1 })
  unfolding with_state make_envelope Protocol.new is_type_name
  with_state-reports r state s short = ground (arith, short)

  with_state-ok :
      (r : Envelope) (state : Option Payload) (s : LinkerBoundary D) (e : Exc)
      → is_short_text s.config.id ≡ true
      → (with_state drv stamps r state s).0 ≢ err e
  unfolding with_state
  with_state-ok r none s e short = λ h. cc
  with_state-ok r (some state) s e short = rw (with_state-reports r state s short) (λ h. cc)

  after_command-errors :
      (r : Result Envelope × LinkerBoundary D) (e : Exc)
      → is_short_text r.1.config.id ≡ true
      → (after_command drv stamps r).0 ≡ err e
      → is_bad_request e ≡ false
  unfolding after_command
  after_command-errors (ok r, s) e short h =
      absurd (with_state-ok r (applied_state r.payload) s e short h)
  after_command-errors (err f, s) e short h = ground arith

  dispatch-errors :
      (message : Envelope) (s : LinkerBoundary D) (e : Exc)
      → is_short_text s.config.id ≡ true
      → (dispatch drv stamps message s).0 ≡ err e
      → is_bad_request e ≡ false
  unfolding dispatch
  dispatch-errors message s e short h =
      let same = (handle_command-SameLight drv stamps message s).config in
      ground (
        arith,
        answered-errors (handle_discovery drv stamps message s) e,
        answered-errors (handle_pairing drv stamps message s) e,
        after_command-errors (handle_command drv stamps message s) e
            (ap (λ (c : LinkerConfig). is_short_text c.id) same ∙ short),
      )

  parsed-errors :
      (iso : IsoTime) (raw : Loaded) (r : Result Envelope) (s : LinkerBoundary D) (e : Exc)
      → is_short_text s.config.id ≡ true
      → from_json iso raw ≡ r
      → (parsed drv stamps r s).0 ≡ err e
      → IsEscape iso raw e
  unfolding parsed
  parsed-errors iso raw (ok message) s e short read h =
      inr (inr (dispatch-errors message s e short h, message, read))
  parsed-errors iso raw (err f) s e short read h =
      let (uncaught, same) = not_refused (is_envelope_error f) f e s h in
      elim (from_json-errors iso raw f read) [
        | inl refused ↦ absurd (ground (arith, refused, uncaught))
        | inr (inl (over, late)) ↦ inl (ap is_overflow_error (sym same) ∙ over, late)
        | inr (inr unread) ↦ inr (inl (subst (IsUnread raw) same unread))
      ]

  -- With a linker id of 1 to 128 characters, an exception that leaves `_receive`, which ends the session, is one
  -- of three: an OverflowError, of a message whose `ts` is in no year of UTC; a ValueError that is no
  -- JSONDecodeError, or a RecursionError, that `json.loads` raised; or, of a message that was read, none of
  -- KeyError, TypeError and ValueError with their subclasses, whatever the driver raised.
  pub receive-errors :
      (iso : IsoTime) (raw : Loaded) (s : LinkerBoundary D) (e : Exc)
      → is_short_text s.config.id ≡ true
      → (receive drv stamps iso raw s).0 ≡ err e
      → IsEscape iso raw e
  unfolding receive
  receive-errors iso raw s e short h = parsed-errors iso raw (from_json iso raw) s e short refl h
