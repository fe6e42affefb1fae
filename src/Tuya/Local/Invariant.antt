-- ===== src/Tuya/Local/Invariant.antt =====
-- What the methods of a TuyaLocalDriver keep of its state.
pub mod Connecting
pub mod Stating
pub mod Reading
pub mod Exchanging
pub mod Operating
use linker.Prelude.{
  ℕ, suc, ◌^◌, ◌<◌, ◌≤◌, String, Bool, true, false, Option, none, some, List, [], ◌∷◌, ◌≡◌, refl,
  sym, ap, ◌∙◌, All, arith, nat_Eq, if◌then◌else◌,
}
use linker.Python.Exc.{Exc, Result, ok, err, connection_error}
use linker.Python.Action.{
  Action, Keeps, Keeps-pure, Returned, pure, raise, lift, inspect, modify, ◌>>=◌, ◌>>◌, keeps_rules,
}
use linker.Python.Dict.{Dict, get, put, remove, contains}
use linker.Models.Light.{LightState}
use linker.Tuya.Config.{TuyaDeviceConfig, TuyaDiscoveryOptions, TuyaPairingConfig}
use linker.Tuya.Discovery.{Found}
use linker.Tuya.Frame.{TuyaFrame}
use linker.Tuya.Local.{
  Outside, StateFile, TuyaLocalDriver, Io, close, outside, outside_call, device, next_sequence,
  settle, settle_all, reset, disconnect, tick,
}
use linker.Tuya.Local.Link.{
  record_sent, write, opened, start_reader, set_session_key, mixed, connect, send_signed,
  read_frame_until, negotiate_session, start_session,
}

-- The state, where there is one, is of the device.
abbrev pub IsOwnState : Option TuyaDeviceConfig → Option LightState → Type 0
IsOwnState d none = Unit
IsOwnState none (some state) = ⊥
IsOwnState (some d) (some state) = state.device_id ≡ d.device_id

-- Every future in a table of requests, and every one that is done, is below the next one.
abbrev pub ArePending : ℕ → Dict ℕ ℕ → Type 0
ArePending n [] = Unit
ArePending n ((sequence, future) ∷ pending) = (future < n) × ArePending n pending

abbrev pub AreDone : ℕ → Dict ℕ (Result TuyaFrame) → Type 0
AreDone n [] = Unit
AreDone n ((future, outcome) ∷ futures) = (future < n) × AreDone n futures

pub AreDone-put :
    (n : ℕ) (futures : Dict ℕ (Result TuyaFrame)) (k : ℕ) (r : Result TuyaFrame)
    → k < n
    → AreDone n futures
    → AreDone n (put futures k r)
AreDone-put n [] k r h all = (h, tt)
AreDone-put n ((j, w) ∷ futures) k r h all = ground (arith, AreDone-put n futures k r h all.1)

pub AreDone-settle :
    (n future : ℕ) (outcome : Result TuyaFrame) (futures : Dict ℕ (Result TuyaFrame))
    → future < n
    → AreDone n futures
    → AreDone n (settle future outcome futures)
AreDone-settle n future outcome futures h all = ground (arith, AreDone-put n futures future outcome)

pub AreDone-settle_all :
    (n : ℕ) (pending : Dict ℕ ℕ) (e : Exc) (futures : Dict ℕ (Result TuyaFrame))
    → ArePending n pending
    → AreDone n futures
    → AreDone n (settle_all pending e futures)
unfolding settle_all
AreDone-settle_all n [] e futures below all = all
AreDone-settle_all n ((sequence, future) ∷ pending) e futures below all =
    AreDone-settle_all n pending e (settle future (err e) futures) below.1
      (AreDone-settle n future (err e) futures below.0 all)

pub AreDone-suc :
    (n : ℕ) (futures : Dict ℕ (Result TuyaFrame)) → AreDone n futures → AreDone (suc n) futures
AreDone-suc n [] all = tt
AreDone-suc n ((k, r) ∷ futures) all = (omega arith, AreDone-suc n futures all.1)

pub ArePending-suc :
    (n : ℕ) (pending : Dict ℕ ℕ) → ArePending n pending → ArePending (suc n) pending
ArePending-suc n [] all = tt
ArePending-suc n ((k, future) ∷ pending) all = (omega arith, ArePending-suc n pending all.1)

pub ArePending-put :
    (n : ℕ) (pending : Dict ℕ ℕ) (k future : ℕ)
    → future < n
    → ArePending n pending
    → ArePending n (put pending k future)
ArePending-put n [] k future h all = (h, tt)
ArePending-put n ((j, w) ∷ pending) k future h all =
    ground (arith, ArePending-put n pending k future h all.1)

pub ArePending-remove :
    (n : ℕ) (pending : Dict ℕ ℕ) (k : ℕ) → ArePending n pending → ArePending n (remove pending k)
ArePending-remove n [] k all = tt
ArePending-remove n ((j, w) ∷ pending) k all = ground (arith, ArePending-remove n pending k all.1)

pub ArePending-get :
    (n : ℕ) (pending : Dict ℕ ℕ) (k : ℕ) {future : ℕ}
    → ArePending n pending
    → get pending k ≡ some future
    → future < n
ArePending-get n [] k all h = cc
ArePending-get n ((j, w) ∷ pending) k {future} all h =
    ground (arith, ArePending-get n pending k {future = future} all.1)

-- What only `pair`, `discover` and the load of the pairing state change.
pub record Owner : Type 0 where
  pub device : Option TuyaDeviceConfig
  pub light : Option String
  pub discovered : Dict String Found
  pub options : TuyaDiscoveryOptions
  pub pairing : Option TuyaPairingConfig
  pub has_state_path : Bool
  pub state_file : StateFile

abbrev pub owner : TuyaLocalDriver → Owner
owner s = record {
  device = s.device;
  light = s.paired_light_id;
  discovered = s.discovered;
  options = s.discovery_options;
  pairing = s.pairing;
  has_state_path = s.has_state_path;
  state_file = s.state_file;
}

-- A driver of this owner that has made `n` futures at least. Its sequence number is one of 32 bits, its state
-- is of its device, and the numbers of its futures are below the next one.
pub record Links (o : Owner) (n : ℕ) (s : TuyaLocalDriver) : Type 0 where
  pub same : owner s ≡ o
  pub word : s.sequence < 2 ^ 32
  pub counted : n ≤ s.made
  pub own_state : IsOwnState o.device s.state
  pub fresh_pending : ArePending s.made s.pending
  pub fresh_futures : AreDone s.made s.futures

module _ {o : Owner} {n : ℕ} where
  module _ {A : Type 0} where
    pub Keeps-outside : (f : ℕ → A) → Keeps (Links o n) (outside f)
    Keeps-outside f = record { after = λ s h. ground arith }

    pub Keeps-outside_call : (f : ℕ → Result A) → Keeps (Links o n) (outside_call f)
    Keeps-outside_call f = record { after = λ s h. ground arith }

  Keeps-record_sent : (f : List ℕ) → Keeps (Links o n) (modify (record_sent f))
  Keeps-record_sent f = record { after = λ s h. ground arith }

  pub Keeps-write : (out : Outside) (f : List ℕ) → Keeps (Links o n) (write out f)
  unfolding write
  Keeps-write out f = search (keeps_rules, Keeps-record_sent, Keeps-outside_call)

  pub Keeps-next_sequence : Keeps (Links o n) next_sequence
  unfolding next_sequence
  Keeps-next_sequence = record { after = λ s h. ground arith }

  pub Keeps-device : Keeps (Links o n) device
  unfolding device
  Keeps-device = record { after = λ s h. h }

  pub Returned-device : (c : TuyaDeviceConfig) → Returned (Links o n) device c → o.device ≡ some c
  unfolding device
  Returned-device c (s, h, e) = ground arith
