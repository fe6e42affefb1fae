-- ===== src/Tuya/Local/Reader/Statuses.antt =====
-- A status report leaves the device, the session's key, the requests and their futures alone.
use linker.Prelude.{ℕ, Option, none, some, List, [], ◌∷◌, nat_Eq, arith}
use linker.Python.Exc.{Result, ok, err}
use linker.Python.Action.{Keeps, Keeps-pure, Keeps-bind, modify, keeps_rules}
use linker.Python.Dict.{Dict, update}
use linker.Models.Light.{LightState}
use linker.Tuya.Config.{TuyaDeviceConfig}
use linker.Tuya.Dps.{Dps}
use linker.Tuya.Frame.{TuyaFrame}
use linker.Tuya.Mapping.{TuyaDpMapping}
use linker.Tuya.Local.{Outside, TuyaLocalDriver, outside, device, revisioned}
use linker.Tuya.Local.Reader.{
  called, call_back, publish, publish_all, report_state, update_dps, mapped_state, status_state,
  drop_protocol_error, handle_status,
}

module _
    (Q : Option TuyaDeviceConfig
      → Option (List ℕ)
      → Dict ℕ ℕ
      → Dict ℕ (Result TuyaFrame)
      → Type 0) where
  -- What is said of the device, the session's key and the requests alone.
  abbrev pub OfRequests : TuyaLocalDriver → Type 0
  OfRequests s = Q s.device s.session_key s.pending s.futures

  pub Keeps-outside : {A : Type 0} (f : ℕ → A) → Keeps OfRequests (outside f)
  Keeps-outside f = record { after = λ s h. h }

  pub Keeps-device : Keeps OfRequests device
  unfolding device
  Keeps-device = record { after = λ s h. h }

  Keeps-revisioned : (state : LightState) → Keeps OfRequests (revisioned state)
  unfolding revisioned
  Keeps-revisioned state = record { after = λ s h. h }

  Keeps-set_dps :
      (new : Dps) → Keeps OfRequests (modify λ s. record s { raw_dps = update s.raw_dps new })
  Keeps-set_dps new = record { after = λ s h. h }

  Keeps-update_dps : (out : Outside) (payload : List ℕ) → Keeps OfRequests (update_dps out payload)
  unfolding update_dps
  Keeps-update_dps out payload = search (keeps_rules, Keeps-set_dps)

  Keeps-mapped_state :
      (out : Outside) (c : TuyaDeviceConfig) (m : TuyaDpMapping)
      → Keeps OfRequests (mapped_state out c m)
  unfolding mapped_state
  Keeps-mapped_state out c m = search (keeps_rules, Keeps-outside, Keeps-revisioned) depth 14

  Keeps-status_state :
      (out : Outside) (c : TuyaDeviceConfig) (payload : List ℕ) (m : Option TuyaDpMapping)
      → Keeps OfRequests (status_state out c payload m)
  unfolding status_state
  Keeps-status_state out c payload none = search (keeps_rules, Keeps-update_dps)
  Keeps-status_state out c payload (some m) =
      search (keeps_rules, Keeps-update_dps, Keeps-mapped_state) depth 14

  kept_by_drop :
      (r : Result (Option LightState) × TuyaLocalDriver)
      → OfRequests r.1
      → OfRequests (drop_protocol_error r).1
  unfolding drop_protocol_error
  kept_by_drop (ok state, s) h = h
  kept_by_drop (err e, s) h = h

  Keeps-status :
      (out : Outside) (c : TuyaDeviceConfig) (payload : List ℕ)
      → Keeps OfRequests (λ t. drop_protocol_error (status_state out c payload c.dps t))
  Keeps-status out c payload = record {
    after = λ s h.
        kept_by_drop (status_state out c payload c.dps s)
          ((Keeps-status_state out c payload c.dps).after s h);
  }

  Keeps-called : (r : Result (Unit {0})) → Keeps OfRequests (called r)
  Keeps-called (ok u) = Keeps-pure tt
  Keeps-called (err e) = record { after = λ s h. ground (arith, h) }

  Keeps-call_back :
      (out : Outside) (state : LightState) (callback : ℕ)
      → Keeps OfRequests (call_back out state callback)
  unfolding call_back
  Keeps-call_back out state callback = search (keeps_rules, Keeps-outside, Keeps-called) depth 14

  Keeps-publish :
      (out : Outside) (state : LightState) (callbacks : List ℕ)
      → Keeps OfRequests (publish out state callbacks)
  unfolding publish
  Keeps-publish out state [] = Keeps-pure tt
  Keeps-publish out state (callback ∷ callbacks) =
      Keeps-bind (call_back out state callback) (λ _. publish out state callbacks)
        (Keeps-call_back out state callback) λ _. Keeps-publish out state callbacks

  Keeps-publish_all :
      (out : Outside) (c : TuyaDeviceConfig) (state : LightState)
      → Keeps OfRequests (publish_all out c state)
  unfolding publish_all
  Keeps-publish_all out c state = search (keeps_rules, Keeps-publish)

  Keeps-report_state :
      (out : Outside) (c : TuyaDeviceConfig) (found : Option LightState)
      → Keeps OfRequests (report_state out c found)
  unfolding report_state
  Keeps-report_state out c none = Keeps-pure tt
  Keeps-report_state out c (some state) = search (keeps_rules, Keeps-publish_all)

  -- `_handle_status` changes none of them.
  pub Keeps-handle_status :
      (out : Outside) (frame : TuyaFrame) → Keeps OfRequests (handle_status out frame)
  unfolding handle_status
  Keeps-handle_status out frame =
      search (keeps_rules, Keeps-device, Keeps-status, Keeps-report_state) depth 16
