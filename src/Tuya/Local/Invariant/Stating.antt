-- ===== src/Tuya/Local/Invariant/Stating.antt =====
-- The states that a TuyaLocalDriver makes are of its device.
use linker.Prelude.{ℕ, nat_Eq, String, Option, none, some, List, ◌≡◌, refl, ◌∙◌, arith}
use linker.Python.Exc.{Result, ok, err}
use linker.Python.Exc.Returns.{Returns, returns_rules}
use linker.Python.Action.{>>=-eq-ok, Yields, then_call, pure, ◌>>=◌}
use linker.Models.Light
use linker.Models.Light.{LightState}
use linker.Tuya.Config.{TuyaDeviceConfig}
use linker.Tuya.Dps.{state_from_dps, Dps}
use linker.Tuya.Mapping.{TuyaDpMapping}
use linker.Tuya.Mapping.Color.{Colorsys}
use linker.Tuya.Local.{Outside, TuyaLocalDriver, revisioned, tick}
use linker.Tuya.Local.Reader.{update_dps, mapped_state, drop_protocol_error, status_state}

abbrev pub IsOf : String → LightState → Type 0
IsOf device_id state = state.device_id ≡ device_id

-- What `state_from_dps` and `_revisioned` return is of the device.
Returns-new : (s : LightState) → Returns (IsOf s.device_id) (Light.new s)
unfolding Light.new
Returns-new s = record { at = λ t h. ground arith }

Returns-state_from_dps :
    (colorsys : Colorsys) (device_id : String) (dps : Dps) (m : TuyaDpMapping) (now : Option ℕ)
    → Returns (IsOf device_id) (state_from_dps colorsys device_id dps m now)
unfolding state_from_dps
Returns-state_from_dps colorsys device_id dps m now = search (returns_rules, Returns-new) depth 16

revisioned-IsOf :
    {device_id : String} (r : Result LightState) (s : TuyaLocalDriver) (state : LightState)
    → Returns (IsOf device_id) r
    → (then_call revisioned (r, s)).0 ≡ ok state
    → IsOf device_id state
unfolding revisioned
revisioned-IsOf (ok found) s state k e = (Returns-new _).at state e ∙ k.at found refl
revisioned-IsOf (err x) s state k e = cc

pub Yields-mapped_state :
    (out : Outside) (c : TuyaDeviceConfig) (m : TuyaDpMapping)
    → Yields (IsOf c.device_id) (mapped_state out c m)
unfolding mapped_state revisioned
Yields-mapped_state out c m = record {
  at = λ s state e.
      let found = state_from_dps out.colorsys c.device_id s.raw_dps m (some (out.now s.ticks)) in
      revisioned-IsOf found (tick s) state
        (Returns-state_from_dps out.colorsys c.device_id s.raw_dps m (some (out.now s.ticks))) e;
}

pub drop_protocol_error-eq-ok :
    (r : Result (Option LightState) × TuyaLocalDriver) {state : LightState}
    → (drop_protocol_error r).0 ≡ ok (some state)
    → r.0 ≡ ok (some state)
unfolding drop_protocol_error
drop_protocol_error-eq-ok (ok found, s) h = h
drop_protocol_error-eq-ok (err e, s) h = ground arith

pub status_state-IsOf :
    (out : Outside) (c : TuyaDeviceConfig) (payload : List ℕ) (m : Option TuyaDpMapping)
    (s : TuyaLocalDriver) (state : LightState)
    → (status_state out c payload m s).0 ≡ ok (some state)
    → state.device_id ≡ c.device_id
unfolding status_state
status_state-IsOf out c payload none s state e =
    let (u, first, rest) = >>=-eq-ok (update_dps out payload) (λ _. pure none) s e in cc
status_state-IsOf out c payload (some m) s state e =
    let rest = λ (_ : Unit {0}). mapped_state out c m >>= λ state. pure (some state) in
    let (u, first, after) = >>=-eq-ok (update_dps out payload) rest s e in
    let t = (update_dps out payload s).1 in
    let (found, mapped, same) =
      >>=-eq-ok (mapped_state out c m) (λ state. pure (some state)) t after in
    (Yields-mapped_state out c m).at t state cc
