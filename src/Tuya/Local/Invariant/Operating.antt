-- ===== src/Tuya/Local/Invariant/Operating.antt =====
-- Polling, the light's operations and the subscriptions keep the links of a TuyaLocalDriver.
use linker.Prelude.{ℕ, String, Option, some, List, ◌≡◌, sym, subst, ℤ, nat_Eq, string_Eq, arith}
use linker.Python.Exc.{ok-injective}
use linker.Python.Action.{
  Keeps, Keeps-bind, Keeps-Returned, Returned, >>=-eq-ok, Yields, Yields-bind, Yields-yielded,
  modify, ◌>>=◌, keeps_rules,
}
use linker.Models.Rgb.{Rgb}
use linker.Models.Light.{LightState}
use linker.Tuya.Config.{TuyaDeviceConfig}
use linker.Tuya.Dps.{Dps}
use linker.Tuya.Local.{Outside, outside, device, mapping_of, white_dp, check_device}
use linker.Tuya.Local.Reader.{mapped_state}
use linker.Tuya.Local.Exchange.{exchange}
use linker.Tuya.Local.Polling.{
  query_command, query_body, control_command, control_body, read_dps, set_state, poll_state,
  poll_device, inspect_dps, set_values, turn_on, turn_off, set_brightness, set_rgb, set_white,
  add_callback, subscribe_state, unsubscribe,
}
use linker.Tuya.Local.Invariant.{
  Owner, Links, IsOwnState, Keeps-outside, Keeps-device, Returned-device,
}
use linker.Tuya.Local.Invariant.Reading.{Keeps-mapped_state}
use linker.Tuya.Local.Invariant.Stating.{IsOf, Yields-mapped_state}
use linker.Tuya.Local.Invariant.Exchanging.{Keeps-exchange}

module _ {o : Owner} {n : ℕ} where
  pub Keeps-check_device : (device_id : String) → Keeps (Links o n) (check_device device_id)
  unfolding check_device
  Keeps-check_device device_id = search (keeps_rules, Keeps-device)

  Keeps-mapping_of : Keeps (Links o n) mapping_of
  unfolding mapping_of
  Keeps-mapping_of = search (keeps_rules, Keeps-device)

  Keeps-white_dp : Keeps (Links o n) white_dp
  unfolding white_dp
  Keeps-white_dp = search (keeps_rules, Keeps-mapping_of) depth 10

  Keeps-set_dps : (new : Dps) → Keeps (Links o n) (modify λ s. record s { raw_dps = new })
  Keeps-set_dps new = record { after = λ s h. ground arith }

  Keeps-read_dps : (out : Outside) (payload : List ℕ) → Keeps (Links o n) (read_dps out payload)
  unfolding read_dps
  Keeps-read_dps out payload = search (keeps_rules, Keeps-set_dps) depth 10

  Keeps-set_state :
      (c : TuyaDeviceConfig) (state : LightState)
      → o.device ≡ some c
      → state.device_id ≡ c.device_id
      → Keeps (Links o n) (set_state state)
  Keeps-set_state c state same own =
      let owned : IsOwnState o.device (some state) =
        subst (λ d. IsOwnState d (some state)) (sym same) own in
      record { after = λ s h. ground arith }

  Keeps-poll_device :
      (out : Outside) (c : TuyaDeviceConfig)
      → o.device ≡ some c
      → Keeps (Links o n) (poll_device out c)
  unfolding poll_device
  Keeps-poll_device out c same = Keeps-bind mapping_of _ Keeps-mapping_of λ m.
      Keeps-bind (exchange out (query_command c) (out.dumps (query_body c m))) _
        (Keeps-exchange out (query_command c) (out.dumps (query_body c m)))
        λ payload. Keeps-bind (read_dps out payload) _ (Keeps-read_dps out payload) λ dps.
          Keeps-Returned (mapped_state out c m) set_state (Keeps-mapped_state out c m)
            λ state (s, h, e).
              Keeps-set_state c state same ((Yields-mapped_state out c m).at s state e)

  pub Keeps-poll_state :
      (out : Outside) (device_id : String) → Keeps (Links o n) (poll_state out device_id)
  unfolding poll_state
  Keeps-poll_state out device_id =
      Keeps-bind (check_device device_id) _ (Keeps-check_device device_id) λ u.
        Keeps-Returned device (poll_device out) Keeps-device
          λ c r. Keeps-poll_device out c (Returned-device c r)

Yields-set_state :
    (c : TuyaDeviceConfig) (state : LightState)
    → IsOf c.device_id state
    → Yields (IsOf c.device_id) (set_state state)
Yields-set_state c state own = record {
  at = λ s a e. subst (IsOf c.device_id) (ok-injective e) own;
}

Yields-poll_device :
    (out : Outside) (c : TuyaDeviceConfig) → Yields (IsOf c.device_id) (poll_device out c)
unfolding poll_device
Yields-poll_device out c = Yields-bind mapping_of _ λ m.
    Yields-bind (exchange out (query_command c) (out.dumps (query_body c m))) _ λ payload.
      Yields-bind (read_dps out payload) _ λ dps.
        Yields-yielded (mapped_state out c m) set_state (Yields-mapped_state out c m)
          (Yields-set_state c)

module _ {o : Owner} {n : ℕ} where
  Returned-poll_state :
      (out : Outside) (device_id : String) (state : LightState)
      → Returned (Links o n) (poll_state out device_id) state
      → (c : TuyaDeviceConfig) × (o.device ≡ some c) × IsOf c.device_id state
  unfolding poll_state
  Returned-poll_state out device_id state (s, h, e) =
      let (u, checked, rest) =
        >>=-eq-ok (check_device device_id) (λ _. device >>= poll_device out) s e in
      let t = (check_device device_id s).1 in
      let (c, found, polled) = >>=-eq-ok device (poll_device out) t rest in
      (
        c,
        Returned-device c (t, (Keeps-check_device device_id).after s h, found),
        (Yields-poll_device out c).at (device t).1 state polled,
      )

  Keeps-set_polled :
      (state : LightState)
      → (c : TuyaDeviceConfig) × (o.device ≡ some c) × IsOf c.device_id state
      → Keeps (Links o n) (set_state state)
  Keeps-set_polled state (c, same, own) = Keeps-set_state c state same own

  pub Keeps-set_values : (out : Outside) (values : Dps) → Keeps (Links o n) (set_values out values)
  unfolding set_values
  Keeps-set_values out values = Keeps-bind device _ Keeps-device λ c.
      Keeps-bind (outside out.now) _ (Keeps-outside out.now) λ now.
        Keeps-bind (exchange out (control_command c) (out.dumps (control_body c now values))) _
          (Keeps-exchange out (control_command c) (out.dumps (control_body c now values)))
          λ answer.
            Keeps-Returned (poll_state out c.device_id) set_state (Keeps-poll_state out c.device_id)
              λ state r. Keeps-set_polled state (Returned-poll_state out c.device_id state r)

  pub Keeps-inspect_dps : (out : Outside) → Keeps (Links o n) (inspect_dps out)
  unfolding inspect_dps
  Keeps-inspect_dps out =
      search (keeps_rules, Keeps-device, Keeps-outside, Keeps-exchange, Keeps-read_dps) depth 14

  pub Keeps-turn_on :
      (out : Outside) (device_id : String) (rgb : Option Rgb) (brightness white : Option ℤ)
      → Keeps (Links o n) (turn_on out device_id rgb brightness white)
  unfolding turn_on
  Keeps-turn_on out device_id rgb brightness white =
      search (keeps_rules, Keeps-check_device, Keeps-mapping_of, Keeps-set_values) depth 14

  pub Keeps-turn_off :
      (out : Outside) (device_id : String) → Keeps (Links o n) (turn_off out device_id)
  unfolding turn_off
  Keeps-turn_off out device_id =
      search (keeps_rules, Keeps-check_device, Keeps-mapping_of, Keeps-set_values) depth 14

  pub Keeps-set_brightness :
      (out : Outside) (device_id : String) (brightness : ℤ)
      → Keeps (Links o n) (set_brightness out device_id brightness)
  unfolding set_brightness
  Keeps-set_brightness out device_id brightness =
      search (keeps_rules, Keeps-check_device, Keeps-mapping_of, Keeps-set_values) depth 14

  pub Keeps-set_rgb :
      (out : Outside) (device_id : String) (rgb : Rgb)
      → Keeps (Links o n) (set_rgb out device_id rgb)
  unfolding set_rgb
  Keeps-set_rgb out device_id rgb =
      search (keeps_rules, Keeps-check_device, Keeps-mapping_of, Keeps-set_values) depth 14

  pub Keeps-set_white :
      (out : Outside) (device_id : String) (white : ℤ)
      → Keeps (Links o n) (set_white out device_id white)
  unfolding set_white
  Keeps-set_white out device_id white =
      search (keeps_rules, Keeps-check_device, Keeps-mapping_of, Keeps-white_dp, Keeps-set_values)
        depth 14

  Keeps-add_callback :
      (device_id : String) (callback : ℕ)
      → Keeps (Links o n) (modify (add_callback device_id callback))
  Keeps-add_callback device_id callback = record { after = λ s h. ground arith }

  pub Keeps-subscribe_state :
      (device_id : String) (callback : ℕ) → Keeps (Links o n) (subscribe_state device_id callback)
  unfolding subscribe_state
  Keeps-subscribe_state device_id callback =
      search (keeps_rules, Keeps-check_device, Keeps-add_callback)

  pub Keeps-unsubscribe : (list callback : ℕ) → Keeps (Links o n) (unsubscribe list callback)
  unfolding unsubscribe
  Keeps-unsubscribe list callback = record { after = λ s h. ground arith }
