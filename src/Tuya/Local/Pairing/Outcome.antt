-- ===== src/Tuya/Local/Pairing/Outcome.antt =====
-- How `pair` ends: with the pairing in the driver and in its file, or with neither changed.
use linker.Tuya.Local.Closing.{ClosesQuietly, after_disconnect}
use linker.Prelude.{ℕ, String, false, some, ◌≡◌, refl, sym, ap, ◌∙◌, ◌⊎◌, inl, inr, subst, arith}
use linker.Python.Exc.{Exc, Result, ok, err, value_error, ok-injective}
use linker.Python.Exc
use linker.Python.Action.{
  Keeps, then_call, clean_up, pure, lift, modify, raise, ◌>>=◌, ◌>>◌, keeps_rules,
}
use linker.Models.Light.{LightState}
use linker.Models.Identifier.{is_identifier}
use linker.Models.Descriptor
use linker.Models.Descriptor.{DeviceDescriptor}
use linker.Tuya.Config.{TuyaDeviceConfig}
use linker.Tuya.Local.{Outside, TuyaLocalDriver, device, no_device, required, disconnect}
use linker.Tuya.Local.Polling.{descriptor, device_descriptor, with_id}
use linker.Tuya.Local.Pairing.{
  start_pairing, roll_back, reach_device, keep_pairing, confirm_pairing, chosen_device, described,
  pair_device, pair,
}
use linker.Tuya.Local.Pairing.RollBack.{with_device, with_pairing, IsKept, keep_pairing-IsKept}
use linker.Tuya.Local.Invariant.{Owner, owner, Links}
use linker.Tuya.Local.Invariant.Connecting.{Keeps-connect, Keeps-disconnect}
use linker.Tuya.Local.Invariant.Operating.{Keeps-poll_state}

then_call-lift :
    {A B : Type 0} (r : Result A) (f : A → Result B) (t : TuyaLocalDriver)
    → then_call (λ a. lift (f a)) (r, t) ≡ (Exc.◌>>=◌ r f, t)
then_call-lift (ok a) f t = refl
then_call-lift (err e) f t = refl

Keeps-reach_device :
    {o : Owner} {n : ℕ} (out : Outside) (d : TuyaDeviceConfig)
    → Keeps (Links o n) (reach_device out d)
unfolding reach_device
Keeps-reach_device out d = search (keeps_rules, Keeps-connect, Keeps-poll_state)

IsKept-reached :
    (out : Outside) (o : Owner) (candidate : String) (d : TuyaDeviceConfig)
    (r : Result LightState × TuyaLocalDriver)
    → Links (with_device d o) 0 r.1
    → IsKept
        (with_device d o)
        candidate
        d
        (then_call (λ state. keep_pairing out o.device d candidate) r)
IsKept-reached out o candidate d (err e, t) h = h
IsKept-reached out o candidate d (ok state, t) h =
    keep_pairing-IsKept out (with_device d o) o.device candidate d t refl h

Links-roll_back :
    (o : Owner) (d : TuyaDeviceConfig) (t : TuyaLocalDriver)
    → Links (with_device d o) 0 t
    → Links o 0 (roll_back o.device o.light t)
Links-roll_back o d t h = record {
  same = ground (arith, h.same);
  word = h.word;
  counted = h.counted;
  own_state = tt;
  fresh_pending = h.fresh_pending;
  fresh_futures = h.fresh_futures;
}

-- With the handler: what is not kept is as it was.
IsKept-cleaned :
    (out : Outside) (o : Owner) (candidate : String) (d : TuyaDeviceConfig)
    (r : Result (Unit {0}) × TuyaLocalDriver)
    → ClosesQuietly out
    → IsKept (with_device d o) candidate d r
    → IsKept o candidate d (clean_up (disconnect out >> modify (roll_back o.device o.light)) r)
IsKept-cleaned out o candidate d (ok u, t) quiet h = h
IsKept-cleaned out o candidate d (err e, t) quiet h =
    let t' = (disconnect out t).1 in
    subst (IsKept o candidate d)
      (sym (
        ap (then_call λ _. raise e)
          (after_disconnect out t (modify (roll_back o.device o.light)) quiet)))
      (Links-roll_back o d t' ((Keeps-disconnect out).after t h))

confirm_pairing-IsKept :
    (out : Outside) (o : Owner) (candidate : String) (d : TuyaDeviceConfig) (s : TuyaLocalDriver)
    → ClosesQuietly out
    → Links (with_device d o) 0 s
    → IsKept o candidate d (confirm_pairing out o.device o.light d candidate s)
unfolding confirm_pairing
confirm_pairing-IsKept out o candidate d s quiet h =
    IsKept-cleaned out o candidate d
      (then_call (λ state. keep_pairing out o.device d candidate) (reach_device out d s)) quiet
      (IsKept-reached out o candidate d (reach_device out d s)
        ((Keeps-reach_device out d).after s h))

-- What `pair` returns or raises when the pairing is kept.
abbrev pub pair_result : String → TuyaDeviceConfig → Result (DeviceDescriptor × String)
pair_result candidate d =
    Exc.◌>>=◌ (device_descriptor d d.device_id) λ described.
      Exc.◌>>=◌ (with_id described (some candidate)) λ renamed. ok (renamed, d.device_id)

bind_assoc :
    {A B C : Type 0} (r : Result A) (f : A → Result B) (g : B → Result C)
    → Exc.◌>>=◌ (Exc.◌>>=◌ r f) g ≡ Exc.◌>>=◌ r λ a. Exc.◌>>=◌ (f a) g
bind_assoc (ok a) f g = refl
bind_assoc (err e) f g = refl

abbrev described_by :
    String
    → TuyaDeviceConfig
    → Result TuyaDeviceConfig × TuyaLocalDriver
    → Result (DeviceDescriptor × String) × TuyaLocalDriver
described_by candidate d r =
    then_call (λ x. pure (x, d.device_id))
      (then_call
        (λ c. lift (device_descriptor c c.device_id) >>= λ x. lift (with_id x (some candidate))) r)

described-result :
    (candidate : String) (d : TuyaDeviceConfig) (t : TuyaLocalDriver)
    → t.device ≡ some d
    → described candidate d t ≡ (pair_result candidate d, t)
unfolding described descriptor device
described-result candidate d t own =
    let renamed = λ (x : DeviceDescriptor). with_id x (some candidate) in
    let found = device_descriptor d d.device_id in
    let returned : DeviceDescriptor → Result (DeviceDescriptor × String) =
      λ x. ok (x, d.device_id) in
    ap (λ o. described_by candidate d (required o no_device, t)) own
    ∙ ap (then_call λ x. lift (returned x)) (then_call-lift found renamed t)
    ∙ then_call-lift (Exc.◌>>=◌ found renamed) returned t
    ∙ ap (λ r. (r, t)) (bind_assoc found renamed returned)

-- `pair` raises and changes nothing that it owns, or the pairing is kept.
abbrev pub IsPairOutcome :
    Outside
    → String
    → TuyaLocalDriver
    → Result (DeviceDescriptor × String) × TuyaLocalDriver
    → Type 0
IsPairOutcome out candidate s r =
    ((e : Exc) × (r.0 ≡ err e) × Links (owner s) 0 r.1)
    ⊎ ((d : TuyaDeviceConfig) × (chosen_device out candidate s ≡ ok d)
        × (r.0 ≡ pair_result candidate d)
        × Links (with_pairing candidate d (owner s)) 0 r.1)

module _ (out : Outside) (candidate : String) (s : TuyaLocalDriver) where
  confirmed-outcome :
      (d : TuyaDeviceConfig) (r : Result (Unit {0}) × TuyaLocalDriver)
      → chosen_device out candidate s ≡ ok d
      → IsKept (owner s) candidate d r
      → IsPairOutcome out candidate s (then_call (λ _. described candidate d) r)
  confirmed-outcome d (err e, t) chosen h = inl (e, refl, h)
  confirmed-outcome d (ok u, t) chosen h =
      let same = described-result candidate d t (ap (λ o. o.device) h.same) in
      inr (
        d,
        chosen,
        ap (λ r. r.0) same,
        subst (Links (with_pairing candidate d (owner s)) 0) (sym (ap (λ r. r.1) same)) h,
      )

  Links-start_pairing :
      (d : TuyaDeviceConfig) (t : TuyaLocalDriver)
      → Links (owner s) 0 t
      → Links (with_device d (owner s)) 0 (start_pairing d t)
  Links-start_pairing d t h = record {
    same = ground (arith, h.same);
    word = h.word;
    counted = h.counted;
    own_state = tt;
    fresh_pending = h.fresh_pending;
    fresh_futures = h.fresh_futures;
  }

  pair_device-outcome :
      (d : TuyaDeviceConfig)
      → ClosesQuietly out
      → chosen_device out candidate s ≡ ok d
      → Links (owner s) 0 s
      → IsPairOutcome out candidate s (pair_device out s.device s.paired_light_id candidate d s)
  unfolding pair_device
  pair_device-outcome d quiet chosen h =
      let t = (disconnect out s).1 in
      let started = start_pairing d t in
      let rest =
        modify (start_pairing d)
        >> (confirm_pairing out s.device s.paired_light_id d candidate >> described candidate d) in
      subst (IsPairOutcome out candidate s) (sym (after_disconnect out s rest quiet)) (
        confirmed-outcome d (confirm_pairing out s.device s.paired_light_id d candidate started)
          chosen
          (confirm_pairing-IsKept out (owner s) candidate d started quiet
            (Links-start_pairing d t ((Keeps-disconnect out).after s h))))

  chosen-outcome :
      (r : Result TuyaDeviceConfig)
      → ClosesQuietly out
      → chosen_device out candidate s ≡ r
      → Links (owner s) 0 s
      → IsPairOutcome out candidate s
          (then_call (pair_device out s.device s.paired_light_id candidate) (r, s))
  chosen-outcome (err e) quiet chosen h = inl (e, refl, h)
  chosen-outcome (ok d) quiet chosen h = pair_device-outcome d quiet chosen h

  -- If closing a connection never raises, `pair` of a driver in a valid state ends in one of two ways. It
  -- raises, and its device, its light id, its pairing file and all else that only a pairing changes are what
  -- they were before. Or all of these are the new pairing's, and what it returns or raises then is decided
  -- by the descriptor of the new device alone.
  pub pair-IsPairOutcome :
      ClosesQuietly out → Links (owner s) 0 s → IsPairOutcome out candidate s (pair out candidate s)
  unfolding pair
  pair-IsPairOutcome quiet h = chosen-outcome (chosen_device out candidate s) quiet refl h

  unnamed-outcome :
      (d : TuyaDeviceConfig) (r : Result (DeviceDescriptor × String) × TuyaLocalDriver)
      → IsPairOutcome out candidate s r
      → chosen_device out candidate s ≡ ok d
      → is_identifier d.device_id ≡ false
      → (e : Exc) × (r.0 ≡ err e)
  unfolding device_descriptor Descriptor.new
  unnamed-outcome d r (inl (e, raised, h)) chosen unnamed = (e, raised)
  unnamed-outcome d r (inr (c, also, result, h)) chosen unnamed =
      let same : c ≡ d = ok-injective (sym also ∙ chosen) in
      let wrong : is_identifier c.device_id ≡ false =
        ap (λ (d : TuyaDeviceConfig). is_identifier d.device_id) same ∙ unnamed in
      (
        value_error "light id must be a lowercase OpenHDO identifier",
        result ∙ ground (arith, wrong),
      )

  -- If closing a connection never raises: `pair` raises for every candidate whose Tuya device id is no
  -- lowercase identifier, also where the device has answered and the pairing is kept.
  pub pair-unnamed :
      (d : TuyaDeviceConfig)
      → ClosesQuietly out
      → Links (owner s) 0 s
      → chosen_device out candidate s ≡ ok d
      → is_identifier d.device_id ≡ false
      → (e : Exc) × ((pair out candidate s).0 ≡ err e)
  pair-unnamed d quiet h = unnamed-outcome d (pair out candidate s) (pair-IsPairOutcome quiet h)
