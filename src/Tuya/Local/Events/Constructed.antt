-- ===== src/Tuya/Local/Events/Constructed.antt =====
-- A TuyaLocalDriver is valid when it is constructed, with a stored pairing or without one.
use linker.Prelude.{
  String, Bool, true, Option, none, some, ◌≡◌, refl, sym, ap, ◌∙◌, subst, string_Eq, str_eq, arith,
}
use linker.Python.Exc.{
  Exc, Result, ok, err, value_error, configuration_error, is_value_error, guard, reraise,
  ok-injective, >>=-eq-ok,
}
use linker.Python.Exc
use linker.Python.Exc.Returns.{Returns, Returns-err, Returns-reraise, returns_rules}
use linker.Python.Action.{then_call, modify}
use linker.Python.Value.{Value, obj}
use linker.Tuya.Config.{TuyaDeviceConfig, TuyaDiscoveryOptions, TuyaPairingConfig}
use linker.Tuya.Local.{
  Outside, StateFile, missing, unreadable, json, TuyaLocalDriver, candidate_id, blank,
}
use linker.Tuya.Local.Pairing.{
  restore, checked_device, paired_device, stored_device, load_pairing_state, load_file, new_driver,
}
use linker.Tuya.Local.Invariant.{IsOwnState}
use linker.Tuya.Local.Events.Valid.{IsValid, paired_device-device_id}

module _ (out : Outside) where
  pub IsValid-blank :
      (device : Option TuyaDeviceConfig) (options : TuyaDiscoveryOptions)
      (pairing : Option TuyaPairingConfig) (has_path : Bool) (file : StateFile)
      → IsValid out (blank device options pairing has_path file)
  unfolding blank
  IsValid-blank device options pairing has_path file = record {
    links = record {
      same = refl;
      word = omega arith;
      counted = omega arith;
      own_state = tt;
      fresh_pending = tt;
      fresh_futures = tt;
    };
    paired = tt;
    candidates = tt;
  }

  pub IsValid-restored :
      (s : TuyaLocalDriver) (d : TuyaDeviceConfig) (candidate : String)
      → s.state ≡ none
      → candidate ≡ candidate_id out d.device_id
      → IsValid out s
      → IsValid out (restore (d, candidate) s)
  IsValid-restored s d candidate fresh own v = record {
    links = record {
      same = refl;
      word = v.links.word;
      counted = v.links.counted;
      own_state = subst (IsOwnState (some d)) (sym fresh) tt;
      fresh_pending = v.links.fresh_pending;
      fresh_futures = v.links.fresh_futures;
    };
    paired = own;
    candidates = v.candidates;
  }

  pub checked_device-IsPaired :
      (profile : TuyaPairingConfig) (candidate device_id ip : String)
      → Returns
          (λ (p : TuyaDeviceConfig × String). p.1 ≡ candidate_id out p.0.device_id)
          (checked_device out profile candidate device_id ip)
  unfolding checked_device
  checked_device-IsPaired profile candidate device_id ip = record {
    at = λ p h.
        let built = λ (_ : Unit {0}).
          Exc.◌>>=◌ (paired_device out profile ip device_id) λ d. ok (d, candidate) in
        let (u, checked, rest) =
          >>=-eq-ok (guard (str_eq candidate (candidate_id out device_id)) (value_error "")) built
            h in
        let (d, made, same) =
          >>=-eq-ok (paired_device out profile ip device_id) (λ d. ok (d, candidate)) rest in
        let own = (paired_device-device_id out profile ip device_id).at d made in
        let equal : candidate ≡ candidate_id out device_id =
          ground (arith, checked, string_Eq.beq_iff candidate (candidate_id out device_id)) in
        subst (λ (p : TuyaDeviceConfig × String). p.1 ≡ candidate_id out p.0.device_id)
          (ok-injective same) (equal ∙ ap (candidate_id out) (sym own));
  }

  pub stored_device-IsPaired :
      (profile : TuyaPairingConfig) (v : Value)
      → Returns
          (λ (p : TuyaDeviceConfig × String). p.1 ≡ candidate_id out p.0.device_id)
          (stored_device out profile v)
  unfolding stored_device
  stored_device-IsPaired profile (obj fields) =
      search (returns_rules, checked_device-IsPaired) depth 16
  stored_device-IsPaired profile v = Returns-err (value_error "")

  pub IsValid-loaded :
      (s : TuyaLocalDriver) (r : Result (TuyaDeviceConfig × String))
      → s.state ≡ none
      → Returns (λ (p : TuyaDeviceConfig × String). p.1 ≡ candidate_id out p.0.device_id) r
      → IsValid out s
      → IsValid out (then_call (λ stored. modify (restore stored)) (r, s)).1
  IsValid-loaded s (ok (d, candidate)) fresh own v =
      IsValid-restored s d candidate fresh (own.at (d, candidate) refl) v
  IsValid-loaded s (err e) fresh own v = v

  pub new_driver-IsValid :
      (device : Option TuyaDeviceConfig) (options : TuyaDiscoveryOptions)
      (pairing : Option TuyaPairingConfig) (has_path : Bool) (file : StateFile)
      → IsValid out (new_driver out device options pairing has_path file).1
  unfolding new_driver load_pairing_state load_file blank
  new_driver-IsValid none options (some profile) true missing =
      IsValid-blank none options (some profile) true missing
  new_driver-IsValid none options (some profile) true unreadable =
      IsValid-blank none options (some profile) true unreadable
  new_driver-IsValid none options (some profile) true (json v) =
      let invalid = configuration_error "pairing state is invalid" in
      IsValid-loaded (blank none options (some profile) true (json v))
        (reraise is_value_error invalid (stored_device out profile v)) refl
        (Returns-reraise is_value_error invalid (stored_device out profile v)
          (stored_device-IsPaired profile v))
        (IsValid-blank none options (some profile) true (json v))
  new_driver-IsValid device options pairing has_path file =
      IsValid-blank device options pairing has_path file
