-- ===== src/Tuya/Local/Pairing/Restart.antt =====
-- A driver that starts again with the file of a pairing.
use linker.Prelude.{
  String, true, Option, none, some, ◌≡◌, sym, ap, ◌∙◌, inl, inr, string_Eq, if◌then◌else◌, arith,
}
use linker.Python.Exc.{Exc, Result, ok, err, is_value_error, reraise, >>=-eq-ok}
use linker.Python.Action.{then_call, modify}
use linker.Python.Exc
use linker.Python.Exc.Returns.{Returns, returns_rules}
use linker.Models.Descriptor.{DeviceDescriptor}
use linker.Python.Dict.{get}
use linker.Tuya.Config.{TuyaDeviceConfig, TuyaPairingConfig, new_device}
use linker.Tuya.Discovery.{Found}
use linker.Tuya.Local.{Outside, json, TuyaLocalDriver, candidate_id, blank}
use linker.Tuya.Local.Pairing.{
  found_item, profile_of, paired_device, chosen_device, checked_device, stored_device, saved_state,
  load_pairing_state, load_file, invalid_state, restore, new_driver, pair, is_one,
}
use linker.Tuya.Local.Closing.{ClosesQuietly}
use linker.Tuya.Local.Pairing.Outcome.{IsPairOutcome, pair-IsPairOutcome}
use linker.Tuya.Local.Events.Valid.{IsValid, AreCandidates, chosen_device-IsPaired}
use linker.Tuya.Local.Invariant.{Owner}

Returns-new_device :
    (out : Outside) (c : TuyaDeviceConfig)
    → Returns (λ (d : TuyaDeviceConfig). d ≡ c) (new_device out.ip_address c)
unfolding new_device
Returns-new_device out c = search returns_rules depth 16

module _ (out : Outside) (profile : TuyaPairingConfig) where
  -- The device is what its own address and id give.
  abbrev IsOfProfile : TuyaDeviceConfig → Type 0
  IsOfProfile d = paired_device out profile d.ip d.device_id ≡ ok d

  paired_device-IsOfProfile :
      (ip device_id : String) (d : TuyaDeviceConfig)
      → paired_device out profile ip device_id ≡ ok d
      → IsOfProfile d
  unfolding paired_device
  paired_device-IsOfProfile ip device_id d h =
      let same = (Returns-new_device out _).at d h in
      ap (λ i. paired_device out profile i d.device_id) (ap (λ d. d.ip) same)
      ∙ ap (paired_device out profile ip) (ap (λ d. d.device_id) same)
      ∙ h

  stored_device-saved_state :
      (candidate : String) (d : TuyaDeviceConfig)
      → IsOfProfile d
      → candidate ≡ candidate_id out d.device_id
      → stored_device out profile (saved_state candidate d) ≡ ok (d, candidate)
  unfolding stored_device saved_state checked_device is_one
  stored_device-saved_state candidate d own same =
      ground (arith, own, same, string_Eq.beq_iff candidate (candidate_id out d.device_id))

  chosen_device-IsOfProfile :
      (s : TuyaLocalDriver) (candidate : String) (d : TuyaDeviceConfig)
      → s.pairing ≡ some profile
      → chosen_device out candidate s ≡ ok d
      → IsOfProfile d
  unfolding chosen_device
  chosen_device-IsOfProfile s candidate d own h =
      let with_profile = λ (item : Found).
        Exc.◌>>=◌ (profile_of s.pairing) λ p. paired_device out p item.ip item.id in
      let (item, found, rest) =
        >>=-eq-ok (found_item (get s.discovered candidate)) with_profile h in
      let configured = λ (o : Option TuyaPairingConfig).
        Exc.◌>>=◌ (profile_of o) λ p. paired_device out p item.ip item.id in
      paired_device-IsOfProfile item.ip item.id d (sym (ap configured own) ∙ rest)

  load_file-restores :
      (s : TuyaLocalDriver) (candidate : String) (d : TuyaDeviceConfig)
      → IsOfProfile d
      → candidate ≡ candidate_id out d.device_id
      → load_file out profile (json (saved_state candidate d)) s ≡ (ok tt, restore (d, candidate) s)
  unfolding load_file
  load_file-restores s candidate d own same =
      let loaded : Result (TuyaDeviceConfig × String) → Result (Unit {0}) × TuyaLocalDriver = λ r.
        then_call (λ stored. modify (restore stored)) (reraise is_value_error invalid_state r, s) in
      ap loaded (stored_device-saved_state candidate d own same)

  restart-outcome :
      (candidate : String) (s : TuyaLocalDriver)
      (r : Result (DeviceDescriptor × String) × TuyaLocalDriver) (x : DeviceDescriptor × String)
      → IsPairOutcome out candidate s r
      → AreCandidates out s.discovered
      → s.has_state_path ≡ true
      → s.pairing ≡ some profile
      → r.0 ≡ ok x
      → (u : TuyaLocalDriver) × (new_driver out none r.1.discovery_options
            (some profile)
            true
            r.1.state_file
          ≡ (ok tt, u))
        × (u.device ≡ r.1.device)
        × (u.paired_light_id ≡ r.1.paired_light_id)
  unfolding new_driver load_pairing_state blank
  restart-outcome candidate s r x (inl (e, raised, h)) all path own returned = cc
  restart-outcome candidate s r x (inr (d, chosen, result, h)) all path own returned =
      let t = r.1 in
      let started = blank none t.discovery_options (some profile) true t.state_file in
      let kept : t.state_file ≡ json (saved_state candidate d) =
        ap (λ (o : Owner). o.state_file) h.same
        ∙ ap (λ b. if b then json (saved_state candidate d) else s.state_file) path in
      (
        restore (d, candidate) started,
        ap (λ file. load_file out profile file started) kept
            ∙ load_file-restores started candidate d
                (chosen_device-IsOfProfile s candidate d own chosen)
                (chosen_device-IsPaired out s candidate d all chosen),
        sym (ap (λ (o : Owner). o.device) h.same),
        sym (ap (λ (o : Owner). o.light) h.same),
      )

  -- If closing a connection never raises: when `pair` returns, a driver that is then constructed with the
  -- same pairing profile on the file that `pair` left, and without a device, has the same device and the same
  -- light id. The driver that paired is a valid one with a state path and this profile.
  pub pair-new_driver :
      (candidate : String) (s : TuyaLocalDriver) (x : DeviceDescriptor × String)
      → ClosesQuietly out
      → IsValid out s
      → s.has_state_path ≡ true
      → s.pairing ≡ some profile
      → (pair out candidate s).0 ≡ ok x
      → let t = (pair out candidate s).1 in
        (u : TuyaLocalDriver) × (new_driver out none t.discovery_options
            (some profile)
            true
            t.state_file
          ≡ (ok tt, u))
        × (u.device ≡ t.device)
        × (u.paired_light_id ≡ t.paired_light_id)
  pair-new_driver candidate s x quiet v path own returned =
      restart-outcome candidate s (pair out candidate s) x
        (pair-IsPairOutcome out candidate s quiet v.links) v.candidates path own returned
