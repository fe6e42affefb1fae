-- ===== src/Tuya/Local/Events/Valid.antt =====
-- A valid TuyaLocalDriver, and the calls that leave it one.
use linker.Prelude.{
  String, Option, none, some, ◌≡◌, refl, sym, ap, ◌∙◌, subst, inl, inr, [], ◌∷◌, string_Eq, arith,
}
use linker.Python.Exc.{
  Exc, Result, ok, err, value_error, configuration_error, is_value_error, guard, reraise,
  ok-injective, >>=-eq-ok,
}
use linker.Python.Exc
use linker.Python.Exc.Returns.{Returns, returns_rules}
use linker.Python.Action.{Keeps}
use linker.Python.Dict.{Dict, get, put}
use linker.Models.Descriptor.{DeviceDescriptor}
use linker.Tuya.Config.{TuyaDeviceConfig, TuyaPairingConfig, new_device}
use linker.Tuya.Discovery.{Found}
use linker.Tuya.Local.{Outside, TuyaLocalDriver, Io, candidate_id}
use linker.Tuya.Local.Pairing.{found_item, profile_of, paired_device, chosen_device}
use linker.Tuya.Local.Pairing.Outcome.{IsPairOutcome}
use linker.Tuya.Local.Invariant.{Owner, owner, Links}

-- A light id that is paired is the opaque id of the device.
abbrev pub IsPaired : Outside → Option TuyaDeviceConfig → Option String → Type 0
IsPaired out d none = Unit
IsPaired out none (some light) = ⊥
IsPaired out (some d) (some light) = light ≡ candidate_id out d.device_id

-- Every device found stands under its opaque id.
abbrev pub AreCandidates : Outside → Dict String Found → Type 0
AreCandidates out [] = Unit
AreCandidates out ((candidate, item) ∷ found) =
    (candidate ≡ candidate_id out item.id) × AreCandidates out found

found_item-eq-ok : (o : Option Found) {item : Found} → found_item o ≡ ok item → o ≡ some item
found_item-eq-ok none h = cc
found_item-eq-ok (some item) h = ground arith

pub record IsValid (out : Outside) (s : TuyaLocalDriver) : Type 0 where
  pub links : Links (owner s) 0 s
  pub paired : IsPaired out s.device s.paired_light_id
  pub candidates : AreCandidates out s.discovered

module _ (out : Outside) where
  pub AreCandidates-put :
      (found : Dict String Found) (item : Found)
      → AreCandidates out found
      → AreCandidates out (put found (candidate_id out item.id) item)
  AreCandidates-put [] item all = (refl, tt)
  AreCandidates-put ((j, w) ∷ found) item all =
      ground
        (arith, AreCandidates-put found item all.1, string_Eq.beq_iff j (candidate_id out item.id))

  pub AreCandidates-get :
      (found : Dict String Found) (candidate : String) {item : Found}
      → AreCandidates out found
      → get found candidate ≡ some item
      → candidate ≡ candidate_id out item.id
  AreCandidates-get [] candidate all h = cc
  AreCandidates-get ((j, w) ∷ found) candidate {item} all h =
      ground (
        arith,
        AreCandidates-get found candidate {item = item} all.1,
        string_Eq.beq_iff j candidate,
      )

  pub paired_device-device_id :
      (profile : TuyaPairingConfig) (ip device_id : String)
      → Returns
          (λ (d : TuyaDeviceConfig). d.device_id ≡ device_id)
          (paired_device out profile ip device_id)
  unfolding paired_device new_device
  paired_device-device_id profile ip device_id = search returns_rules depth 16

  pub chosen_device-IsPaired :
      (s : TuyaLocalDriver) (candidate : String) (d : TuyaDeviceConfig)
      → AreCandidates out s.discovered
      → chosen_device out candidate s ≡ ok d
      → candidate ≡ candidate_id out d.device_id
  unfolding chosen_device
  chosen_device-IsPaired s candidate d all h =
      let with_profile = λ (item : Found).
        Exc.◌>>=◌ (profile_of s.pairing) λ profile. paired_device out profile item.ip item.id in
      let (item, found, rest) =
        >>=-eq-ok (found_item (get s.discovered candidate)) with_profile h in
      let (profile, configured, built) =
        >>=-eq-ok (profile_of s.pairing) (λ profile. paired_device out profile item.ip item.id)
          rest in
      AreCandidates-get s.discovered candidate {item = item} all
        (found_item-eq-ok (get s.discovered candidate) found)
      ∙ ap (candidate_id out) (sym ((paired_device-device_id profile item.ip item.id).at d built))

  pub IsValid-owned : (s t : TuyaLocalDriver) → Links (owner s) 0 t → IsValid out s → IsValid out t
  IsValid-owned s t h v =
      let same = sym h.same in
      record {
        links = subst (λ o. Links o 0 t) same h;
        paired = subst (λ (o : Owner). IsPaired out o.device o.light) same v.paired;
        candidates = subst (λ (o : Owner). AreCandidates out o.discovered) same v.candidates;
      }

  pub IsValid-kept :
      {A : Type 0} (m : Io A) (s : TuyaLocalDriver)
      → Keeps (Links (owner s) 0) m
      → IsValid out s
      → IsValid out (m s).1
  IsValid-kept m s k v = IsValid-owned s (m s).1 (k.after s v.links) v

  pub IsValid-paired :
      (candidate : String) (s : TuyaLocalDriver)
      (r : Result (DeviceDescriptor × String) × TuyaLocalDriver)
      → IsPairOutcome out candidate s r
      → IsValid out s
      → IsValid out r.1
  IsValid-paired candidate s r (inl (e, raised, h)) v = IsValid-owned s r.1 h v
  IsValid-paired candidate s r (inr (d, chosen, result, h)) v =
      let same = sym h.same in
      record {
        links = subst (λ o. Links o 0 r.1) same h;
        paired =
            subst (λ (o : Owner). IsPaired out o.device o.light) same
              (chosen_device-IsPaired s candidate d v.candidates chosen);
        candidates = subst (λ (o : Owner). AreCandidates out o.discovered) same v.candidates;
      }
