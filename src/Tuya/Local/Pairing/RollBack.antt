-- ===== src/Tuya/Local/Pairing/RollBack.antt =====
-- The file and the driver when a pairing is stored.
use linker.Prelude.{
  String, Bool, true, false, not, Option, some, ◌≡◌, refl, ap, subst, string_Eq, str_eq,
  if◌then◌else◌, arith,
}
use linker.Python.Exc.{Result, ok, err}
use linker.Python.Action.{then_call, modify}
use linker.Tuya.Config.{TuyaDeviceConfig}
use linker.Tuya.Local.{Outside, json, TuyaLocalDriver, Io, candidate_id, tick}
use linker.Tuya.Local.Pairing.{saved_state, save_pairing_state, commit, keep_pairing}
use linker.Tuya.Local.Invariant.{Owner, owner, IsOwnState, Links, Keeps-outside_call}

-- The owner with another device, and with a pairing that is kept.
abbrev pub with_device : TuyaDeviceConfig → Owner → Owner
with_device d o = record o { device = some d }

abbrev pub with_pairing : String → TuyaDeviceConfig → Owner → Owner
with_pairing candidate d o = record o {
  device = some d;
  light = some candidate;
  state_file = if o.has_state_path then json (saved_state candidate d) else o.state_file;
}

-- A block that keeps the pairing or changes nothing.
abbrev pub IsKept :
    {A : Type 0} → Owner → String → TuyaDeviceConfig → Result A × TuyaLocalDriver → Type 0
IsKept o candidate d (ok a, t) = Links (with_pairing candidate d o) 0 t
IsKept o candidate d (err e, t) = Links o 0 t

Links-commit :
    (o p : Owner) (previous : Option TuyaDeviceConfig) (candidate : String) (d : TuyaDeviceConfig)
    (t : TuyaLocalDriver)
    → Links o 0 t
    → owner (commit previous d candidate t) ≡ p
    → o.device ≡ p.device
    → Links p 0 (commit previous d candidate t)
Links-commit o p previous candidate d t h same own = record {
  same = same;
  word = h.word;
  counted = h.counted;
  own_state = subst (λ d. IsOwnState d t.state) own h.own_state;
  fresh_pending = h.fresh_pending;
  fresh_futures = h.fresh_futures;
}

-- The owner with what `_save_pairing_state` leaves.
abbrev pub with_file : String → TuyaDeviceConfig → Owner → Owner
with_file candidate d o = record o {
  state_file = if o.has_state_path then json (saved_state candidate d) else o.state_file;
}

abbrev IsSaved : Owner → String → TuyaDeviceConfig → Result (Unit {0}) × TuyaLocalDriver → Type 0
IsSaved o candidate d (ok u, t) = Links (with_file candidate d o) 0 t
IsSaved o candidate d (err e, t) = Links o 0 t

-- A block under the test of `if`, in each of its branches.
IsSaved-if :
    (o : Owner) (candidate : String) (d : TuyaDeviceConfig) (b : Bool) (m n : Io (Unit {0}))
    (t : TuyaLocalDriver)
    → (b ≡ true → IsSaved o candidate d (m t))
    → (b ≡ false → IsSaved o candidate d (n t))
    → IsSaved o candidate d ((if b then m else n) t)
IsSaved-if o candidate d true m n t on off = on refl
IsSaved-if o candidate d false m n t on off = off refl

IsSaved-written :
    (o : Owner) (candidate : String) (d : TuyaDeviceConfig) (r : Result (Unit {0}))
    (t : TuyaLocalDriver)
    → o.has_state_path ≡ true
    → Links o 0 t
    → IsSaved o candidate d (
        then_call
          (λ _. modify λ s. record s { state_file = json (saved_state candidate d) })
          (r, t))
IsSaved-written o candidate d (err e) t path h = h
IsSaved-written o candidate d (ok u) t path h = record {
  same = ground (arith, h.same);
  word = h.word;
  counted = h.counted;
  own_state = h.own_state;
  fresh_pending = h.fresh_pending;
  fresh_futures = h.fresh_futures;
}

save_pairing_state-IsSaved :
    (out : Outside) (o : Owner) (candidate : String) (d : TuyaDeviceConfig) (t : TuyaLocalDriver)
    → Links o 0 t
    → IsSaved o candidate d (save_pairing_state out candidate d t)
unfolding save_pairing_state
save_pairing_state-IsSaved out o candidate d t h =
    let path : t.has_state_path ≡ o.has_state_path = ap (λ p. p.has_state_path) h.same in
    IsSaved-if o candidate d (not t.has_state_path) _ _ t
      (λ off. record {
        same = ground (arith, h.same, path);
        word = h.word;
        counted = h.counted;
        own_state = h.own_state;
        fresh_pending = h.fresh_pending;
        fresh_futures = h.fresh_futures;
      })
      (λ on.
        IsSaved-if o candidate d (str_eq candidate (candidate_id out d.device_id)) _ _ t
          (λ same.
            IsSaved-written o candidate d (out.write_file t.ticks) (tick t) (ground (arith, path))
              ((Keeps-outside_call out.write_file).after t h))
          (λ differs. h))

IsKept-committed :
    (o : Owner) (previous : Option TuyaDeviceConfig) (candidate : String) (d : TuyaDeviceConfig)
    (r : Result (Unit {0}) × TuyaLocalDriver)
    → o.device ≡ some d
    → IsSaved o candidate d r
    → IsKept o candidate d (then_call (λ _. modify (commit previous d candidate)) r)
IsKept-committed o previous candidate d (err e, t) own h = h
IsKept-committed o previous candidate d (ok u, t) own h =
    Links-commit (with_file candidate d o) (with_pairing candidate d o) previous candidate d t h
      (ground (arith, h.same)) own

pub keep_pairing-IsKept :
    (out : Outside) (o : Owner) (previous : Option TuyaDeviceConfig) (candidate : String)
    (d : TuyaDeviceConfig) (t : TuyaLocalDriver)
    → o.device ≡ some d
    → Links o 0 t
    → IsKept o candidate d (keep_pairing out previous d candidate t)
unfolding keep_pairing
keep_pairing-IsKept out o previous candidate d t own h =
    IsKept-committed o previous candidate d (save_pairing_state out candidate d t) own
      (save_pairing_state-IsSaved out o candidate d t h)
