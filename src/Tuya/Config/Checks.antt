-- ===== src/Tuya/Config/Checks.antt =====
-- What a device configuration that is accepted satisfies.
use linker.Prelude.{
  List, [], ◌∷◌, All, length, ℤ, true, str_eq, eq_iff, ℕ, ◌*◌, ◌^◌, ◌≤◌, ◌<◌, String, true, false,
  ◌||◌, Option, none, some, ◌≡◌, List, ℤ, pos, negsuc, length, refl, subst, arith, ◌⊎◌, inl, inr,
}
use linker.Python.Exc.{ok}
use linker.Python.Text.{codes}
use linker.Python.Value.{Float, finite, inf, minus_inf, nan}
use linker.Tuya.Mapping.{bounded_int}
use linker.Tuya.Config.{
  is_port, are_ports, is_no_port, TuyaDiscoveryOptions, new_options, Address, TuyaDeviceConfig,
  is_bad_timeout, are_ascii, check_key, check_link, check_address, new_device,
}

-- At most 60 seconds and more than none.
abbrev pub IsTimeout : Float → Type 0
IsTimeout (finite (pos m) k) = (0 < m) × (m ≤ 60 * 2 ^ k)
IsTimeout x = ⊥

is_bad_timeout-cases : (x : Float) → is_bad_timeout x ≡ false → IsTimeout x ⊎ (x ≡ nan)
unfolding is_bad_timeout
is_bad_timeout-cases (finite (pos m) k) h = inl (ground arith)
is_bad_timeout-cases (finite (negsuc m) k) h = cc
is_bad_timeout-cases inf h = cc
is_bad_timeout-cases minus_inf h = cc
is_bad_timeout-cases nan h = inr refl

-- A key that AES-128 takes.
pub record IsKey (cs : List ℕ) : Type 0 where
  pub ascii : are_ascii cs ≡ true
  pub size : length cs ≡ 16

check_key-IsKey : (key version : String) → check_key key version ≡ ok tt → IsKey (codes key)
unfolding check_key
check_key-IsKey key version h = ground arith

check_link-timeout :
    (port : ℤ) (x : Float) (retries : ℤ)
    → check_link port x retries ≡ ok tt
    → is_bad_timeout x ≡ false
unfolding check_link
check_link-timeout port x retries h = ground arith

check_link-port :
    (port : ℤ) (x : Float) (retries : ℤ)
    → check_link port x retries ≡ ok tt
    → (n : ℕ) × (port ≡ pos n) × (1 ≤ n) × (n ≤ 65535)
unfolding check_link bounded_int
check_link-port (pos n) x retries h = (n, refl, ground arith, ground arith)
check_link-port (negsuc n) x retries h = cc

check_address-eq-ok :
    (o : Option Address)
    → check_address o ≡ ok tt
    → (a : Address) × (o ≡ some a)
      × (a.is_loopback ≡ false)
      × (a.is_private || a.is_link_local ≡ true)
check_address-eq-ok none h = cc
check_address-eq-ok (some a) h = (a, refl, ground arith, ground arith)

-- What the program relies on of a device configuration.
pub record IsUsable (ip_address : String → Option Address) (c : TuyaDeviceConfig) : Type 0 where
  pub local_address :
      (a : Address) × (ip_address c.ip ≡ some a)
      × (a.is_loopback ≡ false)
      × (a.is_private || a.is_link_local ≡ true)
  pub key : IsKey (codes c.local_key)
  pub port : (n : ℕ) × (c.port ≡ pos n) × (1 ≤ n) × (n ≤ 65535)
  pub timeout : IsTimeout c.timeout_s ⊎ (c.timeout_s ≡ nan)

-- A device configuration that is accepted names an address that is private or link-local and no loopback,
-- has a key of 16 ASCII bytes and a port from 1 to 65535, and has a timeout of at most 60 seconds and more
-- than none, or NaN.
pub new_device-IsUsable :
    (ip_address : String → Option Address) (c d : TuyaDeviceConfig)
    → new_device ip_address c ≡ ok d
    → IsUsable ip_address d
unfolding new_device
new_device-IsUsable ip_address c d h =
    let address : check_address (ip_address c.ip) ≡ ok tt = ground arith in
    let key : check_key c.local_key c.protocol_version ≡ ok tt = ground arith in
    let link : check_link c.port c.timeout_s c.retries ≡ ok tt = ground arith in
    let same : c ≡ d = ground arith in
    subst (IsUsable ip_address) same (record {
      local_address = check_address-eq-ok (ip_address c.ip) address;
      key = check_key-IsKey c.local_key c.protocol_version key;
      port = check_link-port c.port c.timeout_s c.retries link;
      timeout =
          is_bad_timeout-cases c.timeout_s (check_link-timeout c.port c.timeout_s c.retries link);
    })

abbrev pub IsPort : ℤ → Type 0
IsPort p = (n : ℕ) × (p ≡ pos n) × (1 ≤ n) × (n ≤ 65535)

is_port-IsPort : (p : ℤ) → is_port p ≡ true → IsPort p
is_port-IsPort (pos n) h = (n, refl, ground arith, ground arith)
is_port-IsPort (negsuc n) h = cc

are_ports-IsPort : (ps : List ℤ) → are_ports ps ≡ true → All IsPort ps
are_ports-IsPort [] h = tt
are_ports-IsPort (p ∷ ps) h = (is_port-IsPort p (ground arith), are_ports-IsPort ps (ground arith))

some-port : (ps : List ℤ) → is_no_port ps ≡ false → 0 < length ps
some-port [] h = cc
some-port (p ∷ ps) h = ground arith

-- Discovery options that are accepted send to the broadcast address of the local network and to no other, and
-- have ports from 1 to 65535, one at least.
pub new_options-ports :
    (ip_address : String → Option Address) (o p : TuyaDiscoveryOptions)
    → new_options ip_address o ≡ ok p
    → (p.broadcast_address ≡ "255.255.255.255") × All IsPort p.ports × (0 < length p.ports)
unfolding new_options
new_options-ports ip_address o p h =
    let address : str_eq o.broadcast_address "255.255.255.255" ≡ true = ground arith in
    let ports : are_ports o.ports ≡ true = ground arith in
    let some_port : is_no_port o.ports ≡ false = ground arith in
    let same : o ≡ p = ground arith in
    subst
      (λ (x : TuyaDiscoveryOptions).
        (x.broadcast_address ≡ "255.255.255.255") × All IsPort x.ports × (0 < length x.ports))
      same
      (
        (eq_iff o.broadcast_address "255.255.255.255").0 address,
        are_ports-IsPort o.ports ports,
        some-port o.ports some_port,
      )
