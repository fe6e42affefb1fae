-- ===== src/Runtime/Settings/Secure.antt =====
-- What a checked RuntimeConfig guarantees.
use linker.Prelude.{
  String, Bool, true, false, Option, none, some, ◌≡◌, refl, sym, ap, ◌∙◌, ◌⊎◌, inl, inr, ◌||◌,
  list_eq→eq, nat_Eq, str_eq, string_Eq, arith, Bool-cases,
}
use linker.Python.Exc.{Result, ok, >>=-eq-ok}
use linker.Python.Text.{codes}
use linker.Models.Identifier.{is_identifier}
use linker.Tuya.Config.{TuyaDeviceConfig}
use linker.Runtime.{is_blank}
use linker.Runtime.Settings
use linker.Runtime.Settings.{
  Url, RuntimeConfig, text_of, is_given, is_websocket, is_blank_token, has_token, is_light_id,
  check_mode, is_local_host, lower, loopback, is_protected, check_settings,
}

-- Without a device, or with one and an identifier for its light.
abbrev pub IsModeOf : Bool → Option TuyaDeviceConfig → Option String → Type 0
IsModeOf only device light_id =
    ((only ≡ true) × (device ≡ none) × (light_id ≡ none))
    ⊎ ((only ≡ false)
        × (d : TuyaDeviceConfig) × (device ≡ some d)
        × (id : String) × (light_id ≡ some id)
        × (is_identifier id ≡ true))

abbrev pub IsMode : RuntimeConfig → Type 0
IsMode c = IsModeOf c.discovery_only c.device c.light_id

has_token-cases :
    (t : Option String)
    → has_token t ≡ true
    → is_blank_token t ≡ false
    → (token : String) × (t ≡ some token) × (is_blank (codes token) ≡ false)
has_token-cases none h blank = cc
has_token-cases (some token) h blank = (token, refl, blank)

is_light_id-cases :
    (o : Option String)
    → is_light_id o ≡ true
    → (id : String) × (o ≡ some id) × (is_identifier id ≡ true)
is_light_id-cases none h = cc
is_light_id-cases (some id) h = (id, refl, h)

check_mode-IsMode :
    (only : Bool) (device : Option TuyaDeviceConfig) (light_id : Option String)
    → check_mode only device light_id ≡ ok tt
    → IsModeOf only device light_id
unfolding check_mode
check_mode-IsMode true none none h = inl (refl, refl, refl)
check_mode-IsMode true none (some l) h = cc
check_mode-IsMode true (some d) light_id h = cc
check_mode-IsMode false none light_id h = cc
check_mode-IsMode false (some d) light_id h =
    let (id, own, named) = is_light_id-cases light_id (ground (arith, h)) in
    inr (refl, d, refl, id, own, named)

or-cases : (a b : Bool) → (a || b) ≡ true → (a ≡ true) ⊎ (b ≡ true)
or-cases true b h = inl refl
or-cases false b h = inr h

module _ (urlparse : String → Result Url) (is_loopback : String → Option Bool) where
  -- A name of the machine itself in any case of its letters, or an address that is a loopback address.
  abbrev pub IsMachine : String → Type 0
  IsMachine host =
      (lower (codes host) ≡ codes "localhost")
      ⊎ ((lower (codes host) ≡ codes "localhost.localdomain") ⊎ (is_loopback host ≡ some true))

  -- The server's host is the machine itself, or the connection is encrypted and has a token.
  abbrev pub IsSecure : Url → RuntimeConfig → Type 0
  IsSecure u c =
      IsMachine (text_of u.hostname)
      ⊎ ((u.scheme ≡ "wss")
          × (token : String) × (c.server_api_token ≡ some token)
          × (is_blank (codes token) ≡ false))

  loopback-cases : (o : Option Bool) → loopback urlparse is_loopback o ≡ true → o ≡ some true
  loopback-cases none h = cc
  loopback-cases (some b) h = ap some h

  is_local_host-IsMachine :
      (host : String) → is_local_host urlparse is_loopback host ≡ true → IsMachine host
  unfolding is_local_host
  is_local_host-IsMachine host h = elim (or-cases _ _ h) [
    | inl name ↦ inl (list_eq→eq _ _ name)
    | inr other ↦ elim (or-cases _ _ other) [
      | inl domain ↦ inr (inl (list_eq→eq _ _ domain))
      | inr address ↦ inr (inr (loopback-cases (is_loopback host) address))
    ]
  ]

  check_settings-checks :
      (u : Url) (c d : RuntimeConfig)
      → check_settings urlparse is_loopback u c ≡ ok d
      → (c ≡ d)
        × (is_protected urlparse is_loopback u d.server_api_token ≡ true)
        × (is_blank_token d.server_api_token ≡ false)
        × (check_mode d.discovery_only d.device d.light_id ≡ ok tt)
  unfolding check_settings
  check_settings-checks u c d h = ground arith

  protected-IsSecure :
      (u : Url) (c : RuntimeConfig)
      → is_protected urlparse is_loopback u c.server_api_token ≡ true
      → is_blank_token c.server_api_token ≡ false
      → IsSecure u c
  protected-IsSecure u c h blank =
      elim (Bool-cases (is_local_host urlparse is_loopback (text_of u.hostname))) [
        | inl here ↦ inl (is_local_host-IsMachine (text_of u.hostname) here)
        | inr away ↦
            let encrypted : str_eq u.scheme "wss" ≡ true = ground (arith, h, away) in
            let given : has_token c.server_api_token ≡ true = ground (arith, h, away) in
            let (token, own, solid) = has_token-cases c.server_api_token given blank in
            inr ((string_Eq.beq_iff u.scheme "wss").0 encrypted, token, own, solid)
      ]

  -- Of a RuntimeConfig that passes the checks: its server's host is localhost or localhost.localdomain, in letters
  -- of any case, or a loopback address; or its scheme is wss and a token is given that is not blank. It is in
  -- discovery-only mode with no device and no light id, or it has a device and a light id that is an identifier.
  pub new-IsSecure :
      (c d : RuntimeConfig)
      → Settings.new urlparse is_loopback c ≡ ok d
      → (u : Url) × (urlparse d.server_url ≡ ok u) × IsSecure u d × IsMode d
  unfolding Settings.new
  new-IsSecure c d h =
      let (u, parsed, checked) =
        >>=-eq-ok (urlparse c.server_url) (λ u. check_settings urlparse is_loopback u c) h in
      let (same, protected, blank, mode) = check_settings-checks u c d checked in
      (
        u,
        ap (λ (c : RuntimeConfig). urlparse c.server_url) (sym same) ∙ parsed,
        protected-IsSecure u d protected blank,
        check_mode-IsMode d.discovery_only d.device d.light_id mode,
      )
