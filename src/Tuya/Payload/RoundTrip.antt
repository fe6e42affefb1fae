-- ===== src/Tuya/Payload/RoundTrip.antt =====
-- A device that builds its payloads as `_payload_for_command` does is understood by `decode_payload`.
use linker.Prelude.{
  ℕ, suc, ◌≤◌, ◌≡◌, refl, sym, ap, subst, ◌⊎◌, inl, inr, Bool-cases, String, true, false, ◌&&◌,
  Option, List, ◌++◌, arith, nat_eq, nat_Eq, string_Eq, list_eq_self, ltb, length, take, drop,
  take-append, drop-append, length-append, length-take, length-drop, if◌then◌else◌,
}
use linker.Python.Exc.{ok, ok-injective}
use linker.Python.Text.{codes}
use linker.Tuya.Payload.{
  Cryptography, Encodings, aes_encrypt, aes_decrypt, header_bytes, version_header, without_prefix,
  starts_with, has_no_version_header, or_key, control_31, payload_for_command, decode_31, decode_34,
  decode_33, decode_payload, command_control, command_session_response,
}

starts_with-append : (h d : List ℕ) → starts_with (h ++ d) h ≡ true
starts_with-append h d = rw (take-append (length h) h d refl) (list_eq_self h)

without_prefix-append : (h d : List ℕ) → without_prefix h (h ++ d) ≡ d
unfolding without_prefix
without_prefix-append h d = rw (starts_with-append h d) (drop-append (length h) h d refl)

without_prefix-none : (h d : List ℕ) → starts_with d h ≡ false → without_prefix h d ≡ d
unfolding without_prefix
without_prefix-none h d e = rw e

not_short : (n : ℕ) → 19 ≤ n → ltb n 19 ≡ false
not_short n h = ground arith

module _ (crypto : Cryptography) where
  pub aes_decrypt-aes_encrypt :
      (d key : List ℕ) → aes_decrypt crypto (aes_encrypt crypto d key) key ≡ ok d
  unfolding aes_encrypt aes_decrypt
  aes_decrypt-aes_encrypt d key = rw (
    crypto.length-encrypt key (crypto.pad d),
    crypto.length-pad d,
    crypto.decrypt-encrypt key (crypto.pad d) (crypto.length-pad d),
    crypto.unpad-pad d,
  )

  module _ (encodings : Encodings) (clear key : List ℕ) where
    decode_34-header :
        decode_34 crypto encodings (aes_encrypt crypto (header_bytes "3.4" ++ clear) key) key
        ≡ ok clear
    unfolding decode_34
    decode_34-header = rw (aes_decrypt-aes_encrypt (header_bytes "3.4" ++ clear) key)

    decode_33-header :
        (version : String)
        → decode_33 crypto encodings version
            (header_bytes version ++ aes_encrypt crypto clear key)
            key
          ≡ ok clear
    unfolding decode_33
    decode_33-header version =
        rw (without_prefix-append (header_bytes version) (aes_encrypt crypto clear key))
          (aes_decrypt-aes_encrypt clear key)

    decode_33-plain :
        (version : String)
        → starts_with (aes_encrypt crypto clear key) (header_bytes version) ≡ false
        → decode_33 crypto encodings version (aes_encrypt crypto clear key) key ≡ ok clear
    unfolding decode_33
    decode_33-plain version h =
        rw (without_prefix-none (header_bytes version) (aes_encrypt crypto clear key) h)
          (aes_decrypt-aes_encrypt clear key)

    decode_31-start :
        (start : List ℕ)
        → length start ≡ 19
        → decode_31 crypto encodings
            (start ++ encodings.b64encode (aes_encrypt crypto clear key))
            key
          ≡ ok clear
    unfolding decode_31
    decode_31-start start h =
        let encrypted = encodings.b64encode (aes_encrypt crypto clear key) in
        let long = length-append start encrypted in
        rw (
          not_short (length (start ++ encrypted)) (omega (arith, long)),
          drop-append 19 start encrypted h,
          encodings.b64decode-b64encode (aes_encrypt crypto clear key),
          aes_decrypt-aes_encrypt clear key,
        )

    digest_length : (d : List ℕ) → length d ≡ 32 → length (take 16 (drop 8 d)) ≡ 16
    digest_length d h = rw (length-take 16 (drop 8 d), length-drop 8 d, h)

    decode_31-control :
        decode_31 crypto encodings (control_31 crypto encodings clear key) key ≡ ok clear
    unfolding control_31
    decode_31-control =
        let signed =
          codes "data="
          ++ (encodings.b64encode (aes_encrypt crypto clear key) ++ (codes "||lpv=3.1||" ++ key)) in
        let digest = take 16 (drop 8 (encodings.md5_hex signed)) in
        decode_31-start (codes "3.1" ++ digest) (
          ap (λ n. suc (suc (suc n)))
            (digest_length (encodings.md5_hex signed) (encodings.length-md5_hex signed)))

module _ (crypto : Cryptography) (encodings : Encodings) (sequence command : ℕ) (clear key : List ℕ)
    (session : Option (List ℕ)) where
  -- Protocol 3.4: the payload that is built for a command other than the session response decodes to the
  -- text that it was built from, with the session key if there is one and else with the local key.
  pub decode_payload-payload_for_command_34 :
      {p : List ℕ}
      → nat_eq command command_session_response ≡ false
      → payload_for_command crypto encodings "3.4" command clear key session ≡ ok p
      → decode_payload crypto encodings
          (record { sequence = sequence; command = command; payload = p })
          "3.4"
          key
          session
        ≡ ok clear
  unfolding payload_for_command version_header decode_payload
  decode_payload-payload_for_command_34 c h = rw c (
      subst (λ p. decode_34 crypto encodings p (or_key session key) ≡ ok clear) (ok-injective h)
        (decode_34-header crypto encodings clear (or_key session key)))

  decode_33-either :
      (version : String) {p : List ℕ}
      → has_no_version_header command
          && starts_with (aes_encrypt crypto clear key) (header_bytes version)
        ≡ false
      → (if has_no_version_header command
          then ok (aes_encrypt crypto clear key)
          else ok (header_bytes version ++ aes_encrypt crypto clear key))
        ≡ ok p
      → decode_33 crypto encodings version p key ≡ ok clear
  decode_33-either version {p} c h = elim (Bool-cases (has_no_version_header command)) [
    | inl t ↦
        subst (λ p. decode_33 crypto encodings version p key ≡ ok clear) (ok-injective (rw t at h))
          (decode_33-plain crypto encodings clear key version (rw t at c))
    | inr f ↦
        subst (λ p. decode_33 crypto encodings version p key ≡ ok clear) (ok-injective (rw f at h))
          (decode_33-header crypto encodings clear key version)
  ]

  -- The family in which the version is replaced.
  abbrev ComesBack : String → List ℕ → Type 0
  ComesBack v p =
      has_no_version_header command && starts_with (aes_encrypt crypto clear key) (header_bytes v)
        ≡ false
      → payload_for_command crypto encodings v command clear key session ≡ ok p
      → decode_payload crypto encodings
          (record { sequence = sequence; command = command; payload = p }) v key session
        ≡ ok clear

  -- Protocols 3.2 and 3.3: the payload that is built for a command decodes to the text that it was built
  -- from. A command that is sent without a version header needs a cipher text that does not begin as the
  -- header does.
  pub decode_payload-payload_for_command_33 :
      (version : String) {p : List ℕ}
      → (version ≡ "3.2") ⊎ (version ≡ "3.3")
      → has_no_version_header command
          && starts_with (aes_encrypt crypto clear key) (header_bytes version)
        ≡ false
      → payload_for_command crypto encodings version command clear key session ≡ ok p
      → decode_payload crypto encodings
          (record { sequence = sequence; command = command; payload = p })
          version
          key
          session
        ≡ ok clear
  unfolding payload_for_command version_header decode_payload
  decode_payload-payload_for_command_33 version {p} (inl e) c h =
      subst (λ v. ComesBack v p) (sym e) (decode_33-either "3.2") c h
  decode_payload-payload_for_command_33 version {p} (inr e) c h =
      subst (λ v. ComesBack v p) (sym e) (decode_33-either "3.3") c h

  -- Protocol 3.1: the signed base64 payload that is built for a control command decodes to the text that
  -- it was built from.
  pub decode_payload-payload_for_command_31 :
      {p : List ℕ}
      → payload_for_command crypto encodings "3.1" command_control clear key session ≡ ok p
      → decode_payload crypto encodings
          (record { sequence = sequence; command = command; payload = p })
          "3.1"
          key
          session
        ≡ ok clear
  unfolding payload_for_command decode_payload control_31
  decode_payload-payload_for_command_31 h =
      subst
        (λ p.
          decode_payload crypto encodings
            (record { sequence = sequence; command = command; payload = p }) "3.1" key session
          ≡ ok clear)
        (ok-injective h) (decode_31-control crypto encodings clear key)
