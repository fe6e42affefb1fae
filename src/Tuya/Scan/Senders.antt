-- ===== src/Tuya/Scan/Senders.antt =====
-- What a scan can make the driver believe.
use linker.Prelude.{
  ℕ, if◌then◌else◌, str_eq, String, Bool, true, false, ◌<◌, ◌+◌, ltb, Bool-cases, Option, none,
  some, ◌≡◌, refl, sym, subst, ap, ◌∙◌, ◌⊎◌, inl, inr, List, [], ◌∷◌, All, string_Eq, arith,
}
use linker.Python.Exc.{Result, ok, err, >>=-eq-ok, ok-injective, ◌>>=◌}
use linker.Python.Dict.{Dict, put}
use linker.Tuya.Config.{TuyaDiscoveryOptions}
use linker.Tuya.Discovery.{Found, is_device_id}
use linker.Tuya.Discovery.Sources.{IsFrom, parse_discovery_json-IsFrom}
use linker.Tuya.Scan.{
  Lan, Round, scan, first_found, datagram_payloads, parse_discovery_datagram, keep, collect, items,
  bind_all, ask, discovery_local_ip, discover_sync,
}

-- A datagram came from this address.
abbrev pub Heard : List (Result (List ℕ × String)) → String → Type 0
Heard [] ip = ⊥
Heard (err e ∷ received) ip = Heard received ip
Heard (ok (datagram, sender) ∷ received) ip = (sender ≡ ip) ⊎ Heard received ip

-- A datagram came from this address in a pass of the loop that began before the deadline, as did all before it.
abbrev pub HeardBefore : ℕ → List Round → String → Type 0
HeardBefore deadline [] ip = ⊥
HeardBefore deadline (round ∷ rounds) ip =
    (round.now < deadline) × (Heard round.received ip ⊎ HeardBefore deadline rounds ip)

-- A device with an id of the pattern, at an address that was heard.
pub record IsHeard (H : String → Type 0) (id ip : String) : Type 0 where
  pub id_pattern : is_device_id id ≡ true
  pub sender : H ip

module _ (H : String → Type 0) where
  abbrev AreHeard : Dict String String → Type 0
  AreHeard [] = Unit
  AreHeard ((id, ip) ∷ found) = IsHeard H id ip × AreHeard found

  AreHeard-if :
      (b : Bool) (m n : Dict String String)
      → AreHeard m
      → AreHeard n
      → AreHeard (if b then m else n)
  AreHeard-if true m n hm hn = hm
  AreHeard-if false m n hm hn = hn

  AreHeard-put :
      (found : Dict String String) (id ip : String)
      → IsHeard H id ip
      → AreHeard found
      → AreHeard (put found id ip)
  AreHeard-put [] id ip new all = (new, tt)
  AreHeard-put ((j, w) ∷ found) id ip new all =
      AreHeard-if (str_eq j id) ((j, ip) ∷ found) ((j, w) ∷ put found id ip)
        (record { id_pattern = all.0.id_pattern; sender = new.sender }, all.1)
        (all.0, AreHeard-put found id ip new all.1)

module _ (lan : Lan) where
  first_found-IsFrom :
      (payloads : List (List ℕ)) (ip : String) {f : Found}
      → first_found lan payloads ip ≡ some f
      → IsFrom ip f
  unfolding first_found
  first_found-IsFrom [] ip h = cc
  first_found-IsFrom (payload ∷ payloads) ip {f} h = ground (
    arith,
    parse_discovery_json-IsFrom lan.json payload ip {f = f},
    first_found-IsFrom payloads ip {f = f},
  )

  parse_discovery_datagram-IsFrom :
      (datagram : List ℕ) (ip : String) {f : Found}
      → parse_discovery_datagram lan datagram ip ≡ ok (some f)
      → IsFrom ip f
  unfolding parse_discovery_datagram
  parse_discovery_datagram-IsFrom datagram ip {f} h =
      let (payloads, read, found) =
        >>=-eq-ok (datagram_payloads lan datagram) (λ payloads. ok (first_found lan payloads ip))
          h in
      first_found-IsFrom payloads ip {f = f} (ok-injective found)

  AreHeard-keep :
      (H : String → Type 0) (ip : String) (item : Option Found) (found : Dict String String)
      → ((f : Found) → item ≡ some f → IsFrom ip f)
      → H ip
      → AreHeard H found
      → AreHeard H (keep lan item found)
  AreHeard-keep H ip none found from heard all = all
  AreHeard-keep H ip (some f) found from heard all =
      AreHeard-if H (str_eq f.id "") found (put found f.id f.ip) all (
        AreHeard-put H found f.id f.ip
          (record {
            id_pattern = (from f refl).id_pattern;
            sender = subst H (sym (from f refl).sender) heard;
          })
          all)

  collect-AreHeard :
      (H : String → Type 0) (received : List (Result (List ℕ × String)))
      (found result : Dict String String)
      → ((ip : String) → Heard received ip → H ip)
      → AreHeard H found
      → collect lan received found ≡ ok result
      → AreHeard H result
  unfolding collect
  collect-AreHeard H [] found result later heard h = subst (AreHeard H) (ok-injective h) heard
  collect-AreHeard H (err e ∷ received) found result later heard h =
      collect-AreHeard H received found result later heard (ground arith)
  collect-AreHeard H (ok (datagram, ip) ∷ received) found result later heard h =
      let (item, parsed, rest) =
        >>=-eq-ok (parse_discovery_datagram lan datagram ip)
          (λ item. collect lan received (keep lan item found)) h in
      collect-AreHeard H received (keep lan item found) result (λ a k. later a (inr k))
        (AreHeard-keep H ip item found
          (λ f same. parse_discovery_datagram-IsFrom datagram ip {f = f} (parsed ∙ ap ok same))
          (later ip (inl refl)) heard)
        rest

  scan-AreHeard :
      (H : String → Type 0) (deadline : ℕ) (rounds : List Round) (found result : Dict String String)
      → ((ip : String) → HeardBefore deadline rounds ip → H ip)
      → AreHeard H found
      → scan lan deadline rounds found ≡ ok result
      → AreHeard H result
  unfolding scan
  scan-AreHeard H deadline [] found result later heard h = subst (AreHeard H) (ok-injective h) heard
  scan-AreHeard H deadline (round ∷ rounds) found result later heard h =
      elim (Bool-cases (ltb round.now deadline)) [
        | inl early ↦
            let begun : round.now < deadline = ground (arith, early) in
            let passed : (collect lan round.received found >>= λ more.
            scan lan deadline rounds more)
                ≡ ok result =
              ground (arith, h, early) in
            let (more, collected, rest) =
              >>=-eq-ok (collect lan round.received found) (λ more. scan lan deadline rounds more)
                passed in
            scan-AreHeard H deadline rounds more result (λ ip k. later ip (begun, inr k))
              (collect-AreHeard H round.received found more (λ ip k. later ip (begun, inl k)) heard
                collected)
              rest
        | inr late ↦ subst (AreHeard H) (ok-injective (ground (arith, h, late))) heard
      ]

  All-items :
      (H : String → Type 0) (found : Dict String String)
      → AreHeard H found
      → All (λ (f : Found). IsHeard H f.id f.ip) (items lan found)
  All-items H [] all = tt
  All-items H ((id, ip) ∷ found) all = (all.0, All-items H found all.1)

  -- Every device that a scan returns has an id of the pattern, and the address from which a datagram came in a
  -- pass of the loop that began before the deadline, the time of the scan after its start.
  pub discover_sync-IsHeard :
      (options : TuyaDiscoveryOptions) (timeout : ℕ) (found : List Found)
      → discover_sync lan options timeout ≡ ok found
      → All
          (λ (f : Found). IsHeard (HeardBefore (lan.started + timeout) lan.rounds) f.id f.ip)
          found
  unfolding discover_sync
  discover_sync-IsHeard options timeout found h =
      let deadline = lan.started + timeout in
      let H = HeardBefore deadline lan.rounds in
      let scanned =
        λ (_ : Unit {0}). scan lan deadline lan.rounds [] >>= λ found. ok (items lan found) in
      let asked = λ (_ : Unit {0}).
        ask lan (discovery_local_ip lan options.broadcast_address) options.broadcast_address
        >>= scanned in
      let (u, bound, opened) =
        >>=-eq-ok (bind_all lan options.ports) (λ _. lan.bind_sender >>= asked) h in
      let (v, sending, sent) = >>=-eq-ok lan.bind_sender asked opened in
      let (w, request, rest) =
        >>=-eq-ok
          (ask lan (discovery_local_ip lan options.broadcast_address) options.broadcast_address)
          scanned sent in
      let (kept, collected, same) =
        >>=-eq-ok (scan lan deadline lan.rounds []) (λ found. ok (items lan found)) rest in
      subst (All λ (f : Found). IsHeard H f.id f.ip) (ok-injective same)
        (All-items H kept (scan-AreHeard H deadline lan.rounds [] kept (λ ip k. k) tt collected))
