-- ===== src/Boundary/Sessions/Pairing.antt =====
-- Which device the boundary takes over in a pairing session.
use linker.Prelude.{ℕ, String, Option, none, some, ◌≡◌, ◌≢◌, refl, string_Eq, eq_iff, arith}
use linker.Python.Exc.{Exc, Result, ok, err}
use linker.Models.Descriptor.{DeviceDescriptor}
use linker.Protocol.{Envelope}
use linker.Driver.{VendorRgbDriver}
use linker.Boundary.{LinkerBoundary, Stamps, make_envelope}
use linker.Boundary.Requests.{pairing_request}
use linker.Boundary.Commands.Effects.{SameLight}
use linker.Boundary.Sessions.{
  pairing_failure, failed_pairing, pairing_completed, checked_pairing, run_pair, finish_pairing,
  handle_pairing,
}

-- The light after a pairing session for `candidate`: as it was, or the candidate itself.
pub data IsPairedOrKept (candidate : String) {D : Type 0} (s t : LinkerBoundary D) : Type 0 where
  kept : SameLight s t → IsPairedOrKept candidate s t
  paired :
      (d : DeviceDescriptor) (device : String)
      → d.id ≡ candidate
      → device ≢ ""
      → t.light_id ≡ some candidate
      → t.device_id ≡ some device
      → t.descriptor ≡ some d
      → IsPairedOrKept candidate s t

checked_pairing-eq-ok :
    (candidate : String) (p : DeviceDescriptor × String) {d : DeviceDescriptor} {device : String}
    → checked_pairing candidate p ≡ ok (d, device)
    → (d.id ≡ candidate) × (device ≢ "")
unfolding checked_pairing
checked_pairing-eq-ok candidate p {d = d} h = ground (arith, eq_iff p.1 "", eq_iff p.0.id candidate)

module _ {D : Type 0} (drv : VendorRgbDriver D) (stamps : Stamps) (start : Envelope) where
  run_pair-eq-ok :
      (candidate : String) (t : ℕ) (x : D) {d : DeviceDescriptor} {device : String}
      → (run_pair drv stamps candidate t x).0 ≡ ok (d, device)
      → (d.id ≡ candidate) × (device ≢ "")
  unfolding run_pair
  run_pair-eq-ok candidate t x h = grind (arith, checked_pairing-eq-ok)

  failed_pairing-SameLight :
      (session : ℕ) (candidate : String) (e : Exc) (text : Option String) (s : LinkerBoundary D)
      (x : D)
      → SameLight s
          (failed_pairing drv stamps start session candidate e text (record s { driver = x })).1
  unfolding failed_pairing pairing_completed make_envelope
  failed_pairing-SameLight session candidate e none s x = ground arith
  failed_pairing-SameLight session candidate e (some text) s x = ground arith

  finish_pairing-IsPairedOrKept :
      (session : ℕ) (candidate : String) (r : Result (DeviceDescriptor × String))
      (s : LinkerBoundary D) (x : D)
      → ((d : DeviceDescriptor) (device : String)
          → r ≡ ok (d, device)
          → (d.id ≡ candidate) × (device ≢ ""))
      → IsPairedOrKept candidate s
          (finish_pairing drv stamps start session candidate r (record s { driver = x })).1
  unfolding finish_pairing pairing_completed make_envelope
  finish_pairing-IsPairedOrKept session candidate (ok (d, device)) s x checked =
      let (same, some_device) = checked d device refl in
      paired d device same some_device (ground arith) (ground arith) (ground arith)
  finish_pairing-IsPairedOrKept session candidate (err e) s x checked =
      kept (failed_pairing-SameLight session candidate e (pairing_failure e) s x)

  -- An accepted pairing request takes over the candidate that it names, and no other device: the
  -- configuration and the light stay as they were, or the light is the candidate, with a descriptor of
  -- that id and a device id that is not empty.
  pub handle_pairing-IsPairedOrKept :
      (s : LinkerBoundary D) {session : ℕ} {candidate : String} {t : ℕ}
      → pairing_request start ≡ ok (session, candidate, t)
      → IsPairedOrKept candidate s (handle_pairing drv stamps start s).1
  unfolding handle_pairing
  handle_pairing-IsPairedOrKept s {session} {candidate} {t} h =
      let r = run_pair drv stamps candidate t s.driver in
      rw h (
        finish_pairing-IsPairedOrKept session candidate r.0 s r.1
          (λ d device e. run_pair-eq-ok candidate t s.driver e))
