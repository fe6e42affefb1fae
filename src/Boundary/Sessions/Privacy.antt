-- ===== src/Boundary/Sessions/Privacy.antt =====
-- What the answers of a discovery or pairing session tell of an exception of the driver.
use linker.Prelude.{ℕ, String, Bool, true, false, some, ◌≡◌, arith}
use linker.Python.Exc.{Exc, Result, ok, err, cancelled, timeout_error, pairing_error}
use linker.Models.Descriptor.{DeviceDescriptor}
use linker.Protocol.{Envelope}
use linker.Driver.{VendorRgbDriver}
use linker.Boundary.{LinkerBoundary, Stamps}
use linker.Boundary.Requests.{discovery_request, pairing_request}
use linker.Boundary.Sessions.{
  discovery_failure, pairing_failure, scan_time, scan_wait, pairing_wait, discovery_messages,
  handle_discovery, failed_discovery, failed_pairing, finish_pairing, run_pair, handle_pairing,
  pairing_completed, pairing_payload, discovery_completed,
}

-- An exception with a text that is not meant for the server.
abbrev pub is_internal : Exc → Bool
is_internal cancelled = false
is_internal (timeout_error m) = false
is_internal (pairing_error m) = false
is_internal e = true

internal-discovery_failure :
    (e : Exc) → is_internal e ≡ true → discovery_failure e ≡ some "discovery failed"
unfolding discovery_failure
internal-discovery_failure e h = ground arith

internal-pairing_failure :
    (e : Exc)
    → is_internal e ≡ true
    → pairing_failure e
      ≡ some "device verification failed; check Linker local key, protocol, and DP mapping"
unfolding pairing_failure
internal-pairing_failure e h = ground arith

module _ {D : Type 0} (stamps : Stamps) (start : Envelope) (s : LinkerBoundary D) where
  -- Two drivers whose scans raise different exceptions, none of them PairingError, TimeoutError or a
  -- cancellation, and leave the same driver state, give the same answer and the same boundary to an
  -- accepted discovery request: nothing of the exception's text is sent.
  pub handle_discovery-hides :
      (drv drv' : VendorRgbDriver D) {session t : ℕ} {d : D} {e f : Exc}
      → discovery_request start ≡ ok (session, t)
      → drv.discover (scan_time t) (scan_wait t) s.driver ≡ (err e, d)
      → drv'.discover (scan_time t) (scan_wait t) s.driver ≡ (err f, d)
      → is_internal e ≡ true
      → is_internal f ≡ true
      → handle_discovery drv stamps start s ≡ handle_discovery drv' stamps start s
  unfolding handle_discovery discovery_messages failed_discovery discovery_completed
  handle_discovery-hides drv drv' {e = e} {f = f} h p q i j =
      rw (h, p, q, internal-discovery_failure e i, internal-discovery_failure f j)

  -- Two drivers whose pairing calls raise different exceptions, none of them PairingError, TimeoutError or
  -- a cancellation, and leave the same driver state, give the same answer and the same boundary to an
  -- accepted pairing request: nothing of the exception's text is sent.
  pub handle_pairing-hides :
      (drv drv' : VendorRgbDriver D)
      (pair pair' : String → ℕ → D → Result (DeviceDescriptor × String) × D) {session t : ℕ}
      {candidate : String} {d : D} {e f : Exc}
      → pairing_request start ≡ ok (session, candidate, t)
      → drv.pair ≡ some pair
      → drv'.pair ≡ some pair'
      → pair candidate (pairing_wait t) s.driver ≡ (err e, d)
      → pair' candidate (pairing_wait t) s.driver ≡ (err f, d)
      → is_internal e ≡ true
      → is_internal f ≡ true
      → handle_pairing drv stamps start s ≡ handle_pairing drv' stamps start s
  unfolding handle_pairing run_pair finish_pairing failed_pairing pairing_completed pairing_payload
  handle_pairing-hides drv drv' pair pair' {e = e} {f = f} h a b p q i j =
      rw (h, a, b, p, q, internal-pairing_failure e i, internal-pairing_failure f j)
