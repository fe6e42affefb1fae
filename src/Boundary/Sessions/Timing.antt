-- ===== src/Boundary/Sessions/Timing.antt =====
-- The time budget of a discovery session.
use linker.Prelude.{ℕ, ◌*◌, ◌≤◌, ◌<◌, ◌≡◌, arith}
use linker.Python.Exc.{ok}
use linker.Protocol.{Envelope, Payload}
use linker.Boundary.Requests.{discovery_request, timeout}
use linker.Boundary.Sessions.{scan_time, scan_wait}

timeout_bounds : (p : Payload) {t : ℕ} → timeout p ≡ ok t → (1 ≤ t) × (t ≤ 60)
unfolding timeout
timeout_bounds p h = ground arith

-- For every accepted discovery request the scan gets at least 0.75 seconds, and the wait around it is
-- longer than the scan and ends before the timeout of the request.
pub discovery_budget :
    (start : Envelope) {session t : ℕ}
    → discovery_request start ≡ ok (session, t)
    → (75 ≤ scan_time t) × (scan_time t < scan_wait t) × (scan_wait t < 100 * t)
unfolding discovery_request scan_time scan_wait
discovery_budget start {t = t} h =
    let bounds = timeout_bounds start.payload {t = t} (ground arith) in
    (omega (arith, bounds), omega arith, omega (arith, bounds))
