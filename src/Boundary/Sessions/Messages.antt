-- ===== src/Boundary/Sessions/Messages.antt =====
-- The messages that answer a discovery session.
use linker.Prelude.{
  ℕ, String, Option, none, some, ◌≡◌, List, [], ◌∷◌, ◌++◌, string_Eq, subst, arith,
}
use linker.Python.Exc.{Exc, Result, ok, err, ok-injective}
use linker.Models.Descriptor.{DiscoveryCandidate, candidate_payload}
use linker.Python.Uuid.{show_uuid}
use linker.Python.Value.{str}
use linker.Protocol
use linker.Protocol.{Envelope, Payload}
use linker.Driver.{VendorRgbDriver}
use linker.Boundary.{LinkerBoundary, Stamps, pure, make_envelope, ◌>>=◌, >>=-eq-ok}
use linker.Boundary.Sessions.{
  discovery_failure, failed_discovery, completed_payload, discovery_completed, candidate_messages,
  discovery_messages, handle_discovery,
}

-- The messages of one session: candidates, and one completion at the end, each in answer to `id`.
pub data IsSession (id : ℕ) : List Envelope → Type 0 where
  completed :
      (m : Envelope)
      → m.kind ≡ "discovery.completed"
      → m.correlation_id ≡ some id
      → IsSession id (m ∷ [])
  candidate :
      (m : Envelope) (ms : List Envelope)
      → m.kind ≡ "discovery.candidate"
      → m.correlation_id ≡ some id
      → IsSession id ms
      → IsSession id (m ∷ ms)

make_envelope-eq-ok :
    {D : Type 0} (stamps : Stamps) (kind : String) (c : Option ℕ) (p : Payload)
    (s : LinkerBoundary D) {m : Envelope}
    → (make_envelope stamps kind c p s).0 ≡ ok m
    → (m.kind ≡ kind) × (m.correlation_id ≡ c)
unfolding make_envelope Protocol.new
make_envelope-eq-ok stamps kind c p s h = ground arith

module _ {D : Type 0} (drv : VendorRgbDriver D) (stamps : Stamps) (start : Envelope) where
  completed-IsSession :
      (session : ℕ) (status : String) (error : Option String) (s : LinkerBoundary D) {m : Envelope}
      → (discovery_completed drv stamps start session status error s).0 ≡ ok m
      → IsSession start.id (m ∷ [])
  unfolding discovery_completed
  completed-IsSession session status error s {m = m} h =
      let (kind, same) =
        make_envelope-eq-ok stamps "discovery.completed" (some start.id)
          (completed_payload session status error) s h in
      completed m kind same

  failed-IsSession :
      (session : ℕ) (e : Exc) (text : Option String) (s : LinkerBoundary D) {ms : List Envelope}
      → (failed_discovery drv stamps start session e text s).0 ≡ ok ms
      → IsSession start.id ms
  unfolding failed_discovery
  failed-IsSession session e none s h = cc
  failed-IsSession session e (some text) s h =
      let (m, built, q) =
        >>=-eq-ok (discovery_completed drv stamps start session "failed" (some text))
          (λ m. pure (m ∷ [])) s h in
      subst (λ ms. IsSession start.id ms) (ok-injective q)
        (completed-IsSession session "failed" (some text) s built)

  candidates-IsSession :
      (session : ℕ) (cs : List DiscoveryCandidate) (s : LinkerBoundary D)
      {front back : List Envelope}
      → (candidate_messages drv stamps start session cs s).0 ≡ ok front
      → IsSession start.id back
      → IsSession start.id (front ++ back)
  unfolding candidate_messages
  candidates-IsSession session [] s {back = back} h k =
      subst (λ ms. IsSession start.id (ms ++ back)) (ok-injective h) k
  candidates-IsSession session (c ∷ cs) s {back = back} h k =
      let payload = ("session_id", str (show_uuid session)) ∷ candidate_payload c in
      let (m, built, q) =
        >>=-eq-ok (make_envelope stamps "discovery.candidate" (some start.id) payload)
          (λ m. candidate_messages drv stamps start session cs >>= λ ms. pure (m ∷ ms)) s h in
      let s' = (make_envelope stamps "discovery.candidate" (some start.id) payload s).1 in
      let (ms, rest, r) =
        >>=-eq-ok (candidate_messages drv stamps start session cs) (λ ms. pure (m ∷ ms)) s' q in
      let (kind, same) =
        make_envelope-eq-ok stamps "discovery.candidate" (some start.id) payload s built in
      subst (λ ms. IsSession start.id (ms ++ back)) (ok-injective r)
        (candidate m (ms ++ back) kind same (candidates-IsSession session cs s' rest k))

  messages-IsSession :
      (session : ℕ) (found : Result (List DiscoveryCandidate)) (s : LinkerBoundary D)
      {ms : List Envelope}
      → (discovery_messages drv stamps start session found s).0 ≡ ok ms
      → IsSession start.id ms
  unfolding discovery_messages
  messages-IsSession session (ok cs) s h =
      let (front, built, q) =
        >>=-eq-ok (candidate_messages drv stamps start session cs)
          (λ ms. discovery_completed drv stamps start session "completed" none >>= λ done.
            pure (ms ++ (done ∷ [])))
          s h in
      let s' = (candidate_messages drv stamps start session cs s).1 in
      let (done, closed, r) =
        >>=-eq-ok (discovery_completed drv stamps start session "completed" none)
          (λ done. pure (front ++ (done ∷ []))) s' q in
      let last = completed-IsSession session "completed" none s' closed in
      subst (λ ms. IsSession start.id ms) (ok-injective r)
        (candidates-IsSession session cs s built last)
  messages-IsSession session (err e) s h = failed-IsSession session e (discovery_failure e) s h

  -- In whatever way a scan ends: if a discovery session is answered, the answer has candidates and then
  -- one completion, each correlated with the message that started it.
  pub handle_discovery-IsSession :
      (s : LinkerBoundary D) {ms : List Envelope}
      → (handle_discovery drv stamps start s).0 ≡ ok ms
      → IsSession start.id ms
  unfolding handle_discovery
  handle_discovery-IsSession s h = grind (arith, messages-IsSession)
