-- ===== src/Boundary/Commands/Replay.antt =====
-- The idempotency of light commands: one result for an idempotency key.
use linker.Prelude.{
  ℕ, ◌+◌, String, true, Option, none, some, ◌≡◌, ◌≢◌, refl, sym, ap, ◌∙◌, subst, List, [], ◌∷◌,
  string_Eq, arith, eq_iff,
}
use linker.Python.Exc.{Result, ok, err, ok-injective}
use linker.Python.Dict.{Dict, get, put, get-put_self}
use linker.Python.Uuid.{show_uuid}
use linker.Python.Value.{str}
use linker.Models.Light.{LightState}
use linker.Models.Identifier.{is_short_text, is_type_name}
use linker.Protocol
use linker.Protocol.{Envelope, Payload}
use linker.Driver.{VendorRgbDriver}
use linker.Boundary.{LinkerConfig, LinkerBoundary, Stamps, make_envelope}
use linker.Boundary.Commands.{
  journal_put, Metadata, metadata, result, rejected, applied, failed, execute, perform, finish,
  outcome, Operation, run_operation, operation_of, serve, locked, record_result, handle_command,
  is_command, is_registered,
}
use linker.Boundary.Commands.Effects.{
  SameLight, handle_command-SameLight, handle_command-journal, execute-journal,
}

-- A command that passes the checks in front of the lock, where `light` is registered.
pub record IsAccepted (c : Envelope) (light : Option String) : Type 0 where
  pub kind : is_command c.kind ≡ true
  pub correlated : c.correlation_id ≢ none
  pub well_formed : (metadata c light).error ≡ none
  pub registered : is_registered light (metadata c light).light_id ≡ true

-- The answer that `result` builds.
abbrev pub answer : {D : Type 0} → Stamps → Envelope → Payload → LinkerBoundary D → Envelope
answer stamps c p s = record {
  kind = "command.result";
  source = s.config.id;
  payload = p;
  id = stamps.uuid4 s.built;
  timestamp = stamps.now s.built;
  correlation_id = some c.id;
}

journal_put-fresh :
    (key : String) (v : Payload) (j : Dict String Payload)
    → get j key ≡ none
    → journal_put key v j ≡ put j key v
unfolding journal_put
journal_put-fresh key v j fresh = ground arith

module _ {D : Type 0} (drv : VendorRgbDriver D) (stamps : Stamps) where
  -- With a linker id that an envelope may carry, an answer is always built.
  pub result-answer :
      (c : Envelope) (p : Payload) (s : LinkerBoundary D)
      → is_short_text s.config.id ≡ true
      → result drv stamps c p s ≡ (ok (answer stamps c p s), record s { built = s.built + 1 })
  unfolding result make_envelope Protocol.new is_type_name
  result-answer c p s h = rw h

  -- An accepted command is served under the lock.
  handle_command-locked :
      (c : Envelope) (s : LinkerBoundary D)
      → IsAccepted c s.light_id
      → handle_command drv stamps c s ≡ locked drv stamps c (metadata c s.light_id) s
  unfolding handle_command
  handle_command-locked c s k = ground (arith, k)

  result-payload :
      (c : Envelope) (p : Payload) (s : LinkerBoundary D) {r : Envelope}
      → (result drv stamps c p s).0 ≡ ok r
      → r.payload ≡ p
  unfolding result make_envelope Protocol.new
  result-payload c p s h = ground arith

  outcome-command_id :
      (m : Metadata) (r : Result LightState) (p : Payload)
      → outcome drv stamps m r ≡ ok p
      → get p "command_id" ≡ some (str (show_uuid m.command_id))
  unfolding outcome applied failed
  outcome-command_id m (ok state) p h = ground arith
  outcome-command_id m (err e) p h = ground arith

  finish-command_id :
      (c : Envelope) (m : Metadata) (o : Result Payload) (s : LinkerBoundary D) {r : Envelope}
      → ((p : Payload) → o ≡ ok p → get p "command_id" ≡ some (str (show_uuid m.command_id)))
      → (finish drv stamps c o s).0 ≡ ok r
      → get r.payload "command_id" ≡ some (str (show_uuid m.command_id))
  unfolding finish
  finish-command_id c m (ok p) s named h = rw (result-payload c p s h) (named p refl)
  finish-command_id c m (err e) s named h = cc

  -- Every result of a command that ran names its command.
  perform-command_id :
      (c : Envelope) (m : Metadata) (o : Result Operation) (s : LinkerBoundary D) {r : Envelope}
      → (perform drv stamps c m o s).0 ≡ ok r
      → get r.payload "command_id" ≡ some (str (show_uuid m.command_id))
  unfolding perform rejected
  perform-command_id c m (err e) s h = rw (result-payload c _ s h) refl
  perform-command_id c m (ok op) s h =
      let (r, d) = run_operation drv stamps op s.device_id s.driver in
      finish-command_id c m (outcome drv stamps m r) (record s { driver = d })
        (outcome-command_id m r) h

  record_result-fresh :
      (key : String) (run : Result Envelope × LinkerBoundary D) {r : Envelope}
      → get run.1.journal key ≡ none
      → (record_result key run).0 ≡ ok r
      → (run.0 ≡ ok r) × (get (record_result key run).1.journal key ≡ some r.payload)
  unfolding record_result
  record_result-fresh key (ok e, s) {r} fresh h =
      let same : e ≡ r = ok-injective h in
      (
        h,
        rw (journal_put-fresh key e.payload s.journal fresh)
            (get-put_self s.journal key e.payload ∙ ap (λ (x : Envelope). some x.payload) same),
      )
  record_result-fresh key (err e, s) fresh h = cc

  -- One command after the other.
  pub handle_all : List Envelope → LinkerBoundary D → LinkerBoundary D
  handle_all [] s = s
  handle_all (c ∷ cs) s = handle_all cs (handle_command drv stamps c s).1

  handle_all-SameLight : (cs : List Envelope) (s : LinkerBoundary D) → SameLight s (handle_all cs s)
  unfolding handle_all
  handle_all-SameLight [] s = record {
    config = refl;
    light_id = refl;
    device_id = refl;
    descriptor = refl;
  }
  handle_all-SameLight (c ∷ cs) s =
      let one = handle_command-SameLight drv stamps c s in
      let rest = handle_all-SameLight cs (handle_command drv stamps c s).1 in
      record {
        config = rest.config ∙ one.config;
        light_id = rest.light_id ∙ one.light_id;
        device_id = rest.device_id ∙ one.device_id;
        descriptor = rest.descriptor ∙ one.descriptor;
      }

  handle_all-journal :
      (cs : List Envelope) (s : LinkerBoundary D) (k : String) (p : Payload)
      → get s.journal k ≡ some p
      → get (handle_all cs s).journal k ≡ some p
  unfolding handle_all
  handle_all-journal [] s k p h = h
  handle_all-journal (c ∷ cs) s k p h =
      handle_all-journal cs (handle_command drv stamps c s).1 k p
        (handle_command-journal drv stamps c s k p h)

  -- A repeated command is answered from the journal.
  serve-cached :
      (c : Envelope) (m : Metadata) (p : Payload) (s : LinkerBoundary D)
      → is_short_text s.config.id ≡ true
      → get p "command_id" ≡ some (str (show_uuid m.command_id))
      → serve drv stamps c m (some p) s
        ≡ (ok (answer stamps c p s), record s { built = s.built + 1 })
  unfolding serve
  serve-cached c m p s short named =
      ground
        (arith, result-answer c p s short, eq_iff (show_uuid m.command_id) (show_uuid m.command_id))

  serve-conflict :
      (c : Envelope) (m : Metadata) (u : ℕ) (p : Payload) (s : LinkerBoundary D)
      → is_short_text s.config.id ≡ true
      → get p "command_id" ≡ some (str (show_uuid u))
      → show_uuid u ≢ show_uuid m.command_id
      → serve drv stamps c m (some p) s ≡ (
        ok (
            answer stamps c
              (rejected m.light_id m.command_id m.key "idempotency_conflict"
                "idempotency key belongs to another command")
              s),
        record s { built = s.built + 1 },
      )
  unfolding serve
  serve-conflict c m u p s short named other = ground (
    arith,
    result-answer c
        (rejected m.light_id m.command_id m.key "idempotency_conflict"
          "idempotency key belongs to another command")
        s short,
    eq_iff (show_uuid u) (show_uuid m.command_id),
  )

  -- What the first run has left in the journal, after any commands behind it.
  recorded_later :
      (first : Envelope) (between : List Envelope) (s : LinkerBoundary D) (r : Envelope)
      → IsAccepted first s.light_id
      → get s.journal (metadata first s.light_id).key ≡ none
      → (handle_command drv stamps first s).0 ≡ ok r
      → (get r.payload "command_id" ≡ some (str (show_uuid (metadata first s.light_id).command_id)))
        × (get (handle_all (first ∷ between) s).journal (metadata first s.light_id).key
            ≡ some r.payload)
  unfolding handle_all locked serve execute
  recorded_later first between s r accepted fresh returned =
      let m = metadata first s.light_id in
      let step =
        handle_command-locked first s accepted ∙ ap (λ o. serve drv stamps first m o s) fresh in
      let (ran, kept) =
        record_result-fresh m.key (execute drv stamps first m s) (rw execute-journal fresh)
          (ap (λ (x : Result Envelope × LinkerBoundary D). x.0) (sym step) ∙ returned) in
      (
        perform-command_id first m (operation_of first) s ran,
        handle_all-journal between (handle_command drv stamps first s).1 m.key r.payload
            (ap (λ (x : Result Envelope × LinkerBoundary D). get x.1.journal m.key) step ∙ kept),
      )

  -- The second command finds the recorded result.
  second_served :
      (first second : Envelope) (between : List Envelope) (s : LinkerBoundary D) (r : Envelope)
      → IsAccepted first s.light_id
      → IsAccepted second s.light_id
      → get s.journal (metadata first s.light_id).key ≡ none
      → (handle_command drv stamps first s).0 ≡ ok r
      → (metadata second s.light_id).key ≡ (metadata first s.light_id).key
      → handle_command drv stamps second (handle_all (first ∷ between) s)
        ≡ serve drv stamps second
            (metadata second s.light_id)
            (some r.payload)
            (handle_all (first ∷ between) s)
  unfolding locked
  second_served first second between s r accepted again fresh returned same_key =
      let t = handle_all (first ∷ between) s in
      let light = (handle_all-SameLight (first ∷ between) s).light_id in
      let m = metadata second s.light_id in
      let kept = (recorded_later first between s r accepted fresh returned).1 in
      handle_command-locked second t (subst (λ l. IsAccepted second l) (sym light) again)
      ∙ ap (λ l. locked drv stamps second (metadata second l) t) light
      ∙ ap (λ o. serve drv stamps second m o t) (ap (λ k. get t.journal k) same_key ∙ kept)

  -- Let a first command be accepted, find no result under its idempotency key, and return a result; let
  -- the linker id have 1 to 128 characters. Then, however many commands come between, a second accepted
  -- command with that key and that command id is answered with the first one's result: the driver is not
  -- called, the journal stays, and only the count of envelopes changes.
  pub handle_command-replay :
      (first second : Envelope) (between : List Envelope) (s : LinkerBoundary D) (r : Envelope)
      → is_short_text s.config.id ≡ true
      → IsAccepted first s.light_id
      → IsAccepted second s.light_id
      → get s.journal (metadata first s.light_id).key ≡ none
      → (handle_command drv stamps first s).0 ≡ ok r
      → (metadata second s.light_id).key ≡ (metadata first s.light_id).key
      → (metadata second s.light_id).command_id ≡ (metadata first s.light_id).command_id
      → let t = handle_all (first ∷ between) s in
        handle_command drv stamps second t
        ≡ (ok (answer stamps second r.payload t), record t { built = t.built + 1 })
  handle_command-replay first second between s r short accepted again fresh returned same_key
        same_id =
      let t = handle_all (first ∷ between) s in
      let same = handle_all-SameLight (first ∷ between) s in
      let m = metadata second s.light_id in
      let named = (recorded_later first between s r accepted fresh returned).0 in
      second_served first second between s r accepted again fresh returned same_key
      ∙ serve-cached second m r.payload t
          (ap (λ (c : LinkerConfig). is_short_text c.id) same.config ∙ short)
          (named ∙ ap (λ u. some (str (show_uuid u))) (sym same_id))

  -- Let a first command be accepted, find no result under its idempotency key, and return a result; let
  -- the linker id have 1 to 128 characters. Then, however many commands come between, a second accepted
  -- command with that key, whose command id is written differently, is rejected as an idempotency
  -- conflict: the driver is not called, and the journal stays.
  pub handle_command-conflict :
      (first second : Envelope) (between : List Envelope) (s : LinkerBoundary D) (r : Envelope)
      → is_short_text s.config.id ≡ true
      → IsAccepted first s.light_id
      → IsAccepted second s.light_id
      → get s.journal (metadata first s.light_id).key ≡ none
      → (handle_command drv stamps first s).0 ≡ ok r
      → (metadata second s.light_id).key ≡ (metadata first s.light_id).key
      → show_uuid (metadata first s.light_id).command_id
        ≢ show_uuid (metadata second s.light_id).command_id
      → let t = handle_all (first ∷ between) s in
        let m = metadata second s.light_id in
        handle_command drv stamps second t ≡ (
          ok (
              answer stamps second
                (rejected m.light_id m.command_id m.key "idempotency_conflict"
                  "idempotency key belongs to another command")
                t),
          record t { built = t.built + 1 },
        )
  handle_command-conflict first second between s r short accepted again fresh returned same_key
        other =
      let t = handle_all (first ∷ between) s in
      let same = handle_all-SameLight (first ∷ between) s in
      let m = metadata second s.light_id in
      let named = (recorded_later first between s r accepted fresh returned).0 in
      second_served first second between s r accepted again fresh returned same_key
      ∙ serve-conflict second m (metadata first s.light_id).command_id r.payload t
          (ap (λ (c : LinkerConfig). is_short_text c.id) same.config ∙ short) named other
