-- ===== src/Tuya/Local/Exchange/Failures.antt =====
-- How `_exchange` fails.
use linker.Prelude.{
  ℕ, ◌≤◌, zero, suc, String, Bool, true, false, Option, none, some, ◌≡◌, refl, sym, ap, ◌∙◌, ◌⊎◌,
  inl, inr, List, [], subst, pos, arith, if◌then◌else◌,
}
use linker.Python.Exc.{Exc, Result, ok, err, err-injective, message, connection_error}
use linker.Python.Action.{then_call, modify, raise, ◌>>◌}
use linker.Python.Text.{concat}
use linker.Tuya.Config.{TuyaDeviceConfig}
use linker.Tuya.Local.{
  Outside, TuyaLocalDriver, Io, device, required, no_device, reset, disconnect, close, tick,
}
use linker.Tuya.Local.Exchange.{
  is_retried, attempt, attempt_count, attempts, after_attempt, recover, pause, exchange,
}
use linker.Tuya.Local.Closing.{ClosesQuietly, after_disconnect}

-- Nothing is left of the connection, and no request waits.
pub record IsDisconnected (s : TuyaLocalDriver) : Type 0 where
  pub no_writer : s.writer ≡ none
  pub no_reader : s.reader_task ≡ none
  pub no_session : s.session_key ≡ none
  pub no_pending : s.pending ≡ []

close-IsDisconnected :
    (out : Outside) (w : Option Bool) (s : TuyaLocalDriver)
    → IsDisconnected s
    → IsDisconnected (close out w s).1
close-IsDisconnected out none s h = h
close-IsDisconnected out (some closing) s h = ground arith

pub disconnect-IsDisconnected :
    (out : Outside) (s : TuyaLocalDriver) → IsDisconnected (disconnect out s).1
unfolding disconnect reset
disconnect-IsDisconnected out s = close-IsDisconnected out s.writer (reset s) (ground arith)

pause-IsDisconnected :
    (n left : ℕ) (s : TuyaLocalDriver) → IsDisconnected s → IsDisconnected (pause n left s)
pause-IsDisconnected n zero s h = h
pause-IsDisconnected n (suc left) s h = ground arith

-- The error of an exchange that is over.
abbrev pub IsFailed : Exc → TuyaLocalDriver → Type 0
IsFailed e t =
    (is_retried e ≡ false)
    ⊎ ((text : String) × (e ≡ connection_error (concat "Tuya exchange failed: " text))
        × IsDisconnected t)

abbrev FailsOnly : Result (List ℕ) × TuyaLocalDriver → Type 0
FailsOnly (ok payload, t) = Unit
FailsOnly (err e, t) = IsFailed e t

FailsOnly-if :
    (b : Bool) (m n : Io (List ℕ)) (t : TuyaLocalDriver)
    → (b ≡ true → FailsOnly (m t))
    → (b ≡ false → FailsOnly (n t))
    → FailsOnly ((if b then m else n) t)
FailsOnly-if true m n t on off = on refl
FailsOnly-if false m n t on off = off refl

-- The handler returns, with the connection closed.
abbrev recovered : Outside → ℕ → ℕ → Exc → TuyaLocalDriver → TuyaLocalDriver
recovered out n left e t =
    pause n left (disconnect out (record t { last_error = some (message e) })).1

recover-recovered :
    (out : Outside) (n left : ℕ) (e : Exc) (t : TuyaLocalDriver)
    → ClosesQuietly out
    → recover out n left e t ≡ (ok tt, recovered out n left e t)
unfolding recover
recover-recovered out n left e t quiet =
    after_disconnect out (record t { last_error = some (message e) }) (modify (pause n left)) quiet

after_attempt-FailsOnly :
    (out : Outside) (n left : ℕ) (rest : String → Io (List ℕ))
    (r : Result (List ℕ) × TuyaLocalDriver)
    → ClosesQuietly out
    → ((text : String) (s : TuyaLocalDriver) → IsDisconnected s → FailsOnly (rest text s))
    → FailsOnly (after_attempt out n left rest r)
unfolding after_attempt
after_attempt-FailsOnly out n left rest (ok payload, t) quiet later = tt
after_attempt-FailsOnly out n left rest (err e, t) quiet later =
    FailsOnly-if (is_retried e) (recover out n left e >> rest (message e)) (raise e) t
      (λ caught.
        subst FailsOnly
          (sym (ap (then_call λ _. rest (message e)) (recover-recovered out n left e t quiet)))
          (later (message e) (recovered out n left e t) (
            pause-IsDisconnected n left
              (disconnect out (record t { last_error = some (message e) })).1
              (disconnect-IsDisconnected out (record t { last_error = some (message e) })))))
      (λ passed. inl passed)

module _ (out : Outside) (d : TuyaDeviceConfig) (command : ℕ) (clear : List ℕ) where
  attempts-FailsOnly :
      (left n : ℕ) (last : String) (s : TuyaLocalDriver)
      → ClosesQuietly out
      → IsDisconnected s ⊎ (1 ≤ left)
      → FailsOnly (attempts out d command clear left n last s)
  unfolding attempts
  attempts-FailsOnly zero n last s quiet (inl gone) = inr (last, refl, gone)
  attempts-FailsOnly zero n last s quiet (inr none_left) = absurd (omega arith)
  attempts-FailsOnly (suc left) n last s quiet h =
      after_attempt-FailsOnly out n left (attempts out d command clear left (suc n))
        (attempt out d command clear s) quiet
        (λ text t gone. attempts-FailsOnly left (suc n) text t quiet (inl gone))

FailsOnly-at :
    (r : Result (List ℕ) × TuyaLocalDriver) (e : Exc) → FailsOnly r → r.0 ≡ err e → IsFailed e r.1
FailsOnly-at (ok payload, t) e h same = cc
FailsOnly-at (err x, t) e h same = subst (λ x. IsFailed x t) (err-injective same) h

exchange-FailsOnly :
    (out : Outside) (command : ℕ) (clear : List ℕ) (s : TuyaLocalDriver) (d : TuyaDeviceConfig)
    (retries : ℕ)
    → ClosesQuietly out
    → s.device ≡ some d
    → d.retries ≡ pos retries
    → FailsOnly (exchange out command clear s)
unfolding exchange device
exchange-FailsOnly out command clear s d retries quiet own count =
    let tried =
      λ (c : TuyaDeviceConfig). attempts out c command clear (attempt_count c.retries) 0 "None" in
    let enough : 1 ≤ attempt_count d.retries = rw count (omega arith) in
    subst (λ o. FailsOnly (then_call tried (required o no_device, s))) (sym own)
      (attempts-FailsOnly out d command clear (attempt_count d.retries) 0 "None" s quiet
        (inr enough))

-- If closing a connection never raises: an exchange that fails raises an exception of a class that it does
-- not catch, or a ConnectionError of its own after its last attempt. Then the connection is closed, no
-- session key is left, and no request waits for an answer.
pub exchange-IsFailed :
    (out : Outside) (command : ℕ) (clear : List ℕ) (s : TuyaLocalDriver) (d : TuyaDeviceConfig)
    (retries : ℕ) (e : Exc)
    → ClosesQuietly out
    → s.device ≡ some d
    → d.retries ≡ pos retries
    → (exchange out command clear s).0 ≡ err e
    → IsFailed e (exchange out command clear s).1
exchange-IsFailed out command clear s d retries e quiet own count h =
    FailsOnly-at (exchange out command clear s) e
      (exchange-FailsOnly out command clear s d retries quiet own count) h

raised_by_close :
    (out : Outside) (n left : ℕ) (rest : String → Io (List ℕ))
    (r : Result (List ℕ) × TuyaLocalDriver) (e x : Exc) (w : Bool)
    → ((k : ℕ) → out.wait_closed k ≡ err x)
    → r.0 ≡ err e
    → is_retried e ≡ true
    → r.1.writer ≡ some w
    → (after_attempt out n left rest r).0 ≡ err x
unfolding after_attempt recover disconnect reset
raised_by_close out n left rest (ok payload, t) e x w raises h caught there = cc
raised_by_close out n left rest (err f, t) e x w raises h caught there =
    let t' = record t { last_error = some (message f) } in
    let retried : is_retried f ≡ true = ap is_retried (err-injective h) ∙ caught in
    let closing : close out t.writer (reset t') ≡ (err x, tick (reset t')) =
      ap (λ o. close out o (reset t')) there ∙ ap (λ r. (r, tick (reset t'))) (raises t'.ticks) in
    ap (λ b. ((if b then recover out n left f >> rest (message f) else raise f) t).0) retried
    ∙ ap (λ r. (then_call (λ _. rest (message f)) (then_call (λ _. modify (pause n left)) r)).0)
        closing

-- If closing a connection raises whenever it is asked to: when the first attempt of an exchange fails with an
-- exception that the loop catches, while its connection is there, the exchange raises what closing raised. No
-- attempt follows, however many retries the device has.
pub exchange-raised_by_close :
    (out : Outside) (command : ℕ) (clear : List ℕ) (s : TuyaLocalDriver) (d : TuyaDeviceConfig)
    (retries : ℕ) (e x : Exc) (w : Bool)
    → ((k : ℕ) → out.wait_closed k ≡ err x)
    → s.device ≡ some d
    → d.retries ≡ pos retries
    → (attempt out d command clear s).0 ≡ err e
    → is_retried e ≡ true
    → (attempt out d command clear s).1.writer ≡ some w
    → (exchange out command clear s).0 ≡ err x
unfolding exchange device attempts
exchange-raised_by_close out command clear s d retries e x w raises own count failed caught there =
    let tried =
      λ (c : TuyaDeviceConfig). attempts out c command clear (attempt_count c.retries) 0 "None" in
    ap (λ o. (then_call tried (required o no_device, s)).0) own
    ∙ ap (λ c. (attempts out d command clear (attempt_count c) 0 "None" s).0) count
    ∙ raised_by_close out 0 retries (attempts out d command clear retries 1)
        (attempt out d command clear s) e x w raises failed caught there
