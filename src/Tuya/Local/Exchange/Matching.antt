-- ===== src/Tuya/Local/Exchange/Matching.antt =====
-- The answer that a request gets is its own.
use linker.Prelude.{
  some-injective, ℕ, String, ◌⊎◌, Bool, true, false, Option, none, some, Bool-cases, inl, inr, ◌≡◌,
  refl, subst, List, [], ◌∷◌, nat_Eq, nat_eq, nat_eq_iff, if◌then◌else◌, arith,
}
use linker.Python.Exc.{Exc, Result, ok, err, cancelled, connection_error, message}
use linker.Python.Action.{
  Keeps, Keeps-cases, Keeps-inspect, Keeps-lift, Keeps-Returned, Returned, modify, lift,
  keeps_rules,
}
use linker.Python.Dict.{Dict, get, put, remove, contains, get-put}
use linker.Tuya.Config.{TuyaDeviceConfig}
use linker.Tuya.Frame.{TuyaFrame}
use linker.Tuya.Payload.{command_status, or_key}
use linker.Tuya.Local.{
  Outside, Arrival, TuyaLocalDriver, Io, outside_call, device, settle, settle_all, is_reading,
}
use linker.Tuya.Local.Reader.{
  pop_future, deliver, handle_status, take_frame, read_one, fail_pending, end_loop, reader_step,
}
use linker.Tuya.Local.Reader.Statuses.{OfRequests, Keeps-device, Keeps-handle_status}
use linker.Tuya.Local.Link.{record_sent, write, read_arrival, key_bytes}
use linker.Tuya.Local.Exchange.{await_future, await_done, give_up, send}

-- An answer to a request: with its sequence number, no status report, and among the frames `G`.
abbrev pub IsAnswer : (TuyaFrame → Type 0) → ℕ → Result TuyaFrame → Type 0
IsAnswer G sequence (ok frame) =
    (frame.sequence ≡ sequence) × (nat_eq frame.command command_status ≡ false) × G frame
IsAnswer G sequence (err e) = Unit

-- A frame is read from one of the arrivals.
abbrev pub IsRead : Outside → String → List ℕ → List Arrival → TuyaFrame → Type 0
IsRead out version key [] frame = ⊥
IsRead out version key (a ∷ arrivals) frame =
    (read_arrival out version key a ≡ ok frame) ⊎ IsRead out version key arrivals frame

-- The future stands in the table under this sequence number only.
abbrev pub IsSole : ℕ → ℕ → Dict ℕ ℕ → Type 0
IsSole sequence future [] = Unit
IsSole sequence future ((k, f) ∷ pending) =
    (f ≡ future → k ≡ sequence) × IsSole sequence future pending

-- The future of a request to a device in a session, before and after it is done.
pub record Owns (G : TuyaFrame → Type 0) (d : TuyaDeviceConfig) (key : Option (List ℕ))
    (sequence future : ℕ) (device : Option TuyaDeviceConfig) (session_key : Option (List ℕ))
    (pending : Dict ℕ ℕ) (futures : Dict ℕ (Result TuyaFrame)) : Type 0 where
  pub same_device : device ≡ some d
  pub same_key : session_key ≡ key
  pub sole : IsSole sequence future pending
  pub answered : (o : Result TuyaFrame) → get futures future ≡ some o → IsAnswer G sequence o

pub IsSole-remove :
    (sequence future k : ℕ) (pending : Dict ℕ ℕ)
    → IsSole sequence future pending
    → IsSole sequence future (remove pending k)
IsSole-remove sequence future k [] h = tt
IsSole-remove sequence future k ((j, f) ∷ pending) h =
    ground (arith, IsSole-remove sequence future k pending h.1)

pub IsSole-get :
    (sequence future k f : ℕ) (pending : Dict ℕ ℕ)
    → IsSole sequence future pending
    → get pending k ≡ some f
    → f ≡ future
    → k ≡ sequence
IsSole-get sequence future k f [] h e same = cc
IsSole-get sequence future k f ((j, g) ∷ pending) h e same =
    ground (arith, h.0, nat_eq_iff j k, IsSole-get sequence future k f pending h.1)

module _ (G : TuyaFrame → Type 0) (d : TuyaDeviceConfig) (key : Option (List ℕ))
    (sequence future : ℕ) where
  -- What holds of the driver while the request waits.
  abbrev pub Waiting : TuyaLocalDriver → Type 0
  Waiting = OfRequests (Owns G d key sequence future)

  answered-put :
      (f : ℕ) (outcome : Result TuyaFrame) (futures : Dict ℕ (Result TuyaFrame))
      → ((o : Result TuyaFrame) → get futures future ≡ some o → IsAnswer G sequence o)
      → (f ≡ future → IsAnswer G sequence outcome)
      → (o : Result TuyaFrame) → get (put futures f outcome) future ≡ some o
      → IsAnswer G sequence o
  answered-put f outcome futures h own o e = elim (Bool-cases (nat_eq f future)) [
    | inl same ↦
        let is_new : some outcome ≡ some o =
          ground (arith, same, e, get-put futures f future outcome) in
        subst (IsAnswer G sequence) (some-injective is_new) (own ((nat_eq_iff f future).0 same))
    | inr other ↦ h o (ground (arith, other, e, get-put futures f future outcome))
  ]

  -- Another outcome of a future that is its own answer or an error.
  answered-settle :
      (f : ℕ) (outcome : Result TuyaFrame) (futures : Dict ℕ (Result TuyaFrame))
      → ((o : Result TuyaFrame) → get futures future ≡ some o → IsAnswer G sequence o)
      → (f ≡ future → IsAnswer G sequence outcome)
      → (o : Result TuyaFrame) → get (settle f outcome futures) future ≡ some o
      → IsAnswer G sequence o
  answered-settle f outcome futures h own o e = elim (Bool-cases (contains futures f)) [
    | inl done ↦ h o (ground (arith, done, e))
    | inr new ↦ answered-put f outcome futures h own o (ground (arith, new, e))
  ]

  answered-settle_all :
      (pending : Dict ℕ ℕ) (x : Exc) (futures : Dict ℕ (Result TuyaFrame))
      → ((o : Result TuyaFrame) → get futures future ≡ some o → IsAnswer G sequence o)
      → (o : Result TuyaFrame) → get (settle_all pending x futures) future ≡ some o
      → IsAnswer G sequence o
  unfolding settle_all
  answered-settle_all [] x futures h o e = h o e
  answered-settle_all ((k, f) ∷ pending) x futures h o e =
      answered-settle_all pending x (settle f (err x) futures)
        (answered-settle f (err x) futures h (λ _. tt)) o e

  Own-pop_future :
      (frame : TuyaFrame) (s : TuyaLocalDriver) (found : Option ℕ)
      → nat_eq frame.command command_status ≡ false
      → G frame
      → get s.pending frame.sequence ≡ found
      → Waiting s
      → Waiting (pop_future frame.sequence frame s found)
  Own-pop_future frame s none plain good e h = h
  Own-pop_future frame s (some f) plain good e h = record {
    same_device = h.same_device;
    same_key = h.same_key;
    sole = IsSole-remove sequence future frame.sequence s.pending h.sole;
    answered = answered-settle f (ok frame) s.futures h.answered (λ same.
        (IsSole-get sequence future frame.sequence f s.pending h.sole e same, plain, good));
  }

  Keeps-take_frame :
      (out : Outside) (frame : TuyaFrame) → G frame → Keeps Waiting (take_frame out frame)
  unfolding take_frame deliver
  Keeps-take_frame out frame good =
      Keeps-cases (nat_eq frame.command command_status) (handle_status out frame)
        (modify (deliver frame))
        (λ report. Keeps-handle_status (Owns G d key sequence future) out frame)
        (λ plain. record {
          after = λ s h. Own-pop_future frame s (get s.pending frame.sequence) plain good refl h;
        })

  -- What the reader reads of an arrival is among the frames.
  abbrev Reads : Outside → Arrival → Type 0
  Reads out a =
      (frame : TuyaFrame)
      → read_arrival out d.protocol_version (or_key key (key_bytes d)) a ≡ ok frame
      → G frame

  device-own : (c : TuyaDeviceConfig) → Returned Waiting device c → c ≡ d
  unfolding device
  device-own c (s, h, returned) = ground (arith, h.same_device, returned)

  Keeps-read_one : (out : Outside) (a : Arrival) → Reads out a → Keeps Waiting (read_one out a)
  unfolding read_one
  Keeps-read_one out a reads = Keeps-inspect _ λ s h.
      Keeps-Returned device _ (Keeps-device (Owns G d key sequence future)) λ c of_device.
        let read =
          lift (read_arrival out c.protocol_version (or_key s.session_key (key_bytes c)) a) in
        Keeps-Returned read (take_frame out) (Keeps-lift _) λ frame (t, _, returned).
          Keeps-take_frame out frame (
            reads frame (
              subst
                (λ (c : TuyaDeviceConfig).
                  read_arrival out c.protocol_version (or_key key (key_bytes c)) a ≡ ok frame)
                (device-own c of_device)
                (subst
                  (λ k. read_arrival out c.protocol_version (or_key k (key_bytes c)) a ≡ ok frame)
                  h.same_key returned)))

  Own-end_loop : (r : Result (Unit {0}) × TuyaLocalDriver) → Waiting r.1 → Waiting (end_loop r)
  unfolding end_loop fail_pending
  Own-end_loop (ok u, s) h = h
  Own-end_loop (err cancelled, s) h = h
  Own-end_loop (err e, s) h = record {
    same_device = h.same_device;
    same_key = h.same_key;
    sole = tt;
    answered = answered-settle_all s.pending (connection_error (message e)) s.futures h.answered;
  }

  Own-if : (b : Bool) (s t : TuyaLocalDriver) → Waiting s → Waiting t → Waiting (if b then s else t)
  Own-if true s t hs ht = hs
  Own-if false s t hs ht = ht

  Own-reader_step :
      (out : Outside) (a : Arrival) (s : TuyaLocalDriver)
      → Reads out a
      → Waiting s
      → Waiting (reader_step out a s)
  unfolding reader_step
  Own-reader_step out a s reads h =
      let read = end_loop (read_one out a s) in
      let done = record s { reader_task = some true } in
      Own-if (is_reading s) (if s.has_reader then read else done) s
        (Own-if s.has_reader read done
          (Own-end_loop (read_one out a s) ((Keeps-read_one out a reads).after s h)) h)
        h

  -- The outcome of the wait, and the driver behind it.
  abbrev pub IsAwaited : Result TuyaFrame × TuyaLocalDriver → Type 0
  IsAwaited r = ((f : TuyaFrame) → r.0 ≡ ok f → IsAnswer G sequence (ok f)) × Waiting r.1

  await_done-IsAwaited :
      (found : Option (Result TuyaFrame)) (rest : Io TuyaFrame) (t : TuyaLocalDriver)
      → ((o : Result TuyaFrame) → found ≡ some o → IsAnswer G sequence o)
      → Waiting t
      → IsAwaited (rest t)
      → IsAwaited (await_done found rest t)
  await_done-IsAwaited none rest t own h later = later
  await_done-IsAwaited (some outcome) rest t own h later =
      ((λ f e. subst (IsAnswer G sequence) e (own outcome refl)), h)

  Own-give_up : (s : TuyaLocalDriver) → Waiting s → Waiting (give_up future s)
  Own-give_up s h = record {
    same_device = h.same_device;
    same_key = h.same_key;
    sole = h.sole;
    answered = answered-settle future (err cancelled) s.futures h.answered (λ _. tt);
  }

  pub await_future-IsAwaited :
      (out : Outside) (arrivals : List Arrival) (s : TuyaLocalDriver)
      → ((frame : TuyaFrame)
          → IsRead out d.protocol_version (or_key key (key_bytes d)) arrivals frame
          → G frame)
      → Waiting s
      → IsAwaited (await_future out future arrivals s)
  unfolding await_future
  await_future-IsAwaited out [] s reads h = ((λ f e. cc), Own-give_up s h)
  await_future-IsAwaited out (a ∷ arrivals) s reads h =
      let t = reader_step out a s in
      let own = Own-reader_step out a s (λ frame r. reads frame (inl r)) h in
      await_done-IsAwaited (get t.futures future) (await_future out future arrivals) t own.answered
        own (await_future-IsAwaited out arrivals t (λ frame r. reads frame (inr r)) own)

  Keeps-sent : (frame : List ℕ) → Keeps (Waiting) (modify (record_sent frame))
  Keeps-sent frame = record { after = λ s h. h }

  Keeps-outside_call : {A : Type 0} (f : ℕ → Result A) → Keeps (Waiting) (outside_call f)
  Keeps-outside_call f = record { after = λ s h. h }

  pub Keeps-send :
      (out : Outside) (d : TuyaDeviceConfig) (command : ℕ) (clear : List ℕ) (q : ℕ)
      → Keeps (Waiting) (send out d command clear q)
  unfolding send write
  Keeps-send out d command clear q = search (keeps_rules, Keeps-sent, Keeps-outside_call) depth 16
