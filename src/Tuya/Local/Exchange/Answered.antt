-- ===== src/Tuya/Local/Exchange/Answered.antt =====
-- A request that the device answers returns the answer.
use linker.Prelude.{
  ℕ, ◌≢◌, true, false, String, Option, none, some, ◌≡◌, refl, sym, ap, ◌∙◌, subst, List, [], ◌∷◌,
  nat_Eq, nat_eq, nat_eq_iff, if◌then◌else◌, arith, inl, inr, Bool-cases,
}
use linker.Python.Exc.{Result, ok}
use linker.Python.Action.{Keeps, then_call, modify, lift, ◌>>=◌, keeps_rules}
use linker.Python.Dict.{Dict, get, remove, contains, get-put, get-put_self}
use linker.Tuya.Config.{TuyaDeviceConfig}
use linker.Tuya.Frame.{TuyaFrame}
use linker.Tuya.Payload.{command_status, or_key}
use linker.Tuya.Local.{
  Outside, Arrival, TuyaLocalDriver, outside_call, device, required, no_device, settle, is_reading,
}
use linker.Tuya.Local.Link.{record_sent, write, read_arrival, key_bytes}
use linker.Tuya.Local.Reader.{
  pop_future, deliver, handle_status, take_frame, read_one, end_loop, reader_step,
}
use linker.Tuya.Local.Exchange.{await_future, await_done, send}
use linker.Tuya.Local.Exchange.Matching.{IsSole, IsSole-get, IsSole-remove}

-- What arrives answers a request: answers to others, and then a frame with its sequence number.
pub data IsAnswered (out : Outside) (version : String) (key : List ℕ) (sequence : ℕ)
    (frame : TuyaFrame) : List Arrival → Type 0 where
  here :
      (a : Arrival) (arrivals : List Arrival)
      → read_arrival out version key a ≡ ok frame
      → nat_eq frame.command command_status ≡ false
      → frame.sequence ≡ sequence
      → IsAnswered out version key sequence frame (a ∷ arrivals)
  later :
      (a : Arrival) (arrivals : List Arrival) (other : TuyaFrame)
      → read_arrival out version key a ≡ ok other
      → nat_eq other.command command_status ≡ false
      → other.sequence ≢ sequence
      → IsAnswered out version key sequence frame arrivals
      → IsAnswered out version key sequence frame (a ∷ arrivals)

-- A request waits, with its future and with the reader at work.
pub record IsWaiting (d : TuyaDeviceConfig) (key : Option (List ℕ)) (sequence future : ℕ)
    (s : TuyaLocalDriver) : Type 0 where
  pub own : s.device ≡ some d
  pub reads : is_reading s ≡ true
  pub has : s.has_reader ≡ true
  pub keyed : s.session_key ≡ key
  pub waits : get s.pending sequence ≡ some future
  pub open_yet : get s.futures future ≡ none
  pub sole : IsSole sequence future s.pending

get-remove_other : (pending : Dict ℕ ℕ) (k j : ℕ) → k ≢ j → get (remove pending k) j ≡ get pending j
get-remove_other [] k j ne = refl
get-remove_other ((i, f) ∷ pending) k j ne =
    ground (arith, nat_eq_iff i k, nat_eq_iff i j, nat_eq_iff k j, get-remove_other pending k j ne)

get-settle_other :
    (f future : ℕ) (outcome : Result TuyaFrame) (futures : Dict ℕ (Result TuyaFrame))
    → f ≢ future
    → get (settle f outcome futures) future ≡ get futures future
get-settle_other f future outcome futures ne = elim (Bool-cases (contains futures f)) [
  | inl done ↦ ground (arith, done)
  | inr new ↦ ground (arith, new, get-put futures f future outcome, nat_eq_iff f future, ne)
]

get-settle_new :
    (future : ℕ) (outcome : Result TuyaFrame) (futures : Dict ℕ (Result TuyaFrame))
    → get futures future ≡ none
    → get (settle future outcome futures) future ≡ some outcome
get-settle_new future outcome futures e = ground (arith, e, get-put_self futures future outcome)

module _ (out : Outside) (d : TuyaDeviceConfig) (key : Option (List ℕ)) (sequence future : ℕ) where
  read_one-deliver :
      (a : Arrival) (s : TuyaLocalDriver) (frame : TuyaFrame)
      → IsWaiting d key sequence future s
      → read_arrival out d.protocol_version (or_key key (key_bytes d)) a ≡ ok frame
      → nat_eq frame.command command_status ≡ false
      → read_one out a s ≡ (ok tt, deliver frame s)
  unfolding read_one take_frame device
  read_one-deliver a s frame w read plain =
      let body = λ (c : TuyaDeviceConfig).
        lift (read_arrival out c.protocol_version (or_key s.session_key (key_bytes c)) a)
        >>= take_frame out in
      ap (λ o. then_call body (required o no_device, s)) w.own
      ∙ ap
          (λ k.
            then_call (take_frame out)
              (read_arrival out d.protocol_version (or_key k (key_bytes d)) a, s))
          w.keyed
      ∙ ap (λ r. then_call (take_frame out) (r, s)) read
      ∙ ap (λ b. (if b then handle_status out frame else modify (deliver frame)) s) plain

  -- A plain frame goes to the table of requests.
  reader_step-deliver :
      (a : Arrival) (s : TuyaLocalDriver) (frame : TuyaFrame)
      → IsWaiting d key sequence future s
      → read_arrival out d.protocol_version (or_key key (key_bytes d)) a ≡ ok frame
      → nat_eq frame.command command_status ≡ false
      → reader_step out a s ≡ deliver frame s
  unfolding reader_step end_loop
  reader_step-deliver a s frame w read plain =
      let done = record s { reader_task = some true } in
      let looped = end_loop (read_one out a s) in
      ap (λ b. if b then if s.has_reader then looped else done else s) w.reads
      ∙ ap (λ b. if b then looped else done) w.has
      ∙ ap end_loop (read_one-deliver a s frame w read plain)

  other-IsWaiting :
      (other : TuyaFrame) (s : TuyaLocalDriver) (found : Option ℕ)
      → IsWaiting d key sequence future s
      → other.sequence ≢ sequence
      → get s.pending other.sequence ≡ found
      → IsWaiting d key sequence future (pop_future other.sequence other s found)
  other-IsWaiting other s none w differs e = w
  other-IsWaiting other s (some f) w differs e = record {
    own = w.own;
    reads = w.reads;
    has = w.has;
    keyed = w.keyed;
    waits = get-remove_other s.pending other.sequence sequence differs ∙ w.waits;
    open_yet =
        get-settle_other f future (ok other) s.futures
          (λ same. differs (IsSole-get sequence future other.sequence f s.pending w.sole e same))
        ∙ w.open_yet;
    sole = IsSole-remove sequence future other.sequence s.pending w.sole;
  }

  answered-get :
      (frame : TuyaFrame) (s : TuyaLocalDriver)
      → IsWaiting d key sequence future s
      → frame.sequence ≡ sequence
      → get (deliver frame s).futures future ≡ some (ok frame)
  unfolding deliver
  answered-get frame s w same =
      ap (λ (o : Option ℕ). get (pop_future frame.sequence frame s o).futures future)
        (ap (get s.pending) same ∙ w.waits)
      ∙ get-settle_new future (ok frame) s.futures w.open_yet

  deliver-session_key :
      (frame : TuyaFrame) (s : TuyaLocalDriver) (found : Option ℕ)
      → (pop_future frame.sequence frame s found).session_key ≡ s.session_key
  deliver-session_key frame s none = refl
  deliver-session_key frame s (some f) = refl

  -- What the wait returns, and the key that its answer is decoded with.
  abbrev pub Answers : TuyaFrame → TuyaLocalDriver → Result TuyaFrame × TuyaLocalDriver → Type 0
  Answers frame s r = (r.0 ≡ ok frame) × (r.1.session_key ≡ s.session_key)

  pub await_future-answered :
      (frame : TuyaFrame) (arrivals : List Arrival)
      → IsAnswered out d.protocol_version (or_key key (key_bytes d)) sequence frame arrivals
      → (s : TuyaLocalDriver) → IsWaiting d key sequence future s
      → Answers frame s (await_future out future arrivals s)
  unfolding await_future deliver
  await_future-answered frame _ (here a arrivals read plain same) s w =
      let t = reader_step out a s in
      let delivered = reader_step-deliver a s frame w read plain in
      let found : get t.futures future ≡ some (ok frame) =
        ap (λ (t : TuyaLocalDriver). get t.futures future) delivered
        ∙ answered-get frame s w same in
      subst (λ o. Answers frame s (await_done o (await_future out future arrivals) t)) (sym found)
        (
          refl,
          ap (λ (t : TuyaLocalDriver). t.session_key) delivered
              ∙ deliver-session_key frame s (get s.pending frame.sequence),
        )
  await_future-answered frame _ (later a arrivals other read plain differs rest) s w =
      let t = reader_step out a s in
      let delivered = reader_step-deliver a s other w read plain in
      let w' : IsWaiting d key sequence future t =
        subst (IsWaiting d key sequence future) (sym delivered)
          (other-IsWaiting other s (get s.pending other.sequence) w differs refl) in
      let (returned, keyed) = await_future-answered frame arrivals rest t w' in
      subst (λ o. Answers frame s (await_done o (await_future out future arrivals) t))
        (sym w'.open_yet)
        (
          returned,
          keyed
              ∙ ap (λ (t : TuyaLocalDriver). t.session_key) delivered
              ∙ deliver-session_key other s (get s.pending other.sequence),
        )

  Keeps-record_sent :
      (f : List ℕ) → Keeps (IsWaiting d key sequence future) (modify (record_sent f))
  Keeps-record_sent f = record { after = λ s w. ground arith }

  Keeps-called :
      {A : Type 0} (f : ℕ → Result A) → Keeps (IsWaiting d key sequence future) (outside_call f)
  Keeps-called f = record { after = λ s w. ground arith }

  pub Keeps-send :
      (command : ℕ) (clear : List ℕ) (q : ℕ)
      → Keeps (IsWaiting d key sequence future) (send out d command clear q)
  unfolding send write
  Keeps-send command clear q = search (keeps_rules, Keeps-record_sent, Keeps-called) depth 16
