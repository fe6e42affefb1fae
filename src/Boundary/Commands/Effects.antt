-- ===== src/Boundary/Commands/Effects.antt =====
-- What `handle` leaves alone when it serves a light command.
use linker.Prelude.{String, Option, none, some, ◌≡◌, refl, string_Eq, arith, eq_iff}
use linker.Python.Exc.{Result, ok, err}
use linker.Python.Dict.{Dict, get, get-put}
use linker.Protocol.{Envelope, Payload}
use linker.Driver.{VendorRgbDriver}
use linker.Boundary.{LinkerBoundary, Stamps, make_envelope}
use linker.Boundary.Commands.{
  journal_put, Metadata, result, execute, perform, finish, serve, locked, record_result,
  handle_command,
}

-- What stays as it was.
pub record SameLight {D : Type 0} (s t : LinkerBoundary D) : Type 0 where
  pub config : t.config ≡ s.config
  pub light_id : t.light_id ≡ s.light_id
  pub device_id : t.device_id ≡ s.device_id
  pub descriptor : t.descriptor ≡ s.descriptor

journal_put-get :
    (key k : String) (v p : Payload) (j : Dict String Payload)
    → get j k ≡ some p
    → get (journal_put key v j) k ≡ some p
unfolding journal_put
journal_put-get key k v p j h = ground (arith, get-put j key k v, eq_iff key k)

record_result-get :
    {D : Type 0} (key k : String) (p : Payload) (r : Result Envelope × LinkerBoundary D)
    → get r.1.journal k ≡ some p
    → get (record_result key r).1.journal k ≡ some p
unfolding record_result
record_result-get key k p (ok e, s) h = journal_put-get key k e.payload p s.journal h
record_result-get key k p (err e, s) h = h

module _ {D : Type 0} (drv : VendorRgbDriver D) (stamps : Stamps) where
  result-SameLight :
      (c : Envelope) (p : Payload) (s : LinkerBoundary D) → SameLight s (result drv stamps c p s).1
  unfolding result make_envelope
  result-SameLight c p s = ground arith

  execute-SameLight :
      (c : Envelope) (m : Metadata) (s : LinkerBoundary D)
      → SameLight s (execute drv stamps c m s).1
  unfolding execute perform finish result make_envelope
  execute-SameLight c m s = ground arith

  serve-SameLight :
      (c : Envelope) (m : Metadata) (o : Option Payload) (s : LinkerBoundary D)
      → SameLight s (serve drv stamps c m o s).1
  unfolding serve record_result
  serve-SameLight c m (some cached) s = grind (arith, result-SameLight)
  serve-SameLight c m none s = grind (arith, execute-SameLight)

  -- A light command changes neither the configuration nor the light id, the device id and the descriptor.
  pub handle_command-SameLight :
      (c : Envelope) (s : LinkerBoundary D) → SameLight s (handle_command drv stamps c s).1
  unfolding handle_command locked
  handle_command-SameLight c s = grind (arith, serve-SameLight, result-SameLight)

  pub result-journal :
      (c : Envelope) (p : Payload) (s : LinkerBoundary D)
      → (result drv stamps c p s).1.journal ≡ s.journal
  unfolding result make_envelope
  result-journal c p s = refl

  pub result-driver :
      (c : Envelope) (p : Payload) (s : LinkerBoundary D)
      → (result drv stamps c p s).1.driver ≡ s.driver
  unfolding result make_envelope
  result-driver c p s = refl

  pub execute-journal :
      (c : Envelope) (m : Metadata) (s : LinkerBoundary D)
      → (execute drv stamps c m s).1.journal ≡ s.journal
  unfolding execute perform finish result make_envelope
  execute-journal c m s = ground arith

  serve-journal :
      (c : Envelope) (m : Metadata) (o : Option Payload) (s : LinkerBoundary D) (k : String)
      (p : Payload)
      → get s.journal k ≡ some p
      → get (serve drv stamps c m o s).1.journal k ≡ some p
  unfolding serve
  serve-journal c m (some cached) s k p h = grind (arith, result-journal)
  serve-journal c m none s k p h =
      record_result-get m.key k p (execute drv stamps c m s) (rw (execute-journal c m s) h)

  -- A result that the journal holds under a key is still there after any light command.
  pub handle_command-journal :
      (c : Envelope) (s : LinkerBoundary D) (k : String) (p : Payload)
      → get s.journal k ≡ some p
      → get (handle_command drv stamps c s).1.journal k ≡ some p
  unfolding handle_command locked
  handle_command-journal c s k p h = grind (arith, serve-journal, result-journal)
