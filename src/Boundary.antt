-- ===== src/Boundary.antt =====
-- src/openhdo_linker/boundary.py: LinkerBoundary with its journal.
pub mod Requests
pub mod Commands
pub mod Sessions
use linker.Prelude.{
  Bool, true, false, str_eq, if◌then◌else◌, ℕ, ◌+◌, String, Bool, true, false, ◌≡◌, Option, none,
  some, List, [], ◌∷◌, ◌++◌, arith,
}
pub use linker.Config.{LinkerConfig}
pub use linker.Python.Action.{pure, raise, lift, ◌>>=◌, >>=-eq-ok}
use linker.Python.Exc.{Exc, Result, ok, err}
use linker.Python.Dict.{Dict}
use linker.Python.Value.{Value}
use linker.Models.Descriptor.{DeviceDescriptor}
use linker.Protocol.{Envelope, Payload}
use linker.Protocol

-- The state of a LinkerBoundary over a driver with the state `D`. `journal` is MemoryCommandJournal's
-- dict from idempotency keys to results. `built` counts the envelopes that the process has built.
pub record LinkerBoundary (D : Type 0) : Type 0 where
  pub config : LinkerConfig
  pub light_id : Option String
  pub device_id : Option String
  pub descriptor : Option DeviceDescriptor
  pub journal : Dict String Payload
  pub driver : D
  pub built : ℕ

-- `uuid4()` and `datetime.now(timezone.utc)` for the n-th envelope.
pub record Stamps : Type 0 where
  pub uuid4 : ℕ → ℕ
  pub now : ℕ → ℕ

-- A call that may raise and changes the boundary.
abbrev pub Action : Type 0 → Type 0 → Type 0
Action D A = LinkerBoundary D → Result A × LinkerBoundary D

-- `Envelope(...)` as the boundary builds it: with a new id and the current time.
unfoldable pub make_envelope :
    {D : Type 0} → Stamps → String → Option ℕ → Payload → Action D Envelope
make_envelope stamps kind correlation payload s = (
  Protocol.new (record {
    kind = kind;
    source = s.config.id;
    payload = payload;
    id = stamps.uuid4 s.built;
    timestamp = stamps.now s.built;
    correlation_id = correlation;
  }),
  record s { built = s.built + 1 },
)

-- `a or b`, of texts or None
abbrev pub or_else_text : Option String → Option String → Option String
or_else_text none other = other
or_else_text (some s) other = if str_eq s "" then other else some s

abbrev pub descriptor_id : Option DeviceDescriptor → Option String
descriptor_id none = none
descriptor_id (some d) = some d.id

-- `LinkerBoundary(...)` with its own journal.
unfoldable pub new_boundary :
    {D : Type 0}
    → LinkerConfig
    → D
    → Option String
    → Option String
    → Option DeviceDescriptor
    → LinkerBoundary D
new_boundary config driver light_id device_id descriptor =
    let light = or_else_text light_id (descriptor_id descriptor) in
    record {
      config = config;
      light_id = light;
      device_id = or_else_text device_id light;
      descriptor = descriptor;
      journal = [];
      driver = driver;
      built = 0;
    }

-- `control_enabled`
unfoldable pub control_enabled : {D : Type 0} → LinkerBoundary D → Bool
control_enabled s = elim s.light_id [
  | none ↦ false
  | some l ↦ elim s.device_id [ none ↦ false | some d ↦ true ]
]
