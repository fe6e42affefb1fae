-- ===== src/Config/Registered.antt =====
-- What a checked LinkerConfig gives the boundary.
use linker.Prelude.{ℕ, String, none, true, ◌≡◌, refl, List, [], ◌∷◌, leb, length, ◌&&◌, arith}
use linker.Python.Exc.{ok}
use linker.Python.Text.{codes}
use linker.Models.Identifier.{is_identifier, is_short_text, is_type_name, matches_name}
use linker.Protocol
use linker.Protocol.{Envelope, Payload}
use linker.Driver.{VendorRgbDriver}
use linker.Boundary.{LinkerBoundary, Stamps, make_envelope}
use linker.Boundary.Sessions.{register}
use linker.Config
use linker.Config.{LinkerConfig}

matches_name-short :
    (cs : List ℕ) → matches_name 1 cs ≡ true → (leb 1 (length cs) && leb (length cs) 128) ≡ true
matches_name-short [] h = cc
matches_name-short (c ∷ cs) h = ground arith

is_identifier-short : (c : LinkerConfig) → is_identifier c.id ≡ true → is_short_text c.id ≡ true
unfolding is_identifier is_short_text
is_identifier-short c h = matches_name-short (codes c.id) h

new-identifier : (c d : LinkerConfig) → Config.new c ≡ ok d → is_identifier d.id ≡ true
unfolding Config.new
new-identifier c d h = ground arith

make_envelope-returns :
    {D : Type 0} (stamps : Stamps) (kind : String) (payload : Payload) (s : LinkerBoundary D)
    → is_type_name kind ≡ true
    → is_short_text s.config.id ≡ true
    → (e : Envelope) × ((make_envelope stamps kind none payload s).0 ≡ ok e)
      × (e.source ≡ s.config.id)
      × (e.kind ≡ kind)
unfolding make_envelope Protocol.new
make_envelope-returns stamps kind payload s named short = (
  record {
    kind = kind;
    source = s.config.id;
    payload = payload;
    id = stamps.uuid4 s.built;
    timestamp = stamps.now s.built;
    correlation_id = none;
  },
  ground (arith, named, short),
  refl,
  refl,
)

-- The registration of a boundary whose configuration has passed the checks of LinkerConfig raises nothing, and
-- names the linker's id as its source.
pub register-new :
    {D : Type 0} (drv : VendorRgbDriver D) (stamps : Stamps) (c : LinkerConfig)
    (s : LinkerBoundary D)
    → Config.new c ≡ ok s.config
    → (e : Envelope) × ((register drv stamps s).0 ≡ ok e)
      × (e.source ≡ s.config.id)
      × (e.kind ≡ "link.register")
unfolding register
register-new drv stamps c s h =
    make_envelope-returns stamps "link.register" _ s (unfold is_type_name in refl)
      (is_identifier-short s.config (new-identifier c s.config h))
