-- ===== src/Config.antt =====
-- src/openhdo_linker/config.py: Credentials, DiscoveryConfig and LinkerConfig with their checks.
pub mod Registered
use linker.Prelude.{
  ℕ, zero, suc, ◌*◌, ◌^◌, String, Bool, true, false, not, ◌&&◌, ◌||◌, List, [], ◌∷◌, ltb, leb,
  nat_eq, str_eq, pos, negsuc, if◌then◌else◌,
}
use linker.Python.Exc.{Result, ok, err, value_error, guard, raise_if, ◌>>=◌, ◌>>◌}
use linker.Python.Dict.{Dict}
use linker.Python.Text.{codes}
use linker.Python.Value.{Value, Float, finite, inf, minus_inf, nan, str}
use linker.Models.Identifier.{is_identifier, is_short_text, is_lower}

pub record DiscoveryConfig : Type 0 where
  pub scope : String
  pub timeout_s : Float

pub record LinkerConfig : Type 0 where
  pub id : String
  pub version : String
  pub name : String
  pub transport : String
  pub discovery : DiscoveryConfig
  pub reconnect_initial_s : Float
  pub reconnect_max_s : Float

-- `x <= 0`
abbrev pub is_nonpositive : Float → Bool
is_nonpositive (finite (pos m) k) = nat_eq m 0
is_nonpositive (finite (negsuc m) k) = true
is_nonpositive minus_inf = true
is_nonpositive x = false

-- `x < y`
unfoldable pub less : Float → Float → Bool
less nan y = false
less x nan = false
less (finite (pos m) k) (finite (pos n) l) = ltb (m * 2 ^ l) (n * 2 ^ k)
less (finite (negsuc m) k) (finite (negsuc n) l) = ltb (suc n * 2 ^ k) (suc m * 2 ^ l)
less (finite (negsuc m) k) (finite (pos n) l) = true
less (finite (pos m) k) (finite (negsuc n) l) = false
less minus_inf minus_inf = false
less minus_inf y = true
less inf y = false
less (finite m k) inf = true
less (finite m k) minus_inf = false

-- The pattern `^[0-9]+\.[0-9]+\.[0-9]+(?:[-+][0-9A-Za-z.-]+)?$`, read from the left: the dots so far and
-- whether a digit stands behind the last one, or whether the text behind the numbers has begun.
pub data Semver : Type 0 where
  number : ℕ → Bool → Semver
  suffix : Bool → Semver
  refused : Semver

abbrev is_digit : ℕ → Bool
is_digit c = leb b'0' c && leb c b'9'

abbrev is_suffix_char : ℕ → Bool
is_suffix_char c =
    (is_digit c || (leb b'A' c && leb c b'Z')) || (is_lower c || (nat_eq c b'.' || nat_eq c b'-'))

unfoldable pub semver_step : Semver → ℕ → Semver
semver_step (number dots digit) c =
    if is_digit c
    then number dots true
    else if nat_eq c b'.' && (digit && ltb dots 2)
    then number (suc dots) false
    else if (nat_eq c b'-' || nat_eq c b'+') && (digit && nat_eq dots 2)
    then suffix false
    else refused
semver_step (suffix begun) c = if is_suffix_char c then suffix true else refused
semver_step refused c = refused

abbrev pub accepted : Semver → Bool
accepted (number dots digit) = digit && nat_eq dots 2
accepted (suffix begun) = begun
accepted refused = false

unfoldable pub semver_steps : Semver → List ℕ → Semver
unfolding semver_step
semver_steps s [] = s
semver_steps s (c ∷ cs) = semver_steps (semver_step s c) cs

unfoldable pub is_semver : String → Bool
unfolding semver_steps
is_semver s = accepted (semver_steps (number 0 false) (codes s))

-- `DiscoveryConfig(...)`
unfoldable pub new_discovery : DiscoveryConfig → Result DiscoveryConfig
new_discovery d = do
  raise_if (str_eq d.scope "" || is_nonpositive d.timeout_s)
      (value_error "discovery scope and timeout must be usable")
  ok d

-- `LinkerConfig(...)`
unfoldable pub new : LinkerConfig → Result LinkerConfig
unfolding less is_semver
new c = do
  guard (is_identifier c.id) (value_error "id must be a lowercase linker identifier")
  guard (is_semver c.version) (value_error "version must use semantic versioning")
  guard (is_short_text c.name) (value_error "name must contain 1 to 128 characters")
  guard (is_identifier c.transport) (value_error "transport must be a lowercase identifier")
  raise_if (is_nonpositive c.reconnect_initial_s || less c.reconnect_max_s c.reconnect_initial_s)
      (value_error "reconnect delays must be positive and ordered")
  ok c

-- `Credentials(...)`, of a mapping whose keys are texts.
unfoldable pub new_credentials : Dict String Value → Result (Dict String String)
new_credentials [] = ok []
new_credentials ((key, str text) ∷ values) =
    new_credentials values >>= λ rest. ok ((key, text) ∷ rest)
new_credentials ((key, v) ∷ values) = err (value_error "credentials must be string key/value pairs")
