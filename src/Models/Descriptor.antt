-- ===== src/Models/Descriptor.antt =====
-- models.py: classes DeviceDescriptor and DiscoveryCandidate.
use linker.Prelude.{
  String, Bool, true, false, not, ◌&&◌, ◌||◌, ◌≡◌, refl, List, [], ◌∷◌, ◌++◌, pos, arith, str_eq,
  if◌then◌else◌,
}
use linker.Python.Exc.{Result, ok, value_error, raise_if, guard, ◌>>◌}
use linker.Python.Value.{Value, Items, nil, cons, bool, int, str, arr, obj, of_dict}
use linker.Models.Identifier.{is_identifier, is_short_text}

pub record DeviceDescriptor : Type 0 where
  pub id : String
  pub name : String
  pub color_modes : List String

abbrev pub is_mode : String → Bool
is_mode m = str_eq m "RGB" || (str_eq m "RGBW" || str_eq m "CCT")

abbrev pub are_modes : List String → Bool
are_modes [] = true
are_modes (m ∷ ms) = is_mode m && are_modes ms

abbrev pub has_text : List String → String → Bool
has_text [] t = false
has_text (m ∷ ms) t = str_eq m t || has_text ms t

-- `len(set(modes)) == len(modes)`
abbrev pub all_distinct : List String → Bool
all_distinct [] = true
all_distinct (m ∷ ms) = not (has_text ms m) && all_distinct ms

abbrev pub is_empty : List String → Bool
is_empty [] = true
is_empty (m ∷ ms) = false

-- The checks of `__post_init__`
unfoldable pub new : DeviceDescriptor → Result DeviceDescriptor
new d = do
  guard (is_identifier d.id) (value_error "light id must be a lowercase OpenHDO identifier")
  guard (is_short_text d.name) (value_error "device descriptor fields are required")
  guard (not (is_empty d.color_modes) && are_modes d.color_modes)
      (value_error "color_modes must contain supported Light modes")
  guard (all_distinct d.color_modes) (value_error "color_modes must be unique")
  ok d

abbrev pub texts : List String → Items
texts [] = nil
texts (m ∷ ms) = cons (str m) (texts ms)

abbrev range_255 : Value
range_255 = obj (of_dict (("min", int (pos 0)) ∷ ("max", int (pos 255)) ∷ []))

-- The one capability of a light; the two `if` add their key behind the others.
unfoldable pub capability : DeviceDescriptor → Value
capability d = obj (
    of_dict (
      (("kind", str "light") ∷ ("power", bool true) ∷ ("brightness", range_255) ∷ [])
      ++ ((if is_empty d.color_modes then [] else ("color_modes", arr (texts d.color_modes)) ∷ [])
          ++ (if has_text d.color_modes "RGB" || has_text d.color_modes "RGBW"
              then ("rgb_channel_range", range_255) ∷ []
              else []))))

unfoldable pub to_payload : DeviceDescriptor → Value
to_payload d = obj (
    of_dict (
      ("id", str d.id)
      ∷ ("name", str d.name)
      ∷ ("capabilities", arr (cons (capability d) nil))
      ∷ []))

pub record DiscoveryCandidate : Type 0 where
  pub candidate_id : String
  pub name : String
  pub capabilities : Items
  pub transport : String
  pub requires_pairing : Bool

abbrev no_items : Items → Bool
no_items nil = true
no_items (cons v vs) = false

-- The checks of DiscoveryCandidate's `__post_init__`
unfoldable pub new_candidate : DiscoveryCandidate → Result DiscoveryCandidate
new_candidate c = do
  guard (is_identifier c.candidate_id)
      (value_error "candidate_id must be a lowercase OpenHDO identifier")
  guard (is_short_text c.name) (value_error "candidate name must contain 1 to 128 characters")
  guard (str_eq c.transport "wifi") (value_error "discovery transport must be wifi")
  raise_if (no_items c.capabilities)
      (value_error "discovery candidates require at least one capability")
  ok c

-- `DiscoveryCandidate.from_descriptor`; the capabilities are a list by construction.
unfoldable pub from_descriptor : DeviceDescriptor → Result DiscoveryCandidate
unfolding new_candidate
from_descriptor d = new_candidate (record {
  candidate_id = d.id;
  name = d.name;
  capabilities = cons (capability d) nil;
  transport = "wifi";
  requires_pairing = true;
})

-- `DiscoveryCandidate.to_payload`
unfoldable pub candidate_payload : DiscoveryCandidate → List (String × Value)
candidate_payload c =
    ("candidate_id", str c.candidate_id)
    ∷ ("name", str c.name)
    ∷ ("transport", str c.transport)
    ∷ ("capabilities", arr c.capabilities)
    ∷ ("requires_pairing", bool c.requires_pairing)
    ∷ []

-- Every descriptor that passes its own checks gives a valid candidate with its id and its name.
pub from_descriptor-new :
    (d : DeviceDescriptor)
    → new d ≡ ok d
    → (c : DiscoveryCandidate) × (from_descriptor d ≡ ok c)
      × (c.candidate_id ≡ d.id)
      × (c.name ≡ d.name)
unfolding new from_descriptor
from_descriptor-new d h = (
  record {
    candidate_id = d.id;
    name = d.name;
    capabilities = cons (capability d) nil;
    transport = "wifi";
    requires_pairing = true;
  },
  ground arith,
  refl,
  refl,
)
