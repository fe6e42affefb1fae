-- ===== src/Tuya/Discovery/Sources.antt =====
-- What a datagram can make the driver believe.
use linker.Prelude.{ℕ, String, Bool, true, Option, none, some, ◌≡◌, List, [], ◌∷◌, arith, string_Eq}
use linker.Python.Dict.{get}
use linker.Python.Value.{Value, obj, str, to_dict}
use linker.Tuya.Discovery.{
  Json, Found, is_device_id, item_of, item_of_text, device_id_of, is_known_version, discovery_item,
  first_item, json_payloads, parse_discovery_json,
}

-- The address of the sender, and an id of the pattern.
pub record IsFrom (ip : String) (f : Found) : Type 0 where
  pub sender : f.ip ≡ ip
  pub id_pattern : is_device_id f.id ≡ true

module _ (json : Json) where
  item_of-IsFrom :
      (v : Option Value) (known : Bool) (ip : String) {f : Found}
      → item_of json v known ip ≡ some f
      → IsFrom ip f
  item_of-IsFrom (some (str id)) known ip h = ground arith
  item_of-IsFrom v known ip h = cc

  item_of_text-IsFrom :
      (o : Option Value) (ip : String) {f : Found} → item_of_text json o ip ≡ some f → IsFrom ip f
  unfolding discovery_item
  item_of_text-IsFrom none ip h = cc
  item_of_text-IsFrom (some (obj fs)) ip h =
      let d = to_dict fs in
      item_of-IsFrom (device_id_of (get d "gwId") (get d "devId"))
        (is_known_version json (get d "version")) ip h
  item_of_text-IsFrom (some v) ip h = cc

  first_item-IsFrom :
      (cs : List (List ℕ)) (ip : String) {f : Found} → first_item json cs ip ≡ some f → IsFrom ip f
  unfolding first_item
  first_item-IsFrom [] ip h = cc
  first_item-IsFrom (c ∷ cs) ip {f} h =
      ground (arith, item_of_text-IsFrom (json.loads c) ip {f = f}, first_item-IsFrom cs ip {f = f})

  -- Whatever a datagram holds: a device that is found in it has the address of the sender, not one that the
  -- datagram names, and an id of 8 to 64 characters of the pattern.
  pub parse_discovery_json-IsFrom :
      (payload : List ℕ) (ip : String) {f : Found}
      → parse_discovery_json json payload ip ≡ some f
      → IsFrom ip f
  unfolding parse_discovery_json
  parse_discovery_json-IsFrom payload ip h = first_item-IsFrom (json_payloads payload) ip h
