-- ===== src/Value/Mapping.antt =====
-- RpcValue to JSON and back: cpp/implementations/plain/json_mapping.cpp, with the tagged bytes of
-- cpp/logos_codec.h. A throw is an error value.
use logos_protocol.Base.{ℕ, Option, none, some, List, Text, codes, text_eq, if◌then◌else◌}
use logos_protocol.Codec.Base64.{b64_url_encode, b64_url_decode_checked}
use logos_protocol.Json.{Json, Items, Fields}
use logos_protocol.Json.Objects.{set_key}
use logos_protocol.Value.{RpcValue, RpcList, RpcMap, make_integer}

pub data CodecError : Type 0 where
  invalid_base64url expected_object unknown_tag json_type_error parse_failed not_an_envelope :
      CodecError
  type_tag_not_integer : CodecError

pub data Result {ℓ} (A : Type ℓ) : Type ℓ where
  ok : A → Result A
  err : CodecError → Result A

infixl 5 ◌>>=◌
abbrev pub ◌>>=◌ {ℓ κ} : {A : Type ℓ} {B : Type κ} → Result A → (A → Result B) → Result B
ok a >>= f = f a
err e >>= f = err e

abbrev pub bytes_key : Text
bytes_key = codes "_bytes"

-- `bytesToJson`
unfoldable pub bytes_to_json : List ℕ → Json
bytes_to_json b = Json.object (Fields.field bytes_key (Json.string (b64_url_encode b)) Fields.end)

-- `isTaggedBytes`, with the string that it found: exactly one key, which is "_bytes".
unfoldable pub tagged_bytes : Fields → Option Text
tagged_bytes (Fields.field k (Json.string s) Fields.end) =
    if text_eq k bytes_key then some s else none
tagged_bytes _ = none

-- `valueToJson`. An array is built in order; an object by `obj[k] = v`, entry after entry.
unfoldable mutual
  pub value_to_json : RpcValue → Json
  value_to_json RpcValue.null = Json.null
  value_to_json (RpcValue.bool b) = Json.boolean b
  value_to_json (RpcValue.int i) = Json.number_integer i
  value_to_json (RpcValue.uint u) = Json.number_unsigned u
  value_to_json (RpcValue.double d) = Json.number_float d
  value_to_json (RpcValue.string s) = Json.string s
  value_to_json (RpcValue.bytes b) = bytes_to_json b
  value_to_json (RpcValue.list l) = Json.array (list_to_json l)
  value_to_json (RpcValue.map m) = Json.object (map_to_json m Fields.end)

  pub list_to_json : RpcList → Items
  list_to_json RpcList.nil = Items.nil
  list_to_json (RpcList.cons v l) = Items.cons (value_to_json v) (list_to_json l)

  pub map_to_json : RpcMap → Fields → Fields
  map_to_json RpcMap.end obj = obj
  map_to_json (RpcMap.entry k v m) obj = map_to_json m (set_key k (value_to_json v) obj)

abbrev pub decode_bytes : Option (List ℕ) → Result RpcValue
decode_bytes none = err CodecError.invalid_base64url
decode_bytes (some b) = ok (RpcValue.bytes b)

abbrev pub decode_object : Option Text → Result RpcMap → Result RpcValue
decode_object (some s) m = decode_bytes (b64_url_decode_checked s)
decode_object none m = m >>= λ m. ok (RpcValue.map m)

-- `jsonToValue`. The unsigned kind goes through `makeInteger`, since `get<int64_t>` would wrap.
unfoldable mutual
  pub json_to_value : Json → Result RpcValue
  json_to_value Json.null = ok RpcValue.null
  json_to_value (Json.boolean b) = ok (RpcValue.bool b)
  json_to_value (Json.number_unsigned u) = ok (make_integer u)
  json_to_value (Json.number_integer i) = ok (RpcValue.int i)
  json_to_value (Json.number_float d) = ok (RpcValue.double d)
  json_to_value (Json.string s) = ok (RpcValue.string s)
  json_to_value (Json.array xs) = items_to_list xs >>= λ l. ok (RpcValue.list l)
  json_to_value (Json.object fs) = decode_object (tagged_bytes fs) (fields_to_map fs)
  json_to_value (Json.binary b) = ok (RpcValue.bytes b)

  pub items_to_list : Items → Result RpcList
  items_to_list Items.nil = ok RpcList.nil
  items_to_list (Items.cons x xs) =
      json_to_value x >>= λ v. items_to_list xs >>= λ l. ok (RpcList.cons v l)

  pub fields_to_map : Fields → Result RpcMap
  fields_to_map Fields.end = ok RpcMap.end
  fields_to_map (Fields.field k x fs) =
      json_to_value x >>= λ v. fields_to_map fs >>= λ m. ok (RpcMap.entry k v m)
