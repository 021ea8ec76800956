-- ===== src/Value/RoundTrip.antt =====
-- The round trip of values through the JSON of cpp/implementations/plain/json_mapping.cpp.
use logos_protocol.Base.{
  ℕ, ◌≤◌, ◌<◌, ◌≡◌, refl, sym, ◌∙◌, ap, subst, none, some, Text, text_eq, text_eq_iff, Bool-cases,
  inl, inr, le→leb, lt→leb,
}
use logos_protocol.Codec.Base64.{b64_url_encode}
use logos_protocol.Codec.Base64.RoundTrip.{b64_url_decode-b64_url_encode}
use logos_protocol.Json.{
  pos, negsuc, Json, Items, Fields, field, end, as_parsed, fields_as_parsed, items_as_parsed,
}
use logos_protocol.Json.Objects.{set_key-last, IsSorted, append_fields}
use logos_protocol.Value.{RpcValue, RpcList, RpcMap, int64_max, make_integer}
use logos_protocol.Value.Mapping.{
  ok, bytes_key, bytes_to_json, tagged_bytes, value_to_json, list_to_json, map_to_json,
  json_to_value, items_to_list, fields_to_map,
}
use logos_protocol.Value.Canonical.{
  IsCanonical, IsCanonicalList, IsCanonicalMap, NotTagged, fields_of,
}

IsSorted-prefix :
    (k : Text) (v : Json) (fs gs : Fields)
    → IsSorted (append_fields fs (field k v gs))
    → IsSorted (append_fields fs (field k v end))
IsSorted-prefix k v end gs h = (tt, tt)
IsSorted-prefix k v (field i x end) gs h = (h.0, (tt, tt))
IsSorted-prefix k v (field i x (field j y fs)) gs h =
    (h.0, IsSorted-prefix k v (field j y fs) gs h.1)

append_fields_assoc :
    (k : Text) (v : Json) (fs gs : Fields)
    → append_fields (append_fields fs (field k v end)) gs ≡ append_fields fs (field k v gs)
append_fields_assoc k v end gs = refl
append_fields_assoc k v (field i x fs) gs = ap (field i x) (append_fields_assoc k v fs gs)

-- Keys that come in order are appended.
map_to_json-fields_of :
    (m : RpcMap) (obj : Fields)
    → IsSorted (append_fields obj (fields_of m))
    → map_to_json m obj ≡ append_fields obj (fields_of m)
unfolding value_to_json fields_of
map_to_json-fields_of RpcMap.end obj h = append-end obj
  where
    append-end : (fs : Fields) → fs ≡ append_fields fs end
    append-end end = refl
    append-end (field i x fs) = ap (field i x) (append-end fs)
map_to_json-fields_of (RpcMap.entry k v m) obj h =
    rw (set_key-last k (value_to_json v) obj (IsSorted-prefix k _ obj _ h)) (
      map_to_json-fields_of m _ (subst IsSorted (sym (append_fields_assoc k _ obj _)) h)
      ∙ append_fields_assoc k _ obj _)

tagged_bytes-fields_of : (m : RpcMap) → NotTagged m → tagged_bytes (fields_of m) ≡ none
unfolding tagged_bytes fields_of value_to_json bytes_to_json
tagged_bytes-fields_of RpcMap.end h = refl
tagged_bytes-fields_of (RpcMap.entry k (RpcValue.string s) RpcMap.end) h =
    elim (Bool-cases (text_eq k bytes_key)) [
      | inl same ↦ absurd (h ((text_eq_iff k bytes_key).0 same))
      | inr other ↦ rw other
    ]
tagged_bytes-fields_of (RpcMap.entry k (RpcValue.string s) (RpcMap.entry j w m)) h = refl
tagged_bytes-fields_of (RpcMap.entry k _ m) h = refl

tagged_bytes-bytes_key : (s : Text) → tagged_bytes (field bytes_key (Json.string s) end) ≡ some s
unfolding tagged_bytes text_eq
tagged_bytes-bytes_key s = refl

make_integer-above : (u : ℕ) → int64_max < u → make_integer u ≡ RpcValue.uint u
unfolding make_integer
make_integer-above u h = rw (lt→leb u int64_max h)

mutual
  unfolding value_to_json json_to_value bytes_to_json fields_of

  pub json_to_value-value_to_json :
      (v : RpcValue) → IsCanonical v → json_to_value (value_to_json v) ≡ ok v
  json_to_value-value_to_json RpcValue.null h = refl
  json_to_value-value_to_json (RpcValue.bool b) h = refl
  json_to_value-value_to_json (RpcValue.int (pos n)) h = refl
  json_to_value-value_to_json (RpcValue.int (negsuc n)) h = refl
  json_to_value-value_to_json (RpcValue.uint u) h = ap ok (make_integer-above u h.0)
  json_to_value-value_to_json (RpcValue.double d) h = refl
  json_to_value-value_to_json (RpcValue.string s) h = refl
  json_to_value-value_to_json (RpcValue.bytes b) h =
      rw (tagged_bytes-bytes_key (b64_url_encode b), (b64_url_decode-b64_url_encode b h).0)
  json_to_value-value_to_json (RpcValue.list l) h = rw (items_to_list-list_to_json l h)
  json_to_value-value_to_json (RpcValue.map m) h =
      rw (
        map_to_json-fields_of m end h.1,
        tagged_bytes-fields_of m h.2,
        fields_to_map-fields_of m h.0,
      )

  pub items_to_list-list_to_json :
      (l : RpcList) → IsCanonicalList l → items_to_list (list_to_json l) ≡ ok l
  items_to_list-list_to_json RpcList.nil h = refl
  items_to_list-list_to_json (RpcList.cons v l) h =
      rw (json_to_value-value_to_json v h.0, items_to_list-list_to_json l h.1)

  fields_to_map-fields_of : (m : RpcMap) → IsCanonicalMap m → fields_to_map (fields_of m) ≡ ok m
  fields_to_map-fields_of RpcMap.end h = refl
  fields_to_map-fields_of (RpcMap.entry k v m) h =
      rw (json_to_value-value_to_json v h.0, fields_to_map-fields_of m h.1)

-- A number that fits `int64_t` is decoded alike from either kind.
make_integer-below : (n : ℕ) → n ≤ int64_max → make_integer n ≡ RpcValue.int (pos n)
unfolding make_integer
make_integer-below n h = rw (le→leb n int64_max h)

-- The whole numbers of a JSON value that are not negative fit the signed kind that they have.
abbrev mutual
  pub InRange : Json → Type 0
  InRange (Json.number_integer (pos n)) = n ≤ int64_max
  InRange (Json.array xs) = InRangeItems xs
  InRange (Json.object fs) = InRangeFields fs
  InRange _ = Unit

  pub InRangeItems : Items → Type 0
  InRangeItems Items.nil = Unit
  InRangeItems (Items.cons x xs) = InRange x × InRangeItems xs

  pub InRangeFields : Fields → Type 0
  InRangeFields Fields.end = Unit
  InRangeFields (Fields.field k x fs) = InRange x × InRangeFields fs

tagged_bytes-as_parsed : (fs : Fields) → tagged_bytes (fields_as_parsed fs) ≡ tagged_bytes fs
unfolding tagged_bytes as_parsed
tagged_bytes-as_parsed end = refl
tagged_bytes-as_parsed (field k (Json.string s) end) = refl
tagged_bytes-as_parsed (field k (Json.string s) (field j x fs)) = refl
tagged_bytes-as_parsed (field k (Json.number_integer (pos n)) fs) = refl
tagged_bytes-as_parsed (field k (Json.number_integer (negsuc n)) fs) = refl
tagged_bytes-as_parsed (field k _ fs) = refl

-- Decoding sees no difference between a value and its form after `dump` and `parse`.
mutual
  unfolding json_to_value as_parsed

  pub json_to_value-as_parsed :
      (j : Json) → InRange j → json_to_value (as_parsed j) ≡ json_to_value j
  json_to_value-as_parsed Json.null h = refl
  json_to_value-as_parsed (Json.boolean b) h = refl
  json_to_value-as_parsed (Json.number_integer (pos n)) h = ap ok (make_integer-below n h)
  json_to_value-as_parsed (Json.number_integer (negsuc n)) h = refl
  json_to_value-as_parsed (Json.number_unsigned n) h = refl
  json_to_value-as_parsed (Json.number_float d) h = refl
  json_to_value-as_parsed (Json.string s) h = refl
  json_to_value-as_parsed (Json.array xs) h = rw (items_to_list-as_parsed xs h)
  json_to_value-as_parsed (Json.object fs) h =
      rw (tagged_bytes-as_parsed fs, fields_to_map-as_parsed fs h)
  json_to_value-as_parsed (Json.binary b) h = refl

  pub items_to_list-as_parsed :
      (xs : Items) → InRangeItems xs → items_to_list (items_as_parsed xs) ≡ items_to_list xs
  items_to_list-as_parsed Items.nil h = refl
  items_to_list-as_parsed (Items.cons x xs) h =
      rw (json_to_value-as_parsed x h.0, items_to_list-as_parsed xs h.1)

  fields_to_map-as_parsed :
      (fs : Fields) → InRangeFields fs → fields_to_map (fields_as_parsed fs) ≡ fields_to_map fs
  fields_to_map-as_parsed Fields.end h = refl
  fields_to_map-as_parsed (Fields.field k x fs) h =
      rw (json_to_value-as_parsed x h.0, fields_to_map-as_parsed fs h.1)

mutual
  unfolding value_to_json fields_of bytes_to_json

  pub value_to_json-InRange : (v : RpcValue) → IsCanonical v → InRange (value_to_json v)
  value_to_json-InRange (RpcValue.int (pos n)) h = h
  value_to_json-InRange (RpcValue.int (negsuc n)) h = tt
  value_to_json-InRange (RpcValue.list l) h = list_to_json-InRange l h
  value_to_json-InRange (RpcValue.map m) h =
      rw (map_to_json-fields_of m end h.1) (fields_of-InRange m h.0)
  value_to_json-InRange (RpcValue.bytes b) h = (tt, tt)
  value_to_json-InRange _ h = tt

  pub list_to_json-InRange : (l : RpcList) → IsCanonicalList l → InRangeItems (list_to_json l)
  list_to_json-InRange RpcList.nil h = tt
  list_to_json-InRange (RpcList.cons v l) h =
      (value_to_json-InRange v h.0, list_to_json-InRange l h.1)

  fields_of-InRange : (m : RpcMap) → IsCanonicalMap m → InRangeFields (fields_of m)
  fields_of-InRange RpcMap.end h = tt
  fields_of-InRange (RpcMap.entry k v m) h = (value_to_json-InRange v h.0, fields_of-InRange m h.1)
