-- ===== src/Value/Canonical.antt =====
-- The values that cross the wire unchanged, and the round trip through JSON of
-- cpp/implementations/plain/json_mapping.cpp.
use logos_protocol.Base.{◌≤◌, ◌<◌, ◌^◌, ◌≢◌, All}
use logos_protocol.Codec.Base64.RoundTrip.{IsByte}
use logos_protocol.Json.{pos, Fields, field, end}
use logos_protocol.Json.Objects.{IsSorted}
use logos_protocol.Value.{RpcValue, RpcList, RpcMap, int64_max}
use logos_protocol.Value.Mapping.{bytes_key, value_to_json}

-- The entries of a map as fields in the same order.
unfoldable pub fields_of : RpcMap → Fields
fields_of RpcMap.end = end
fields_of (RpcMap.entry k v m) = field k (value_to_json v) (fields_of m)

-- The one map that JSON cannot tell from bytes: a single entry "_bytes" with a string.
abbrev pub NotTagged : RpcMap → Type 0
NotTagged (RpcMap.entry k (RpcValue.string s) RpcMap.end) = k ≢ bytes_key
NotTagged _ = Unit

-- Integers in the representation that `makeInteger` chooses, bytes below 256, and maps with their
-- keys strictly sorted that do not look like tagged bytes.
abbrev mutual
  pub IsCanonical : RpcValue → Type 0
  IsCanonical (RpcValue.int (pos n)) = n ≤ int64_max
  IsCanonical (RpcValue.uint u) = (int64_max < u) × (u < 2 ^ 64)
  IsCanonical (RpcValue.bytes b) = All IsByte b
  IsCanonical (RpcValue.list l) = IsCanonicalList l
  IsCanonical (RpcValue.map m) = IsCanonicalMap m × IsSorted (fields_of m) × NotTagged m
  IsCanonical _ = Unit

  pub IsCanonicalList : RpcList → Type 0
  IsCanonicalList RpcList.nil = Unit
  IsCanonicalList (RpcList.cons v l) = IsCanonical v × IsCanonicalList l

  pub IsCanonicalMap : RpcMap → Type 0
  IsCanonicalMap RpcMap.end = Unit
  IsCanonicalMap (RpcMap.entry k v m) = IsCanonical v × IsCanonicalMap m
