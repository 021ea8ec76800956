-- ===== src/Value.antt =====
-- RpcValue, the value that the plain wire carries: cpp/implementations/plain/rpc_value.h.
pub mod Mapping
pub mod Canonical
pub mod RoundTrip
use logos_protocol.Base.{
  ℕ, ◌-◌, ◌^◌, ◌≡◌, refl, Bool, true, false, Option, none, some, List, Text, text_discrete, ite,
  leb, if◌then◌else◌, arith,
}
use logos_protocol.Json.{ℤ, pos}

-- A double is its 64 bits; an `int64_t` is the integer that it stands for.
mutual
  pub data RpcValue : Type 0 where
    null : RpcValue
    bool : Bool → RpcValue
    int : ℤ → RpcValue
    uint : ℕ → RpcValue
    double : ℕ → RpcValue
    string : Text → RpcValue
    bytes : List ℕ → RpcValue
    list : RpcList → RpcValue
    map : RpcMap → RpcValue

  pub data RpcList : Type 0 where
    nil : RpcList
    cons : RpcValue → RpcList → RpcList

  pub data RpcMap : Type 0 where
    end : RpcMap
    entry : Text → RpcValue → RpcMap → RpcMap

abbrev pub int64_max : ℕ
int64_max = 2 ^ 63 - 1

-- `uint64_t` only for what `int64_t` cannot hold.
unfoldable pub make_integer : ℕ → RpcValue
make_integer u = if leb u int64_max then int (pos u) else uint u

unfoldable pub is_integral : RpcValue → Bool
is_integral (int i) = true
is_integral (uint u) = true
is_integral _ = false

-- `RpcMap::emplace`: keys are not looked at.
unfoldable pub emplace : Text → RpcValue → RpcMap → RpcMap
emplace k v end = entry k v end
emplace k v (entry j w m) = entry j w (emplace k v m)

-- `RpcMap::find`: the first entry of the key.
unfoldable pub find : Text → RpcMap → Option RpcValue
find k end = none
find k (entry j w m) = ite (text_discrete j k) (some w) (find k m)
