-- ===== src/Tokens/Registry.antt =====
-- The stores of a process by identity (the `StoreRegistry` of cpp/token_manager.cpp): a name is
-- answered with the shared store, unless the host isolated it first.
use logos_protocol.Base.{
  ℕ, ◌+◌, nat_eq, Bool, true, false, ◌||◌, Option, none, some, List, Text, text_eq, text_key,
  lookup, put, contains, include, if◌then◌else◌,
}
use logos_protocol.Tokens.{
  TokenManager, empty_store, is_empty, credential, adopt_credential, clear_all_tokens,
}

-- The registry's sets and stores, and `instance()`. A store is an object: `stores` holds the address
-- of each, and the heap what is at an address. Each `new TokenManager` takes the next address.
pub record Registry : Type 0 where
  pub isolated : List Text
  pub vended_shared : List Text
  pub stores : List (Text × ℕ)
  pub heap : List (ℕ × TokenManager)
  pub next_store : ℕ
  pub instance_store : TokenManager

-- Which object `forIdentity` returns: `instance()`, or the one at an address.
pub data StoreRef : Type 0 where
  shared : StoreRef
  private_store : ℕ → StoreRef

abbrev or_empty : Option TokenManager → TokenManager
or_empty none = empty_store
or_empty (some s) = s

unfoldable pub store_of : StoreRef → Registry → TokenManager
store_of shared r = r.instance_store
store_of (private_store a) r = or_empty (lookup a r.heap)

-- The end of `forIdentity`, by what `stores.find` gave.
unfoldable pub found_or_new : Text → Option ℕ → Registry → StoreRef × Registry
found_or_new identity (some a) r = (private_store a, r)
found_or_new identity none r = (
  private_store r.next_store,
  record r {
    stores = put identity r.next_store r.stores;
    heap = put r.next_store empty_store r.heap;
    next_store = r.next_store + 1;
  },
)

-- `forIdentity`
unfoldable pub for_identity : Text → Registry → StoreRef × Registry
for_identity identity r =
    if is_empty identity
    then (shared, record r { vended_shared = include identity r.vended_shared })
    else if contains identity r.isolated
    then found_or_new identity (lookup identity r.stores) r
    else (shared, record r { vended_shared = include identity r.vended_shared })

-- `isIsolated`
unfoldable pub is_isolated : Text → Registry → Bool
is_isolated identity r = contains identity r.isolated

-- `isolateIdentity`
unfoldable pub isolate_identity : Text → Registry → Bool × Registry
isolate_identity identity r =
    if is_empty identity
    then (false, r)
    else if contains identity r.isolated
    then (true, r)
    else if contains identity r.vended_shared
    then (false, r)
    else (true, record r { isolated = include identity r.isolated })

-- `isHostAnchorValue`
unfoldable pub is_host_anchor_value : Text → Registry → Bool
is_host_anchor_value value r =
    if is_empty value then false else text_eq (credential r.instance_store) value

-- A change of the store that `forIdentity` answers with; the shared one is refused.
unfoldable pub change_private :
    (TokenManager → TokenManager) → StoreRef × Registry → Bool × Registry
change_private f (shared, r) = (false, r)
change_private f (private_store a, r) =
    (true, record r { heap = put a (f (store_of (private_store a) r)) r.heap })

-- `adoptCredentialFor`
unfoldable pub adopt_credential_for : Text → Text → Registry → Bool × Registry
adopt_credential_for identity value r =
    if is_empty identity || is_empty value
    then (false, r)
    else if is_isolated identity r
    then (if is_host_anchor_value value r
        then (false, r)
        else change_private (adopt_credential value) (for_identity identity r))
    else (false, r)

-- `resetIdentity`
unfoldable pub reset_identity : Text → Registry → Bool × Registry
reset_identity identity r =
    if is_isolated identity r
    then change_private clear_all_tokens (for_identity identity r)
    else (false, r)
