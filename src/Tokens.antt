-- ===== src/Tokens.antt =====
-- The token store of a process (cpp/token_manager.{h,cpp}): what a peer presents when it calls
-- (outbound) and what it issued to its callers (inbound), two key namespaces in one table.
pub mod Directions
pub mod Registry
pub mod Kept
pub mod OneStore
use logos_protocol.Base.{
  ℕ, ◌+◌, ◌≡◌, refl, Bool, true, false, not, ◌||◌, Option, none, some, List, [], ◌∷◌, ◌++◌, drop,
  length, any_of, Text, codes, text_eq, text_key, lookup, put, erase, ◌==◌, if◌then◌else◌,
}

-- `m_tokens`
pub record TokenManager : Type 0 where
  pub tokens : List (Text × Text)

abbrev pub empty_store : TokenManager
empty_store = record { tokens = [] }

-- `namespaceChar()`
abbrev pub namespace_char : ℕ
namespace_char = 1

abbrev pub is_empty : Text → Bool
is_empty [] = true
is_empty (c ∷ cs) = false

-- `isReservedKey`
unfoldable pub is_reserved_key : Text → Bool
is_reserved_key key = any_of (λ c. c == namespace_char) key

-- `inboundKey`
unfoldable pub inbound_key : Text → Text
inbound_key caller = namespace_char ∷ codes "in" ++ namespace_char ∷ caller

abbrev pub bootstrap_keys : List Text
bootstrap_keys = codes "core" ∷ codes "capability_module" ∷ []

-- `QHash::value(key, QString())`
abbrev pub or_empty : Option Text → Text
or_empty none = []
or_empty (some v) = v

abbrev pub is_some : Option Text → Bool
is_some none = false
is_some (some v) = true

-- The outbound half.
unfoldable pub save_token : Text → Text → TokenManager → TokenManager
save_token key token s =
    if is_reserved_key key then s else record { tokens = put key token s.tokens }

unfoldable pub get_token : Text → TokenManager → Text
get_token key s = if is_reserved_key key then [] else or_empty (lookup key s.tokens)

unfoldable pub has_token : Text → TokenManager → Bool
has_token key s = if is_reserved_key key then false else is_some (lookup key s.tokens)

unfoldable pub remove_token : Text → TokenManager → Bool × TokenManager
remove_token key s =
    if is_reserved_key key
    then (false, s)
    else if is_some (lookup key s.tokens)
    then (true, record { tokens = erase key s.tokens })
    else (false, s)

unfoldable pub clear_all_tokens : TokenManager → TokenManager
clear_all_tokens s = empty_store

unfoldable pub keys_where : (Text → Bool) → List (Text × Text) → List Text
keys_where p [] = []
keys_where p ((k, v) ∷ m) = let rest = keys_where p m in if p k then k ∷ rest else rest

-- `getTokenKeys`, `tokenCount`
unfoldable pub get_token_keys : TokenManager → List Text
get_token_keys s = keys_where (λ k. not (is_reserved_key k)) s.tokens

unfoldable pub token_count : TokenManager → ℕ
token_count s = length (get_token_keys s)

-- The inbound half.
unfoldable pub save_inbound_token : Text → Text → TokenManager → Bool × TokenManager
save_inbound_token caller token s =
    if is_empty caller || is_empty token
    then (false, s)
    else if is_reserved_key caller
    then (false, s)
    else (true, record { tokens = put (inbound_key caller) token s.tokens })

unfoldable pub inbound_value : Text → TokenManager → Text
inbound_value caller s =
    if is_reserved_key caller then [] else or_empty (lookup (inbound_key caller) s.tokens)

unfoldable pub inbound_contains : Text → TokenManager → Bool
inbound_contains caller s =
    if is_reserved_key caller then false else is_some (lookup (inbound_key caller) s.tokens)

unfoldable pub drop_each : ℕ → List Text → List Text
drop_each n [] = []
drop_each n (k ∷ ks) = drop n k ∷ drop_each n ks

unfoldable pub inbound_key_list : TokenManager → List Text
inbound_key_list s = drop_each (length (inbound_key [])) (keys_where is_reserved_key s.tokens)

unfoldable pub inbound_count : TokenManager → ℕ
inbound_count s = length (keys_where is_reserved_key s.tokens)

-- `credentialLocked`: the first of the bootstrap keys that holds a token.
unfoldable pub first_value : List Text → TokenManager → Text
first_value [] s = []
first_value (key ∷ keys) s =
    let rest = first_value keys s in
    let value = or_empty (lookup key s.tokens) in if is_empty value then rest else value

unfoldable pub credential : TokenManager → Text
credential s = first_value bootstrap_keys s

-- `adoptCredential`
unfoldable pub adopt_credential : Text → TokenManager → TokenManager
adopt_credential value s =
    if is_empty value
    then s
    else save_token (codes "capability_module") value (save_token (codes "core") value s)
