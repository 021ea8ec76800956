-- ===== src/Tests/Stores.antt =====
-- The token stores at concrete inputs.
use logos_protocol.Base.{◌≡◌, [], ◌∷◌, codes}
use logos_protocol.Tokens.{
  inbound_key, TokenManager, save_token, remove_token, inbound_value, get_token, has_token,
  save_inbound_token,
}
use logos_protocol.Tokens.Directions.{directions_apart}
use logos_protocol.Tokens.Registry.{Registry, for_identity}
use logos_protocol.Tokens.OneStore.{isolate, perform_all, for_identity_stable}

-- A host that holds its anchor, and a store that issued a token to "chat".
abbrev host : TokenManager
host = record { tokens = (codes "core", codes "anchor") ∷ [] }

abbrev issued : TokenManager
issued = record { tokens = (inbound_key (codes "chat"), codes "x") ∷ [] }

abbrev registry : Registry
registry = record {
  isolated = [];
  vended_shared = [];
  stores = [];
  heap = [];
  next_store = 0;
  instance_store = host;
}

-- Asked for first, and then isolated: too late.
for_identity_stable_example :
    (for_identity
      (codes "chat")
      (perform_all (isolate (codes "chat") ∷ []) (for_identity (codes "chat") registry).1)).0
    ≡ (for_identity (codes "chat") registry).0
for_identity_stable_example =
    for_identity_stable (codes "chat") (isolate (codes "chat") ∷ []) registry

directions_apart_example :
    (inbound_value (codes "chat") (save_token (codes "core") (codes "t") issued)
      ≡ inbound_value (codes "chat") issued)
    × (inbound_value (codes "chat") (remove_token (codes "core") issued).1
        ≡ inbound_value (codes "chat") issued)
    × (get_token (codes "core") (save_inbound_token (codes "chat") (codes "t") issued).1
        ≡ get_token (codes "core") issued)
    × (has_token (codes "core") (save_inbound_token (codes "chat") (codes "t") issued).1
        ≡ has_token (codes "core") issued)
directions_apart_example = directions_apart (codes "core") (codes "t") (codes "chat") issued
