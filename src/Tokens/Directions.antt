-- ===== src/Tokens/Directions.antt =====
-- The outbound operations of a token store against its inbound ones (cpp/token_manager.cpp).
use logos_protocol.Base.{
  ◌≡◌, ◌≢◌, refl, sym, ap, true, false, arith, Text, text_key, lookup-put_ne, lookup-erase_ne,
}
use logos_protocol.Tokens.{
  TokenManager, is_reserved_key, inbound_key, save_token, get_token, remove_token,
  save_inbound_token, inbound_value, has_token,
}

is_reserved_key-inbound_key : (caller : Text) → is_reserved_key (inbound_key caller) ≡ true
unfolding is_reserved_key inbound_key
is_reserved_key-inbound_key caller = refl

-- A key that is not reserved is no inbound key.
key_ne_inbound : (key caller : Text) → is_reserved_key key ≡ false → key ≢ inbound_key caller
key_ne_inbound key caller h e = cc (h, ap is_reserved_key e, is_reserved_key-inbound_key caller)

-- No outbound operation changes what a caller was issued: whatever the key, saving or removing
-- under it leaves every inbound value as it was.
pub inbound_value-outbound :
    (key token caller : Text) (s : TokenManager)
    → (inbound_value caller (save_token key token s) ≡ inbound_value caller s)
      × (inbound_value caller (remove_token key s).1 ≡ inbound_value caller s)
unfolding inbound_value save_token remove_token
inbound_value-outbound key token caller s = ground (
  arith,
  key_ne_inbound key caller,
  lookup-put_ne key (inbound_key caller) token s.tokens,
  lookup-erase_ne key (inbound_key caller) s.tokens,
)

-- No inbound grant can be presented as one's own token: whatever the names, saving an inbound token
-- leaves every outbound answer, present or absent, as it was.
pub get_token-save_inbound_token :
    (caller token key : Text) (s : TokenManager)
    → (get_token key (save_inbound_token caller token s).1 ≡ get_token key s)
      × (has_token key (save_inbound_token caller token s).1 ≡ has_token key s)
unfolding get_token has_token save_inbound_token
get_token-save_inbound_token caller token key s = ground (
  arith,
  λ (h : is_reserved_key key ≡ false) (e : inbound_key caller ≡ key).
      key_ne_inbound key caller h (sym e),
  lookup-put_ne (inbound_key caller) key token s.tokens,
)

-- The two directions of a store are apart, whatever the names. Saving or removing one's own token
-- under any key leaves what each caller was issued as it was, and saving what a caller is issued
-- leaves every answer about one's own tokens, present or absent, as it was.
pub directions_apart :
    (key token caller : Text) (s : TokenManager)
    → (inbound_value caller (save_token key token s) ≡ inbound_value caller s)
      × (inbound_value caller (remove_token key s).1 ≡ inbound_value caller s)
      × (get_token key (save_inbound_token caller token s).1 ≡ get_token key s)
      × (has_token key (save_inbound_token caller token s).1 ≡ has_token key s)
directions_apart key token caller s =
    let (saved, gone) = inbound_value-outbound key token caller s in
    let (kept, known) = get_token-save_inbound_token caller token key s in
    (saved, gone, kept, known)
