-- ===== src/Tests/Proxies.antt =====
-- The module proxy at concrete inputs.
use logos_protocol.Base.{
  ℕ, ◌+◌, ◌≡◌, not, ◌&&◌, ◌||◌, none, List, [], ◌∷◌, length, Text, codes, text_eq,
}
use logos_protocol.Tokens.{TokenManager, is_empty, inbound_key, inbound_key_list}
use logos_protocol.ModuleProxy.{bytes_equal, scan_issued_tokens, validates, authorize}
use logos_protocol.ModuleProxy.Authorize.{scan_issued_tokens_uniform, issued, authorize_iff}

-- Texts of ASCII characters are their bytes.
abbrev ascii : Text → List ℕ
ascii t = t

abbrev held : List (Text × Text)
held = (codes "chat", codes "t1") ∷ []

abbrev store : TokenManager
store = record {
  tokens = (inbound_key (codes "wallet"), codes "t2") ∷ (codes "core", codes "anchor") ∷ [];
}

authorize_iff_example :
    (authorize ascii none (codes "t2") (codes "tcp") held store).0
    ≡ not (is_empty (codes "t2"))
      && (issued ascii (codes "t2") held store || validates ascii none (codes "t2") (codes "tcp"))
authorize_iff_example = authorize_iff ascii none (codes "t2") (codes "tcp") held store

scan_issued_tokens_uniform_example :
    (bytes_equal (codes "t1") (codes "t12") ≡ text_eq (codes "t1") (codes "t12"))
    × ((scan_issued_tokens ascii (codes "guess") held store).comparisons
        ≡ length held + length (inbound_key_list store) + 1)
scan_issued_tokens_uniform_example =
    scan_issued_tokens_uniform ascii (codes "t1") (codes "t12") (codes "guess") held store
