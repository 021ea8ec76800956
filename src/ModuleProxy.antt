-- ===== src/ModuleProxy.antt =====
-- The gate in front of a module: who may call it (cpp/module_proxy.cpp).
--
-- `utf8` is `QString::toUtf8`, and `validator` the proxy's optional validator. The tokens of the
-- proxy and of the store are scanned in the order of their lists.
pub mod Authorize
pub mod Dispatch
pub mod Naming
pub mod Callers
pub mod Branches
pub mod Gate
pub mod Handshake
pub mod Interface
use Prim.Native.Nat.{bit_and, bit_or, bit_xor}
use logos_protocol.Base.{
  ℕ, ◌+◌, ◌-◌, ◌%◌, ◌^◌, ◌≡◌, Bool, true, false, not, ◌&&◌, ◌||◌, Option, none, some, List, [], ◌∷◌,
  length, take, Text, text_key, text_eq, codes, put, ltb, leb, ◌==◌, any_of, if◌then◌else◌,
}
use logos_protocol.Tokens.{
  TokenManager, is_empty, bootstrap_keys, inbound_key_list, inbound_value, credential,
}

-- The loop of `constantTimeEquals`: past its end, a text counts as zeros.
unfoldable pub fold_diff : List ℕ → List ℕ → ℕ → ℕ
fold_diff [] [] diff = diff
fold_diff [] (b ∷ bs) diff = fold_diff [] bs (bit_or diff (bit_xor 0 b))
fold_diff (a ∷ xs) [] diff = fold_diff xs [] (bit_or diff (bit_xor a 0))
fold_diff (a ∷ xs) (b ∷ bs) diff = fold_diff xs bs (bit_or diff (bit_xor a b))

unfoldable pub bytes_equal : List ℕ → List ℕ → Bool
bytes_equal a b = fold_diff a b (bit_xor (length a) (length b)) == 0

-- The caller's name so far: 64 bytes of which `key_len` count.
pub record CallerFold : Type 0 where
  pub key : List ℕ
  pub key_len : ℕ

abbrev pub caller_key_max : ℕ
caller_key_max = 64

abbrev pub zeros : ℕ → List ℕ
zeros ℕ.zero = []
zeros (ℕ.suc n) = 0 ∷ zeros n

abbrev pub empty_fold : CallerFold
empty_fold = record { key = zeros caller_key_max; key_len = 0 }

-- A byte of `b` where the mask is 255, of `a` where it is 0.
unfoldable pub select : ℕ → ℕ → ℕ → ℕ
select mask a b = bit_or (bit_and a (255 - mask)) (bit_and b mask)

unfoldable pub select_all : ℕ → List ℕ → List ℕ → List ℕ
select_all mask [] cand = []
select_all mask (k ∷ ks) [] = select mask k 0 ∷ select_all mask ks []
select_all mask (k ∷ ks) (c ∷ cand) = select mask k c ∷ select_all mask ks cand

-- `CallerFold::offer`; a key that is too long is offered as an empty one.
unfoldable pub offer : Bool → List ℕ → CallerFold → CallerFold
offer matches cand fold =
    let mask = if matches then 255 else 0 in
    let fitting = if leb (length cand) caller_key_max then cand else [] in
    record {
      key = select_all mask fold.key fitting;
      key_len = select mask fold.key_len (length fitting);
    }

-- `CallerFold::name`
unfoldable pub name : CallerFold → List ℕ
name fold = take fold.key_len fold.key

-- What the scan has found, and how many comparisons it has made.
pub record ScanOutcome : Type 0 where
  pub authorized : Bool
  pub module_hits : ℕ
  pub anchor_hits : ℕ
  pub fold : CallerFold
  pub comparisons : ℕ

abbrev pub scan_start : ScanOutcome
scan_start = record {
  authorized = false;
  module_hits = 0;
  anchor_hits = 0;
  fold = empty_fold;
  comparisons = 0;
}

-- A caller as the JSON of cpp/logos_caller_scope.cpp names it.
pub data Caller : Type 0 where
  unknown : Caller
  host_anchor : Caller
  module_named : List ℕ → Caller

module _ (utf8 : Text → List ℕ) where
  -- `constantTimeEquals`
  unfoldable pub constant_time_equals : Text → Text → Bool
  constant_time_equals a b = bytes_equal (utf8 a) (utf8 b)

  -- The body of the loop over the tokens that the proxy holds.
  unfoldable pub scan_entry : Text → Text × Text → ScanOutcome → ScanOutcome
  scan_entry auth_token (key, value) out =
      let is_anchor = any_of (λ k. text_eq k key) bootstrap_keys in
      let matches = constant_time_equals auth_token value in
      record {
        authorized = out.authorized || matches;
        module_hits = (out.module_hits + (if matches then 1 else 0)) % 2 ^ 32;
        anchor_hits = out.anchor_hits;
        fold = offer (matches && not is_anchor) (utf8 key) out.fold;
        comparisons = out.comparisons + 1;
      }

  unfoldable pub scan_proxy : Text → List (Text × Text) → ScanOutcome → ScanOutcome
  scan_proxy auth_token [] out = out
  scan_proxy auth_token (entry ∷ m) out = scan_proxy auth_token m (scan_entry auth_token entry out)

  -- The body of the loop over the callers that the store issued a token to.
  unfoldable pub scan_caller : Text → Text → TokenManager → ScanOutcome → ScanOutcome
  scan_caller auth_token caller store out = record {
    authorized = out.authorized || constant_time_equals auth_token (inbound_value caller store);
    module_hits = out.module_hits;
    anchor_hits = out.anchor_hits;
    fold = out.fold;
    comparisons = out.comparisons + 1;
  }

  unfoldable pub scan_store : Text → List Text → TokenManager → ScanOutcome → ScanOutcome
  scan_store auth_token [] store out = out
  scan_store auth_token (caller ∷ callers) store out =
      scan_store auth_token callers store (scan_caller auth_token caller store out)

  -- The comparison with the store's own credential.
  unfoldable pub scan_credential : Text → Text → ScanOutcome → ScanOutcome
  scan_credential auth_token own out =
      let matches = constant_time_equals auth_token own && not (is_empty own) in
      record {
        authorized = out.authorized || matches;
        module_hits = out.module_hits;
        anchor_hits = (out.anchor_hits + (if matches then 1 else 0)) % 2 ^ 32;
        fold = out.fold;
        comparisons = out.comparisons + 1;
      }

  -- `scanIssuedTokens`
  unfoldable pub scan_issued_tokens : Text → List (Text × Text) → TokenManager → ScanOutcome
  scan_issued_tokens auth_token proxy_inbound store =
      scan_credential auth_token (credential store) (
        scan_store auth_token (inbound_key_list store) store
          (scan_proxy auth_token proxy_inbound scan_start))

  -- Which caller a scan has found.
  unfoldable pub caller_of : ScanOutcome → Caller
  caller_of scan =
      if ltb 0 scan.anchor_hits
      then host_anchor
      else if (scan.module_hits == 1) && ltb 0 scan.fold.key_len
      then module_named (name scan.fold)
      else unknown

  abbrev pub validates : Option (Text → Text → Bool) → Text → Text → Bool
  validates none auth_token transport = false
  validates (some f) auth_token transport = f auth_token transport

  -- `ModuleProxy::authorize`
  unfoldable pub authorize :
      Option (Text → Text → Bool) → Text → Text → List (Text × Text) → TokenManager → Bool × Caller
  authorize validator auth_token transport tokens store =
      if is_empty auth_token
      then (false, unknown)
      else let scan = scan_issued_tokens auth_token tokens store in
        if scan.authorized || validates validator auth_token transport
        then (true, caller_of scan)
        else (false, unknown)

-- `ModuleProxy::saveToken`
unfoldable pub save_module_token : Text → Text → List (Text × Text) → Bool × List (Text × Text)
save_module_token from_module token tokens =
    if is_empty from_module
    then (false, tokens)
    else if is_empty token
    then (false, tokens)
    else (true, put from_module token tokens)
