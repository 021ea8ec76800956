-- ===== src/ModuleProxy/Authorize.antt =====
-- The constant-time comparison and the scan against what they decide (cpp/module_proxy.cpp).
use Prim.Native.Nat.{bit_or, bit_xor}
use logos_protocol.Base.{
  ℕ, ◌+◌, ◌≡◌, refl, sym, ap, ap₂, subst, ◌∙◌, Bool, true, not, ◌&&◌, ◌||◌, Option, List, [], ◌∷◌,
  arith, length, Text, text_eq, text_eq_iff, any_of, ==→eq, Bool-cases, inl, inr,
}
use logos_protocol.Base.Xor.{xor_zero, xor_self, or_zero}
use logos_protocol.Tokens.{TokenManager, is_empty, inbound_key_list, inbound_value, credential}
use logos_protocol.ModuleProxy.{
  fold_diff, bytes_equal, ScanOutcome, scan_start, constant_time_equals, scan_proxy, scan_entry,
  scan_store, scan_caller, scan_credential, scan_issued_tokens, validates, authorize,
}

fold_diff_zero :
    (a b : List ℕ) (diff : ℕ) → fold_diff a b diff ≡ 0 → (diff ≡ 0) × (length a ≡ length b → a ≡ b)
unfolding fold_diff
fold_diff_zero [] [] diff e = (e, λ h. refl)
fold_diff_zero [] (b ∷ bs) diff e =
    ((or_zero diff (bit_xor 0 b) (fold_diff_zero [] bs _ e).0).0, λ h. absurd (omega (arith, h)))
fold_diff_zero (a ∷ xs) [] diff e =
    ((or_zero diff (bit_xor a 0) (fold_diff_zero xs [] _ e).0).0, λ h. absurd (omega (arith, h)))
fold_diff_zero (a ∷ xs) (b ∷ bs) diff e =
    let (seen, rest) = fold_diff_zero xs bs (bit_or diff (bit_xor a b)) e in
    let (before, here) = or_zero diff (bit_xor a b) seen in
    (before, λ h. ap₂ (λ x (ys : List ℕ). x ∷ ys) (xor_zero a b here) (rest (omega (arith, h))))

fold_diff_self : (a : List ℕ) → fold_diff a a 0 ≡ 0
unfolding fold_diff
fold_diff_self [] = refl
fold_diff_self (a ∷ xs) = rw (xor_self a) (fold_diff_self xs)

bytes_equal_self : (a : List ℕ) → bytes_equal a a ≡ true
unfolding bytes_equal
bytes_equal_self a = rw (xor_self (length a), fold_diff_self a) refl

-- The constant-time comparison of bytes decides their equality, as a comparison does that stops at
-- the first difference.
pub bytes_equal-text_eq : (a b : List ℕ) → bytes_equal a b ≡ text_eq a b
unfolding bytes_equal
bytes_equal-text_eq a b = elim (Bool-cases (bytes_equal a b)) [
  | inl e ↦ e ∙ sym ((text_eq_iff a b).1 (equal e))
  | inr e ↦ elim (Bool-cases (text_eq a b)) [
    | inl same ↦ absurd (cc (e, reflected ((text_eq_iff a b).0 same)))
    | inr other ↦ e ∙ sym other
  ]
]
  where
    equal : bytes_equal a b ≡ true → a ≡ b
    equal e =
        let (sizes, bytes) = fold_diff_zero a b (bit_xor (length a) (length b)) (==→eq _ 0 e) in
        bytes (xor_zero (length a) (length b) sizes)

    reflected : a ≡ b → bytes_equal a b ≡ true
    reflected p = subst (λ c. bytes_equal a c ≡ true) p (bytes_equal_self a)

or_assoc : (a b c : Bool) → (a || b) || c ≡ a || (b || c)
or_assoc a b c = ground arith

module _ (utf8 : Text → List ℕ) where
  -- Whether two texts have the same bytes.
  unfoldable pub same_bytes : Text → Text → Bool
  same_bytes a b = text_eq (utf8 a) (utf8 b)

  scan_proxy-comparisons :
      (t : Text) (m : List (Text × Text)) (out : ScanOutcome)
      → (scan_proxy utf8 t m out).comparisons ≡ out.comparisons + length m
  unfolding scan_proxy scan_entry
  scan_proxy-comparisons t [] out = omega arith
  scan_proxy-comparisons t (e ∷ m) out =
      omega (arith, scan_proxy-comparisons t m (scan_entry utf8 t e out))

  scan_store-comparisons :
      (t : Text) (m : List Text) (s : TokenManager) (out : ScanOutcome)
      → (scan_store utf8 t m s out).comparisons ≡ out.comparisons + length m
  unfolding scan_store scan_caller
  scan_store-comparisons t [] s out = omega arith
  scan_store-comparisons t (c ∷ m) s out =
      omega (arith, scan_store-comparisons t m s (scan_caller utf8 t c s out))

  -- Every scan makes the same number of comparisons, whatever the token is: one for each token that
  -- was issued, and one for the store's own credential.
  pub scan_issued_tokens-comparisons :
      (auth_token : Text) (tokens : List (Text × Text)) (store : TokenManager)
      → (scan_issued_tokens utf8 auth_token tokens store).comparisons
        ≡ length tokens + length (inbound_key_list store) + 1
  unfolding scan_issued_tokens scan_credential
  scan_issued_tokens-comparisons t tokens store = omega (
    arith,
    scan_proxy-comparisons t tokens scan_start,
    scan_store-comparisons t (inbound_key_list store) store (scan_proxy utf8 t tokens scan_start),
  )

  scan_proxy-authorized :
      (t : Text) (m : List (Text × Text)) (out : ScanOutcome)
      → (scan_proxy utf8 t m out).authorized
        ≡ out.authorized || any_of (λ (e : Text × Text). same_bytes t e.1) m
  unfolding scan_proxy scan_entry constant_time_equals same_bytes
  scan_proxy-authorized t [] out = ground arith
  scan_proxy-authorized t (e ∷ m) out =
      scan_proxy-authorized t m (scan_entry utf8 t e out)
      ∙ ap (λ b. (out.authorized || b) || any_of (λ (e : Text × Text). same_bytes t e.1) m)
          (bytes_equal-text_eq (utf8 t) (utf8 e.1))
      ∙ or_assoc out.authorized (same_bytes t e.1) _

  scan_store-authorized :
      (t : Text) (m : List Text) (s : TokenManager) (out : ScanOutcome)
      → (scan_store utf8 t m s out).authorized
        ≡ out.authorized || any_of (λ c. same_bytes t (inbound_value c s)) m
  unfolding scan_store scan_caller constant_time_equals same_bytes
  scan_store-authorized t [] s out = ground arith
  scan_store-authorized t (c ∷ m) s out =
      scan_store-authorized t m s (scan_caller utf8 t c s out)
      ∙ ap (λ b. (out.authorized || b) || any_of (λ d. same_bytes t (inbound_value d s)) m)
          (bytes_equal-text_eq (utf8 t) (utf8 (inbound_value c s)))
      ∙ or_assoc out.authorized (same_bytes t (inbound_value c s)) _

  -- Whether the token is one that was issued, to the proxy's callers or by the store, or the store's
  -- own credential.
  unfoldable pub issued : Text → List (Text × Text) → TokenManager → Bool
  issued t tokens s =
      (any_of (λ (e : Text × Text). same_bytes t e.1) tokens
        || any_of (λ c. same_bytes t (inbound_value c s)) (inbound_key_list s))
      || (same_bytes t (credential s) && not (is_empty (credential s)))

  scan_issued_tokens-authorized :
      (t : Text) (tokens : List (Text × Text)) (s : TokenManager)
      → (scan_issued_tokens utf8 t tokens s).authorized ≡ issued t tokens s
  unfolding scan_issued_tokens scan_credential issued constant_time_equals same_bytes
  scan_issued_tokens-authorized t tokens s =
      ap₂ (λ a b. a || (b && not (is_empty (credential s))))
        (scan_store-authorized t (inbound_key_list s) s (scan_proxy utf8 t tokens scan_start)
          ∙ ap (λ a. a || any_of (λ c. same_bytes t (inbound_value c s)) (inbound_key_list s))
              (scan_proxy-authorized t tokens scan_start))
        (bytes_equal-text_eq (utf8 t) (utf8 (credential s)))

  -- A call is admitted exactly if its token is not empty and either has the bytes of a token that
  -- was issued or of the store's own credential, which is not empty, or passes the validator.
  pub authorize_iff :
      (validator : Option (Text → Text → Bool)) (auth_token transport : Text)
      (tokens : List (Text × Text)) (store : TokenManager)
      → (authorize utf8 validator auth_token transport tokens store).0
        ≡ not (is_empty auth_token)
          && (issued auth_token tokens store || validates utf8 validator auth_token transport)
  unfolding authorize
  authorize_iff validator t transport tokens store =
      ground (arith, scan_issued_tokens-authorized t tokens store)

  -- The comparison of bytes decides their equality, as one does that stops at the first difference,
  -- and a scan makes the same number of comparisons whatever the token is: one for each token that
  -- was issued, and one for the store's own credential.
  pub scan_issued_tokens_uniform :
      (a b : List ℕ) (auth_token : Text) (tokens : List (Text × Text)) (store : TokenManager)
      → (bytes_equal a b ≡ text_eq a b)
        × ((scan_issued_tokens utf8 auth_token tokens store).comparisons
            ≡ length tokens + length (inbound_key_list store) + 1)
  scan_issued_tokens_uniform a b auth_token tokens store =
      (bytes_equal-text_eq a b, scan_issued_tokens-comparisons auth_token tokens store)
