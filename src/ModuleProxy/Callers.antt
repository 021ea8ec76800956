-- ===== src/ModuleProxy/Callers.antt =====
-- The caller that the proxy names to a module (cpp/module_proxy.cpp).
use logos_protocol.Base.{
  ℕ, ◌+◌, ◌≡◌, ◌<◌, ◌≤◌, ◌^◌, refl, sym, ap, subst, ◌∙◌, Bool, true, false, not, ◌&&◌, ◌||◌, Option,
  List, [], ◌∷◌, length, any_of, Text, text_eq, text_eq_refl, arith, Bool-cases, inl, inr,
  if◌then◌else◌, ltb, ◌==◌, ==→eq,
}
use logos_protocol.Tokens.{TokenManager, is_empty, bootstrap_keys, inbound_key_list, credential}
use logos_protocol.ModuleProxy.{
  CallerFold, empty_fold, offer, name, ScanOutcome, scan_start, constant_time_equals, scan_proxy,
  scan_entry, scan_store, scan_caller, scan_credential, scan_issued_tokens, Caller, unknown,
  host_anchor, module_named, caller_of, validates, authorize,
}
use logos_protocol.ModuleProxy.Authorize.{bytes_equal-text_eq, same_bytes}
use logos_protocol.ModuleProxy.Naming.{
  Bytes, Fits, offer-false, offer-Fits, empty_fold-Fits, offered_name,
}

one_at_most : (b : Bool) → (if◌then◌else◌ {A = ℕ} b 1 0) ≤ 1
one_at_most true = omega arith
one_at_most false = omega arith

and_true : (a b : Bool) → a && b ≡ true → (a ≡ true) × (b ≡ true)
and_true a b h = ground (arith, h)

module _ (utf8 : Text → List ℕ) where
  -- How many of the entries hold the token.
  unfoldable hits : Text → List (Text × Text) → ℕ
  hits t [] = 0
  hits t (e ∷ m) = (if constant_time_equals utf8 t e.1 then 1 else 0) + hits t m

  -- Whether the token was issued to the caller of that name, which is not an anchor's.
  unfoldable pub issued_to : Text → List ℕ → List (Text × Text) → Bool
  issued_to t n [] = false
  issued_to t n (e ∷ m) =
      (constant_time_equals utf8 t e.1
        && (text_eq (utf8 e.0) n && not (any_of (λ k. text_eq k e.0) bootstrap_keys)))
      || issued_to t n m

  issued_head :
      (t : Text) (n : List ℕ) (e : Text × Text) (m : List (Text × Text))
      → n ≡ utf8 e.0
      → constant_time_equals utf8 t e.1 ≡ true
      → not (any_of (λ k. text_eq k e.0) bootstrap_keys) ≡ true
      → issued_to t n (e ∷ m) ≡ true
  unfolding issued_to
  issued_head t n e m p q r = rw (p, q, text_eq_refl (utf8 e.0)) (ap (λ b. b || issued_to t n m) r)

  scan_proxy-hits :
      (t : Text) (m : List (Text × Text)) (out : ScanOutcome)
      → out.module_hits + length m < 2 ^ 32
      → (scan_proxy utf8 t m out).module_hits ≡ out.module_hits + hits t m
  unfolding scan_proxy scan_entry hits
  scan_proxy-hits t [] out h = omega arith
  scan_proxy-hits t (e ∷ m) out h =
      let bit = one_at_most (constant_time_equals utf8 t e.1) in
      omega (arith, bit, scan_proxy-hits t m (scan_entry utf8 t e out) (omega (arith, bit, h)))

  module _ (utf8-Bytes : (t : Text) → Bytes (utf8 t)) where
    -- The fold after an entry.
    entry_offer :
        (t : Text) (e : Text × Text) (out : ScanOutcome) (b : Bool)
        → constant_time_equals utf8 t e.1 ≡ b
        → (scan_entry utf8 t e out).fold
          ≡ offer (b && not (any_of (λ k. text_eq k e.0) bootstrap_keys)) (utf8 e.0) out.fold
    unfolding scan_entry
    entry_offer t e out b h =
        ap (λ c. offer (c && not (any_of (λ k. text_eq k e.0) bootstrap_keys)) (utf8 e.0) out.fold)
          h

    -- Entries that do not match leave the fold as it is.
    unmatched :
        (t : Text) (m : List (Text × Text)) (out : ScanOutcome)
        → Fits out.fold
        → hits t m ≡ 0
        → (scan_proxy utf8 t m out).fold ≡ out.fold
    unfolding scan_proxy hits
    unmatched t [] out f h = refl
    unmatched t (e ∷ m) out f h = elim (Bool-cases (constant_time_equals utf8 t e.1)) [
      | inl p ↦ absurd (ground (arith, h, p))
      | inr p ↦
          let here = entry_offer t e out false p ∙ offer-false (utf8 e.0) out.fold f in
          unmatched t m (scan_entry utf8 t e out) (subst Fits (sym here) f) (omega (arith, h))
          ∙ here
    ]

    -- If one entry matches, the name that the fold keeps is the key of an entry that holds the token.
    matched_once :
        (t : Text) (m : List (Text × Text)) (out : ScanOutcome)
        → out.fold ≡ empty_fold
        → hits t m ≡ 1
        → ltb 0 (scan_proxy utf8 t m out).fold.key_len ≡ true
        → issued_to t (name (scan_proxy utf8 t m out).fold) m ≡ true
    unfolding scan_proxy hits issued_to
    matched_once t [] out f h l = absurd (omega (arith, h))
    matched_once t (e ∷ m) out f h l = elim (Bool-cases (constant_time_equals utf8 t e.1)) [
      | inl p ↦
          let own = not (any_of (λ k. text_eq k e.0) bootstrap_keys) in
          let here : (scan_entry utf8 t e out).fold ≡ offer own (utf8 e.0) empty_fold =
            entry_offer t e out true p ∙ ap (offer own (utf8 e.0)) f in
          let fits = offer-Fits own (utf8 e.0) empty_fold (utf8-Bytes e.0) empty_fold-Fits in
          let last =
            unmatched t m (scan_entry utf8 t e out) (subst Fits (sym here) fits)
              (ground (arith, h, p))
            ∙ here in
          let (plain, called) =
            offered_name own (utf8 e.0) (utf8-Bytes e.0)
              (sym (ap (λ g. ltb 0 g.key_len) last) ∙ l) in
          issued_head t _ e m (ap name last ∙ called) p plain
      | inr p ↦
          let here =
            entry_offer t e out false p
            ∙ ap (offer false (utf8 e.0)) f
            ∙ offer-false (utf8 e.0) empty_fold empty_fold-Fits in
          ground
            (arith, p, matched_once t m (scan_entry utf8 t e out) here (ground (arith, h, p)) l)
    ]

  scan_store-kept :
      (t : Text) (callers : List Text) (s : TokenManager) (out : ScanOutcome)
      → ((scan_store utf8 t callers s out).module_hits ≡ out.module_hits)
        × ((scan_store utf8 t callers s out).anchor_hits ≡ out.anchor_hits)
        × ((scan_store utf8 t callers s out).fold ≡ out.fold)
  unfolding scan_store scan_caller
  scan_store-kept t [] s out = (refl, refl, refl)
  scan_store-kept t (c ∷ callers) s out = scan_store-kept t callers s (scan_caller utf8 t c s out)

  scan_proxy-anchors :
      (t : Text) (m : List (Text × Text)) (out : ScanOutcome)
      → (scan_proxy utf8 t m out).anchor_hits ≡ out.anchor_hits
  unfolding scan_proxy scan_entry
  scan_proxy-anchors t [] out = refl
  scan_proxy-anchors t (e ∷ m) out = scan_proxy-anchors t m (scan_entry utf8 t e out)

  -- What the scan of all tokens counts and keeps.
  scanned :
      (t : Text) (m : List (Text × Text)) (s : TokenManager)
      → ((scan_issued_tokens utf8 t m s).module_hits ≡ (scan_proxy utf8 t m scan_start).module_hits)
        × ((scan_issued_tokens utf8 t m s).fold ≡ (scan_proxy utf8 t m scan_start).fold)
        × ((scan_issued_tokens utf8 t m s).anchor_hits ≡ (
            if constant_time_equals utf8 t (credential s) && not (is_empty (credential s))
            then 1
            else 0))
  unfolding scan_issued_tokens scan_credential
  scanned t m s =
      let (hit, anchor, fold) =
        scan_store-kept t (inbound_key_list s) s (scan_proxy utf8 t m scan_start) in
      (
        hit,
        fold,
        omega (
          arith,
          anchor,
          scan_proxy-anchors t m scan_start,
          one_at_most (constant_time_equals utf8 t (credential s) && not (is_empty (credential s))),
        ),
      )

  -- What a named caller means: the host holds the store's own credential, and a module the token that
  -- was issued under its name.
  abbrev pub Named : Text → List (Text × Text) → TokenManager → Caller → Type 0
  Named t m s unknown = Unit
  Named t m s host_anchor = same_bytes utf8 t (credential s) && not (is_empty (credential s)) ≡ true
  Named t m s (module_named n) = issued_to t n m ≡ true

  module _ (utf8-Bytes : (t : Text) → Bytes (utf8 t)) where
    named_module :
        (t : Text) (m : List (Text × Text)) (s : TokenManager)
        → length m < 2 ^ 32
        → (scan_issued_tokens utf8 t m s).module_hits == 1
            && ltb 0 (scan_issued_tokens utf8 t m s).fold.key_len
          ≡ true
        → issued_to t (name (scan_issued_tokens utf8 t m s).fold) m ≡ true
    named_module t m s h e =
        let (hit, fold, anchor) = scanned t m s in
        let (one, counts) = and_true _ (ltb 0 (scan_issued_tokens utf8 t m s).fold.key_len) e in
        let count : (scan_issued_tokens utf8 t m s).module_hits ≡ 1 = ==→eq _ 1 one in
        let seen = scan_proxy-hits t m scan_start (omega (arith, h)) in
        let once : hits t m ≡ 1 = omega (arith, count, hit, seen) in
        rw fold (
          matched_once utf8-Bytes t m scan_start refl once
            (ap (λ (f : CallerFold). ltb 0 f.key_len) (sym fold) ∙ counts))

    named_host :
        (t : Text) (m : List (Text × Text)) (s : TokenManager)
        → ltb 0 (scan_issued_tokens utf8 t m s).anchor_hits ≡ true
        → same_bytes utf8 t (credential s) && not (is_empty (credential s)) ≡ true
    unfolding same_bytes constant_time_equals
    named_host t m s e =
        ground (arith, e, (scanned t m s).2, bytes_equal-text_eq (utf8 t) (utf8 (credential s)))

    pub caller_of-Named :
        (t : Text) (m : List (Text × Text)) (s : TokenManager)
        → length m < 2 ^ 32
        → Named t m s (caller_of utf8 (scan_issued_tokens utf8 t m s))
    unfolding caller_of
    caller_of-Named t m s h =
        elim (Bool-cases (ltb 0 (scan_issued_tokens utf8 t m s).anchor_hits)) [
          | inl a ↦ rw a (named_host t m s a)
          | inr a ↦
              elim (Bool-cases (
                (scan_issued_tokens utf8 t m s).module_hits == 1
                && ltb 0 (scan_issued_tokens utf8 t m s).fold.key_len)) [
                  | inl b ↦ rw (a, b) (named_module t m s h b)
                  | inr b ↦ rw (a, b) tt
                ]
        ]

    -- Whatever the answer of the gate, the caller that it names is the one that the token was issued to.
    pub authorize-Named :
        (validator : Option (Text → Text → Bool)) (t transport : Text) (m : List (Text × Text))
        (s : TokenManager)
        → length m < 2 ^ 32
        → Named t m s (authorize utf8 validator t transport m s).1
    unfolding authorize
    authorize-Named validator t transport m s h = elim (Bool-cases (is_empty t)) [
      | inl a ↦ rw a tt
      | inr a ↦
          elim (Bool-cases
            ((scan_issued_tokens utf8 t m s).authorized || validates utf8 validator t transport)) [
              | inl b ↦ rw (a, b) (caller_of-Named t m s h)
              | inr b ↦ rw (a, b) tt
            ]
    ]
