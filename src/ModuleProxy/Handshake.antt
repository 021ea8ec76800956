-- ===== src/ModuleProxy/Handshake.antt =====
-- The push of a token to a module (cpp/module_proxy.cpp).
use logos_protocol.Base.{
  ℕ, ◌≡◌, refl, sym, ap, ◌∙◌, Bool, true, false, not, ◌&&◌, Option, none, some, List, [], ◌∷◌,
  any_of, Text, text_eq_refl, text_key, lookup, put, lookup-put_self, arith, Bool-cases, inl, inr,
}
use logos_protocol.Tokens.{TokenManager, is_empty, credential}
use logos_protocol.ModuleProxy.{constant_time_equals, authorize, save_module_token}
use logos_protocol.ModuleProxy.Dispatch.{
  World, Provider, ModuleProxy, forward_token, inform_module_token,
}
use logos_protocol.ModuleProxy.Authorize.{bytes_equal-text_eq, same_bytes, issued, authorize_iff}

module _ (utf8 : Text → List ℕ) where
  same_bytes-put :
      (k t : Text) (m : List (Text × Text))
      → any_of (λ (e : Text × Text). same_bytes utf8 t e.1) (put k t m) ≡ true
  unfolding put same_bytes
  same_bytes-put k t [] = ground (arith, text_eq_refl (utf8 t))
  same_bytes-put k t (e ∷ m) = ground (arith, text_eq_refl (utf8 t), same_bytes-put k t m)

  -- What the proxy holds is admitted.
  held_admitted :
      (f : Option (Text → Text → Bool)) (k t transport : Text) (m : List (Text × Text))
      (s : TokenManager)
      → is_empty t ≡ false
      → (authorize utf8 f t transport (put k t m) s).0 ≡ true
  unfolding issued
  held_admitted f k t transport m s h =
      authorize_iff utf8 f t transport (put k t m) s ∙ rw (h, same_bytes-put k t m) refl

  -- Whether the caller of the push holds the store's own credential.
  unfoldable pub is_trusted : Text → TokenManager → Bool
  is_trusted t s = same_bytes utf8 t (credential s) && not (is_empty (credential s))

  -- What an accepted push has been, and what it leaves.
  abbrev pub Granted :
      {S : Type 0}
      → Option (Text → Text → Bool)
      → Text
      → Text
      → Text
      → Text
      → World S
      → Bool × World S
      → Type 0
  Granted f transport t name token w r =
      (is_trusted t w.store ≡ true)
      × (lookup name r.1.tokens ≡ some token)
      × ((authorize utf8 f token transport r.1.tokens r.1.store).0 ≡ true)

  trusts :
      (t : Text) (s : TokenManager)
      → not (is_empty (credential s)) && constant_time_equals utf8 t (credential s) ≡ is_trusted t s
  unfolding is_trusted same_bytes constant_time_equals
  trusts t s = ground (arith, bytes_equal-text_eq (utf8 t) (utf8 (credential s)))

  module _ {V J S : Type 0} where
    push_ignored :
        (o : Option (Provider V J S)) (f : Option (Text → Text → Bool)) (t name token : Text)
        (w : World S)
        → is_trusted t w.store ≡ false
        → inform_module_token utf8 (record { provider = o; validator = f }) t name token w
          ≡ (false, w)
    unfolding inform_module_token
    push_ignored none f t name token w h = refl
    push_ignored (some p) f t name token w h = ground (arith, h, trusts t w.store)

    -- A push whose caller does not hold the store's own credential is refused, reaches no module and
    -- changes nothing.
    pub inform_module_token-untrusted :
        (m : ModuleProxy V J S) (auth_token name token : Text) (w : World S)
        → is_trusted auth_token w.store ≡ false
        → inform_module_token utf8 m auth_token name token w ≡ (false, w)
    inform_module_token-untrusted m t name token w h =
        push_ignored m.provider m.validator t name token w h

    forwarded :
        (f : Option (Text → Text → Bool)) (transport : Text) (p : Provider V J S)
        (t name token : Text) (w : World S)
        → is_trusted t w.store ≡ true
        → is_empty name ≡ false
        → is_empty token ≡ false
        → (forward_token p name token w).0 ≡ true
        → Granted f transport t name token w (forward_token p name token w)
    unfolding forward_token save_module_token
    forwarded f transport p t name token w trusted named held h =
        elim (Bool-cases (p.inform name token w).0) [
          | inl e ↦
              rw (e, named, held)
                (
                  trusted,
                  lookup-put_self name token (p.inform name token w).1.tokens,
                  held_admitted f name token transport (p.inform name token w).1.tokens
                      (p.inform name token w).1.store held,
                )
          | inr e ↦ absurd (ground (arith, h, e))
        ]

    push_leaves :
        (g : Option (Text → Text → Bool)) (transport : Text) (o : Option (Provider V J S))
        (f : Option (Text → Text → Bool)) (t name token : Text) (w : World S)
        → (inform_module_token utf8 (record { provider = o; validator = f }) t name token w).0
          ≡ true
        → Granted g transport t name token w
            (inform_module_token utf8 (record { provider = o; validator = f }) t name token w)
    unfolding inform_module_token
    push_leaves g transport none f t name token w h = absurd (ground (arith, h))
    push_leaves g transport (some p) f t name token w h = elim (Bool-cases (is_trusted t w.store)) [
      | inl e ↦ elim (Bool-cases (is_empty t)) [
        | inl z ↦ absurd (ground (arith, h, z))
        | inr z ↦ elim (Bool-cases (is_empty name)) [
          | inl n ↦ absurd (ground (arith, h, z, n, e, trusts t w.store))
          | inr n ↦ elim (Bool-cases (is_empty token)) [
            | inl k ↦ absurd (ground (arith, h, z, n, k, e, trusts t w.store))
            | inr k ↦
                let same : inform_module_token utf8 (record { provider = some p; validator = f }) t
                      name token w
                    ≡ forward_token p name token w =
                  rw (z, trusts t w.store, e, n, k) refl in
                rw same (
                  forwarded g transport p t name token w e n k
                    (ap (λ (r : Bool × World S). r.0) (sym same) ∙ h))
          ]
        ]
      ]
      | inr e ↦ absurd (ground (arith, h, e, trusts t w.store))
    ]

    -- If a push is accepted, its caller held the store's own credential, the proxy now holds the token
    -- for that name, and every call that presents the token is admitted.
    pub inform_module_token-Granted :
        (m : ModuleProxy V J S) (auth_token name token transport : Text) (w : World S)
        → (inform_module_token utf8 m auth_token name token w).0 ≡ true
        → Granted m.validator transport auth_token name token w
            (inform_module_token utf8 m auth_token name token w)
    inform_module_token-Granted m t name token transport w h =
        push_leaves m.validator transport m.provider m.validator t name token w h
