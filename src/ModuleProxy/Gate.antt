-- ===== src/ModuleProxy/Gate.antt =====
-- The gate in front of a dispatch (cpp/module_proxy.cpp).
use logos_protocol.Base.{
  ℕ, ◌≡◌, ◌<◌, ◌^◌, ◌⊎◌, refl, ap, ◌∙◌, Bool, true, false, not, ◌&&◌, ◌||◌, Option, none, some,
  List, length, Text, Bool-cases, inl, inr,
}
use logos_protocol.Json.{Json}
use logos_protocol.Tokens.{is_empty}
use logos_protocol.Client.Status.{Variants}
use logos_protocol.ModuleProxy.{Caller, validates, authorize}
use logos_protocol.ModuleProxy.Dispatch.{
  JsonValues, Arrays, World, Ending, Provider, ModuleProxy, caller_json, caller_scope, identify,
  call_remote_method,
}
use logos_protocol.ModuleProxy.Authorize.{issued, authorize_iff}
use logos_protocol.ModuleProxy.Naming.{Bytes}
use logos_protocol.ModuleProxy.Callers.{Named, authorize-Named}
use logos_protocol.ModuleProxy.Branches.{
  reaches_gate, Answers, open_call, gated_call, admitted, turned_away,
}

module _ {V J S : Type 0} (q : Variants V) (a : Arrays V J q) (js : JsonValues J)
    (utf8 : Text → List ℕ) (dump : Json → Text) where
  scope_slot :
      {A : Type 0} (c : Text) (body : World S → A × World S) (w : World S)
      → (caller_scope c body w).1.slot ≡ w.slot
  unfolding caller_scope
  scope_slot c body w = refl

  refused_go :
      (o : Option (Provider V J S)) (f : Option (Text → Text → Bool)) (t method : Text)
      (args : List V) (transport : Text) (w : World S)
      → (authorize utf8 f t transport w.tokens w.store).0 ≡ false
      → Answers q w (reaches_gate o method args) (
          call_remote_method q a js utf8 dump
            (record { provider = o; validator = f })
            t
            method
            args
            transport
            w)
  unfolding reaches_gate
  refused_go none f t method args transport w h =
      open_call q a js utf8 dump none f t method args transport w refl
  refused_go (some p) f t method args transport w h =
      elim (Bool-cases (reaches_gate (some p) method args)) [
        | inl e ↦ rw e (
            rw (gated_call q a js utf8 dump p f t method args transport w e)
              (turned_away q a js utf8 dump _ p method args w h))
        | inr e ↦ rw e (open_call q a js utf8 dump (some p) f t method args transport w e)
      ]

  -- What a dispatch may do: nothing, or one call of the module as a caller that is rightly named.
  abbrev pub Dispatched :
      Option (Text → Text → Bool)
      → Text
      → Text
      → List V
      → Text
      → World S
      → Ending V × World S
      → Type 0
  Dispatched f t method args transport w r =
      (r.1 ≡ w)
      ⊎ ((p : Provider V J S) × (c : Caller) × ((authorize utf8 f t transport w.tokens w.store).0
            ≡ true)
          × Named utf8 t w.tokens w.store c
          × (r
              ≡ caller_scope (caller_json dump c)
                  (λ u. identify q a p method args (p.call_method method args u)) w))

  named_go :
      (o : Option (Provider V J S)) (f : Option (Text → Text → Bool)) (t method : Text)
      (args : List V) (transport : Text) (w : World S)
      → ((t : Text) → Bytes (utf8 t))
      → length w.tokens < 2 ^ 32
      → Dispatched f t method args transport w (
          call_remote_method q a js utf8 dump
            (record { provider = o; validator = f })
            t
            method
            args
            transport
            w)
  unfolding reaches_gate
  named_go none f t method args transport w bytes h =
      inl (open_call q a js utf8 dump none f t method args transport w refl).0
  named_go (some p) f t method args transport w bytes h =
      elim (Bool-cases (reaches_gate (some p) method args)) [
        | inl e ↦ elim (Bool-cases (authorize utf8 f t transport w.tokens w.store).0) [
          | inl y ↦ inr (
            p,
            _,
            y,
            authorize-Named utf8 bytes f t transport w.tokens w.store h,
            gated_call q a js utf8 dump p f t method args transport w e
                ∙ admitted q a js utf8 dump _ p method args w y,
          )
          | inr n ↦ inl (
              rw (gated_call q a js utf8 dump p f t method args transport w e)
                (turned_away q a js utf8 dump _ p method args w n).0)
        ]
        | inr e ↦ inl (open_call q a js utf8 dump (some p) f t method args transport w e).0
      ]

  slot_of :
      (f : Option (Text → Text → Bool)) (t method : Text) (args : List V) (transport : Text)
      (w : World S) (r : Ending V × World S)
      → Dispatched f t method args transport w r
      → r.1.slot ≡ w.slot
  slot_of f t method args transport w r (inl e) = ap (λ u. u.slot) e
  slot_of f t method args transport w r (inr (p, c, y, n, e)) =
      ap (λ (s : Ending V × World S). s.1.slot) e
      ∙ scope_slot (caller_json dump c)
          (λ u. identify q a p method args (p.call_method method args u)) w

  -- Whatever the module does, also if it throws, the caller's slot of the thread is afterwards what it
  -- was before. And either nothing else has changed either, or the call was admitted, and the
  -- module was called once, while the slot held a caller that is named as it should be: the host only
  -- if the token is the store's own credential, and a module only if the token was issued under its
  -- name. The proxy holds fewer than 2^32 tokens, and `utf8` makes bytes.
  pub call_remote_method-Named :
      (m : ModuleProxy V J S) (auth_token method : Text) (args : List V) (transport : Text)
      (w : World S)
      → ((t : Text) → Bytes (utf8 t))
      → length w.tokens < 2 ^ 32
      → ((call_remote_method q a js utf8 dump m auth_token method args transport w).1.slot ≡ w.slot)
        × Dispatched m.validator auth_token method args transport w
            (call_remote_method q a js utf8 dump m auth_token method args transport w)
  call_remote_method-Named m t method args transport w bytes h =
      let named = named_go m.provider m.validator t method args transport w bytes h in
      (slot_of m.validator t method args transport w _ named, named)

  -- A call whose token was not issued, is not the store's own credential and does not pass the
  -- validator changes nothing, and is answered by what the client takes for a refusal exactly if the
  -- proxy does not answer it itself.
  pub call_remote_method-refused :
      (m : ModuleProxy V J S) (auth_token method : Text) (args : List V) (transport : Text)
      (w : World S)
      → not (is_empty auth_token)
          && (issued utf8 auth_token w.tokens w.store
              || validates utf8 m.validator auth_token transport)
        ≡ false
      → Answers q w
          (reaches_gate m.provider method args)
          (call_remote_method q a js utf8 dump m auth_token method args transport w)
  call_remote_method-refused m t method args transport w h =
      refused_go m.provider m.validator t method args transport w
        (authorize_iff utf8 m.validator t transport w.tokens w.store ∙ h)
