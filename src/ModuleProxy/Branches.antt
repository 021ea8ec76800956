-- ===== src/ModuleProxy/Branches.antt =====
-- The branches of a dispatch (cpp/module_proxy.cpp): before the gate, and behind it.
use logos_protocol.Base.{
  ℕ, ◌≡◌, refl, ap, Bool, true, false, not, ◌&&◌, ◌||◌, Option, none, some, List, Text, codes,
  text_eq, arith, Bool-cases, inl, inr,
}
use logos_protocol.Json.{Json}
use logos_protocol.Tokens.{is_empty}
use logos_protocol.Client.Status.{
  Variants, make_unauthorized_sentinel, is_unauthorized_sentinel, is_sentinel_map,
  is_unauthorized_sentinel_iff, is_unauthorized_sentinel_invalid,
}
use logos_protocol.ModuleProxy.{Caller, authorize}
use logos_protocol.ModuleProxy.Dispatch.{
  JsonValues, Arrays, World, Ending, returned, Provider, caller_json, caller_scope, is_nil,
  get_plugin_methods, get_plugin_events, get_plugin_interface, identify, dispatch,
  call_remote_method,
}

-- The methods that the proxy answers for every caller, if they have no argument.
unfoldable pub introspects : {V : Type 0} → Text → List V → Bool
introspects method args =
    (text_eq method (codes "getPluginMethods")
      || text_eq method (codes "getPluginEvents")
      || text_eq method (codes "getPluginInterface"))
    && is_nil args

module _ {V : Type 0} (q : Variants V) where
  sentinel_known : is_unauthorized_sentinel q (make_unauthorized_sentinel q) ≡ true
  unfolding make_unauthorized_sentinel
  sentinel_known =
      (is_unauthorized_sentinel_iff q (make_unauthorized_sentinel q)).1
        (_, q.to_map-of_map _, q.to_string-of_string _)

  array_unknown :
      {J : Type 0} (a : Arrays V J q) (xs : List J)
      → is_unauthorized_sentinel q (a.of_array xs) ≡ false
  unfolding is_unauthorized_sentinel
  array_unknown a xs = ap (is_sentinel_map q) (a.to_map-of_array xs)

-- Whether a call gets as far as the gate.
unfoldable pub reaches_gate : {V J S : Type 0} → Option (Provider V J S) → Text → List V → Bool
reaches_gate none method args = false
reaches_gate (some p) method args = not (is_empty method) && not (introspects method args)

-- An answer that leaves everything as it is, and whether it is taken for a refusal.
abbrev pub Answers : {V S : Type 0} → Variants V → World S → Bool → Ending V × World S → Type 0
Answers {V} q w refusal r =
    (r.1 ≡ w) × ((v : V) × (r.0 ≡ returned v) × (is_unauthorized_sentinel q v ≡ refusal))

module _ {V J S : Type 0} (q : Variants V) (a : Arrays V J q) (js : JsonValues J)
    (utf8 : Text → List ℕ) (dump : Json → Text) where
  -- A call that does not get as far as the gate changes nothing, and is not answered by a refusal.
  pub open_call :
      (o : Option (Provider V J S)) (f : Option (Text → Text → Bool)) (t method : Text)
      (args : List V) (transport : Text) (w : World S)
      → reaches_gate o method args ≡ false
      → Answers q w false (
          call_remote_method q a js utf8 dump
            (record { provider = o; validator = f })
            t
            method
            args
            transport
            w)
  unfolding call_remote_method reaches_gate introspects
  open_call none f t method args transport w h =
      (refl, (q.invalid, refl, is_unauthorized_sentinel_invalid q))
  open_call (some p) f t method args transport w h = elim (Bool-cases (is_empty method)) [
    | inl e ↦ rw e (refl, (q.invalid, refl, is_unauthorized_sentinel_invalid q))
    | inr e ↦ elim (Bool-cases (text_eq method (codes "getPluginMethods") && is_nil args)) [
      | inl b ↦
          rw (e, b)
            (refl, (_, refl, array_unknown q a (get_plugin_methods js (some p) w.module_state)))
      | inr b ↦ elim (Bool-cases (text_eq method (codes "getPluginEvents") && is_nil args)) [
        | inl c ↦
            rw (e, b, c)
              (refl, (_, refl, array_unknown q a (get_plugin_events js (some p) w.module_state)))
        | inr c ↦ elim (Bool-cases (text_eq method (codes "getPluginInterface") && is_nil args)) [
          | inl d ↦
              rw (e, b, c, d)
                (
                  refl,
                  (_, refl, array_unknown q a (get_plugin_interface js (some p) w.module_state)),
                )
          | inr d ↦ absurd (ground (arith, h, e, b, c, d))
        ]
      ]
    ]
  ]

  pub gated_call :
      (p : Provider V J S) (f : Option (Text → Text → Bool)) (t method : Text) (args : List V)
      (transport : Text) (w : World S)
      → reaches_gate (some p) method args ≡ true
      → call_remote_method q a js utf8 dump
          (record { provider = some p; validator = f })
          t
          method
          args
          transport
          w
        ≡ dispatch q a js utf8 dump (authorize utf8 f t transport w.tokens w.store) p method args w
  unfolding call_remote_method reaches_gate introspects
  gated_call p f t method args transport w h =
      let named : is_empty method ≡ false = ground (arith, h) in
      let m : text_eq method (codes "getPluginMethods") && is_nil args ≡ false =
        ground (arith, h) in
      let e : text_eq method (codes "getPluginEvents") && is_nil args ≡ false = ground (arith, h) in
      let i : text_eq method (codes "getPluginInterface") && is_nil args ≡ false =
        ground (arith, h) in
      rw (named, m, e, i) refl

  pub admitted :
      (x : Bool × Caller) (p : Provider V J S) (method : Text) (args : List V) (w : World S)
      → x.0 ≡ true
      → dispatch q a js utf8 dump x p method args w
        ≡ caller_scope
            (caller_json dump x.1)
            (λ u. identify q a p method args (p.call_method method args u))
            w
  unfolding dispatch
  admitted (true, c) p method args w h = refl
  admitted (false, c) p method args w h = cc

  pub turned_away :
      (x : Bool × Caller) (p : Provider V J S) (method : Text) (args : List V) (w : World S)
      → x.0 ≡ false
      → Answers q w true (dispatch q a js utf8 dump x p method args w)
  unfolding dispatch
  turned_away (true, c) p method args w h = cc
  turned_away (false, c) p method args w h = (refl, (_, refl, sentinel_known q))
