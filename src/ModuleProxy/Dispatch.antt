-- ===== src/ModuleProxy/Dispatch.antt =====
-- A call on its way into a module (cpp/module_proxy.cpp, cpp/logos_caller_scope.cpp).
--
-- A provider is the module's code: what a call of one of its methods does to the thread, to the stores
-- and to its own state `S` is open, and so is the way in which it ends, by an answer or by an
-- exception. Its `informModuleToken` may change the same and answers; its lists of methods, its
-- name and its version are read off its state.
use logos_protocol.Base.{
  ◌≡◌, Bool, true, false, not, ◌&&◌, ◌||◌, Option, none, some, List, [], ◌∷◌, ◌++◌, ℕ, Text, codes,
  text_eq, if◌then◌else◌, any_of, text_key,
}
use logos_protocol.Json.{Json, end, field, object, string}
use logos_protocol.Tokens.{TokenManager, is_empty, credential}
use logos_protocol.Client.Status.{Variants, make_unauthorized_sentinel}
use logos_protocol.ModuleProxy.{
  Caller, unknown, host_anchor, module_named, constant_time_equals, authorize, save_module_token,
}

-- What the code uses of `QJsonValue`: `value(key)` is that of its `toObject()`, and `text_of` its
-- `toString()`; a value that is no object has no entry.
pub record JsonValues (J : Type 0) : Type 0 where
  pub is_object : J → Bool
  pub value : Text → J → J
  pub text_of : J → Text
  pub of_entries : List (Text × J) → J
  pub of_text : Text → J
  pub of_bool : Bool → J
  pub text_of-of_text : (t : Text) → text_of (of_text t) ≡ t
  pub is_object-of_entries : (m : List (Text × J)) → is_object (of_entries m) ≡ true
  pub value-of_entries :
      (k : Text) (v : J) (m n : List (Text × J))
      → any_of (λ (e : Text × J). text_eq e.0 k) n ≡ false
      → value k (of_entries (m ++ (k, v) ∷ n)) ≡ v

-- `QVariant::isValid`, and a variant that holds a `QJsonArray`.
pub record Arrays (V J : Type 0) (q : Variants V) : Type 0 where
  pub is_valid : V → Bool
  pub of_array : List J → V
  pub is_valid-invalid : is_valid q.invalid ≡ false
  pub to_map-of_array : (xs : List J) → q.to_map (of_array xs) ≡ none

-- The thread of a dispatch, with what it reaches: the caller's slot of the thread, the proxy's
-- tokens, its store, and the module.
pub record World (S : Type 0) : Type 0 where
  pub slot : Text
  pub tokens : List (Text × Text)
  pub store : TokenManager
  pub module_state : S

pub data Ending (V : Type 0) : Type 0 where
  returned : V → Ending V
  threw : Ending V

-- `LogosProviderObject`
pub record Provider (V J S : Type 0) : Type 0 where
  pub call_method : Text → List V → World S → Ending V × World S
  pub inform : Text → Text → World S → Bool × World S
  pub methods : S → List J
  pub provider_name : S → Text
  pub provider_version : S → Text

-- `m_provider`, null or not, and `m_validator`
pub record ModuleProxy (V J S : Type 0) : Type 0 where
  pub provider : Option (Provider V J S)
  pub validator : Option (Text → Text → Bool)

-- `setTokenValidator`
unfoldable pub set_token_validator :
    {V J S : Type 0} → Option (Text → Text → Bool) → ModuleProxy V J S → ModuleProxy V J S
set_token_validator validator m = record m { validator = validator }

abbrev pub caller_unknown_json : Text
caller_unknown_json = codes "{\"kind\":\"unknown\"}"

abbrev pub caller_host_anchor_json : Text
caller_host_anchor_json = codes "{\"kind\":\"host\"}"

-- `callerModuleJson`; `dump` writes a document on one line.
unfoldable pub caller_module_json : (Json → Text) → Text → Text
caller_module_json dump name =
    if is_empty name
    then caller_unknown_json
    else dump (
        object
          (field (codes "kind") (string (codes "module")) (field (codes "name") (string name) end)))

abbrev pub caller_json : (Json → Text) → Caller → Text
caller_json dump unknown = caller_unknown_json
caller_json dump host_anchor = caller_host_anchor_json
caller_json dump (module_named name) = caller_module_json dump name

-- `CallerScope` around a body: the constructor keeps the slot, the destructor puts it back.
unfoldable pub caller_scope :
    {A S : Type 0} → Text → (World S → A × World S) → World S → A × World S
caller_scope caller body w =
    let (a, u) = body (record w { slot = caller }) in (a, record u { slot = w.slot })

-- `currentInboundCallerJson`
abbrev pub current_inbound_caller_json : {S : Type 0} → World S → Text
current_inbound_caller_json w = w.slot

abbrev pub is_nil : {A : Type 0} → List A → Bool
is_nil [] = true
is_nil (x ∷ xs) = false

module _ {J : Type 0} (js : JsonValues J) where
  -- `v.toObject().value("type").toString() == "event"`
  unfoldable pub is_event : J → Bool
  is_event v = text_eq (js.text_of (js.value (codes "type") v)) (codes "event")

  -- `filterInterface`
  unfoldable pub filter_interface : Bool → List J → List J
  filter_interface keep_events [] = []
  filter_interface keep_events (v ∷ vs) =
      let rest = filter_interface keep_events vs in
      if is_event v
      then (if keep_events then v ∷ rest else rest)
      else (if keep_events then rest else v ∷ rest)

  -- `lists`
  unfoldable pub lists : List J → Text → Bool
  lists iface name =
      any_of (λ v. js.is_object v && text_eq (js.text_of (js.value (codes "name") v)) name) iface

  abbrev pub identity_entry : Text → Text → J
  identity_entry name desc = js.of_entries (
      (codes "name", js.of_text name)
      ∷ (codes "type", js.of_text (codes "method"))
      ∷ (codes "signature", js.of_text (name ++ codes "()"))
      ∷ (codes "returnType", js.of_text (codes "QString"))
      ∷ (codes "isInvokable", js.of_bool true)
      ∷ (codes "description", js.of_text desc)
      ∷ [])

  unfoldable pub advertise : Text → Text → List J → List J
  advertise name desc iface =
      if lists iface name then iface else iface ++ identity_entry name desc ∷ []

  module _ {V S : Type 0} where
    -- `getPluginInterface`, of a provider that is not null
    unfoldable pub provider_interface : Provider V J S → S → List J
    provider_interface p s =
        advertise (codes "version") (codes "The module's version, as declared in its metadata.") (
          advertise (codes "name") (codes "The module's name, as declared in its metadata.")
            (p.methods s))

    unfoldable pub get_plugin_interface : Option (Provider V J S) → S → List J
    get_plugin_interface none s = []
    get_plugin_interface (some p) s = provider_interface p s

    unfoldable pub get_plugin_methods : Option (Provider V J S) → S → List J
    get_plugin_methods p s = filter_interface false (get_plugin_interface p s)

    unfoldable pub get_plugin_events : Option (Provider V J S) → S → List J
    get_plugin_events p s = filter_interface true (get_plugin_interface p s)

module _ {V J S : Type 0} (q : Variants V) (a : Arrays V J q) where
  -- The module's identity, if its own dispatch does not know the method.
  unfoldable pub identify : Provider V J S → Text → List V → Ending V × World S → Ending V × World S
  identify p method args (threw, w) = (threw, w)
  identify p method args (returned v, w) =
      if not (a.is_valid v) && is_nil args
      then (if text_eq method (codes "name")
          then (returned (q.of_string (p.provider_name w.module_state)), w)
          else if text_eq method (codes "version")
          then (returned (q.of_string (p.provider_version w.module_state)), w)
          else (returned v, w))
      else (returned v, w)

  module _ (js : JsonValues J) (utf8 : Text → List ℕ) (dump : Json → Text) where
    -- The dispatch of a call that `authorize` has admitted for `caller`, or has refused.
    unfoldable pub dispatch :
        Bool × Caller → Provider V J S → Text → List V → World S → Ending V × World S
    dispatch (false, caller) p method args w = (returned (make_unauthorized_sentinel q), w)
    dispatch (true, caller) p method args w =
        caller_scope (caller_json dump caller)
          (λ u. identify p method args (p.call_method method args u)) w

    -- `ModuleProxy::callRemoteMethod`; without a transport it is called with "local".
    unfoldable pub call_remote_method :
        ModuleProxy V J S → Text → Text → List V → Text → World S → Ending V × World S
    call_remote_method m auth_token method args transport w = elim m.provider [
      | none ↦ (returned q.invalid, w)
      | some p ↦
          if is_empty method
          then (returned q.invalid, w)
          else if text_eq method (codes "getPluginMethods") && is_nil args
          then (returned (a.of_array (get_plugin_methods js m.provider w.module_state)), w)
          else if text_eq method (codes "getPluginEvents") && is_nil args
          then (returned (a.of_array (get_plugin_events js m.provider w.module_state)), w)
          else if text_eq method (codes "getPluginInterface") && is_nil args
          then (returned (a.of_array (get_plugin_interface js m.provider w.module_state)), w)
          else dispatch (authorize utf8 m.validator auth_token transport w.tokens w.store) p method
              args w
    ]

module _ {V J S : Type 0} where
  -- The push to the provider, and the record of what it accepted.
  unfoldable pub forward_token : Provider V J S → Text → Text → World S → Bool × World S
  forward_token p name token w =
      let (accepted, u) = p.inform name token w in
      if accepted
      then (true, record u { tokens = (save_module_token name token u.tokens).1 })
      else (false, u)

module _ {V J S : Type 0} (utf8 : Text → List ℕ) where
  -- `ModuleProxy::informModuleToken`
  unfoldable pub inform_module_token :
      ModuleProxy V J S → Text → Text → Text → World S → Bool × World S
  inform_module_token m auth_token name token w = elim m.provider [
    | none ↦ (false, w)
    | some p ↦
        let own = credential w.store in
        let trusted = not (is_empty own) && constant_time_equals utf8 auth_token own in
        if is_empty auth_token || not trusted
        then (false, w)
        else if is_empty name
        then (false, w)
        else if is_empty token
        then (false, w)
        else forward_token p name token w
  ]

  -- `ModuleHandshakeProxy::informModuleToken`
  unfoldable pub handshake_inform_module_token :
      Option (ModuleProxy V J S) → Text → Text → Text → World S → Bool × World S
  handshake_inform_module_token none auth_token name token w = (false, w)
  handshake_inform_module_token (some m) auth_token name token w =
      inform_module_token m auth_token name token w
