-- ===== src/Consumer/Objects.antt =====
-- The handles that a consumer keeps for its calls, and the delivery of tokens over them
-- (cpp/logos_api_consumer.cpp).
--
-- A handle is a number that names it, and stands for one reference, which `release` gives back. What
-- the transport and the objects answer is the `Remote` of a call.
use logos_protocol.Base.{
  ℕ, ◌-◌, Bool, true, false, not, ◌&&◌, Option, none, some, List, [], ◌∷◌, ◌++◌, Text, codes,
  text_key, lookup, put, erase, contains, include, ltb, ◌==◌, if◌then◌else◌,
}

-- The transport's connection and `requestObject` with its timeout, which handles are valid, and
-- whether an object accepts a token (`informModuleToken`, and `requestModule` of
-- "capability_module").
pub record Remote : Type 0 where
  pub is_connected : Bool
  pub request_object : Text → ℕ → Option ℕ
  pub is_valid : ℕ → Bool
  pub inform : ℕ → Text → Text → Text → ℕ → Bool
  pub call_request_module : ℕ → Text → Text → Text → ℕ → Text

-- `m_objectCache` and `m_noHandshakeSurface`
pub record Objects : Type 0 where
  pub cached : List (Text × ℕ)
  pub no_handshake_surface : List Text

-- `requested` is the transport's gift of a handle, `handed` its passing on to the caller.
pub data Reference : Type 0 where
  requested : ℕ → Reference
  released : ℕ → Reference
  handed : ℕ → Reference

-- What a call returns, and the handles kept after it with the references that came and went.
abbrev pub Run : Type 0 → Type 0
Run A = A × (Objects × List Reference)

abbrev pub no_objects : Objects
no_objects = record { cached = []; no_handshake_surface = [] }

abbrev pub probe_timeout_ms : ℕ
probe_timeout_ms = 250

-- A new handle of the object, if the transport has one, into the cache.
unfoldable pub request_cached : Remote → Text → ℕ → Objects → Run (Option ℕ)
request_cached w name timeout c = elim (w.request_object name timeout) [
  | none ↦ (none, (c, []))
  | some handle ↦
      (some handle, (record c { cached = put name handle c.cached }, requested handle ∷ []))
]

-- The cached handle, or where it went stale a new one.
unfoldable pub renew : Remote → Text → ℕ → ℕ → Objects → Run (Option ℕ)
renew w name timeout handle c =
    if w.is_valid handle
    then (some handle, (c, []))
    else (let r = request_cached w name timeout (record c { cached = erase name c.cached }) in
        (r.0, (r.1.0, released handle ∷ r.1.1)))

-- `acquireCachedObject`
unfoldable pub acquire_cached_object : Remote → Text → ℕ → Objects → Run (Option ℕ)
acquire_cached_object w name timeout c = elim (lookup name c.cached) [
  | none ↦ request_cached w name timeout c
  | some handle ↦ renew w name timeout handle c
]

abbrev pub is_there : Option ℕ → Bool
is_there none = false
is_there (some handle) = true

abbrev pub is_blank : Text → Bool
is_blank [] = true
is_blank (x ∷ xs) = false

-- `ensureTargetAcquirable`
unfoldable pub ensure_target_acquirable : Remote → Text → ℕ → Objects → Run Bool
ensure_target_acquirable w name timeout c =
    if is_blank name
    then (false, (c, []))
    else (let r = acquire_cached_object w name timeout c in (is_there r.0, r.1))

abbrev pub passed_on : Option ℕ → Option ℕ × List Reference
passed_on none = (none, [])
passed_on (some handle) = (some handle, requested handle ∷ handed handle ∷ [])

-- `requestObject`: the handle goes to the caller, with its reference.
unfoldable pub request_object : Remote → Text → ℕ → Option ℕ × List Reference
request_object w name timeout =
    if not (is_blank name) && w.is_connected
    then passed_on (w.request_object name timeout)
    else (none, [])

unfoldable pub release_cached : List (Text × ℕ) → List Reference
release_cached [] = []
release_cached ((name, handle) ∷ m) = released handle ∷ release_cached m

-- `clearObjectCache`
unfoldable pub clear_object_cache : Objects → Objects × List Reference
clear_object_cache c = (no_objects, release_cached c.cached)

-- `informModuleTokenViaBusinessObject`: what it returns, and whether it reached the module.
unfoldable pub inform_via_business_object :
    Remote → Text → Text → Text → Text → ℕ → Objects → Run (Bool × Bool)
inform_via_business_object w auth origin name token timeout c =
    let r = acquire_cached_object w origin timeout c in
    elim r.0 [
      | none ↦ ((false, false), r.1)
      | some handle ↦ ((w.inform handle auth name token timeout, true), r.1)
    ]

-- `logos::handshakeObjectName` (cpp/module_proxy.h)
abbrev pub handshake_object_name : Text → Text
handshake_object_name module_name = module_name ++ codes "__handshake"

-- The timeout of a call; one that is not positive counts as 0.
abbrev pub effective_timeout : ℕ → ℕ
effective_timeout timeout = if timeout == 0 then 20000 else timeout

-- The fallback, which remembers a module that was reached but has no handshake surface.
unfoldable pub inform_fallback :
    Remote → Text → Bool → Text → Text → Text → Text → ℕ → Objects → Run Bool
inform_fallback w surface early auth origin name token timeout c =
    let r = inform_via_business_object w auth origin name token timeout c in
    (
      r.0.0,
      (
        if not early && r.0.1
            then record r.1.0 { no_handshake_surface = include surface r.1.0.no_handshake_surface }
            else r.1.0,
        r.1.1,
      ),
    )

unfoldable pub accepts : Remote → Option ℕ → Text → Text → Text → ℕ → Bool
accepts w none auth name token timeout = false
accepts w (some handle) auth name token timeout = w.inform handle auth name token timeout

-- Behind the probe of the handshake surface.
unfoldable pub inform_probed :
    Remote → Text → Option ℕ → Text → Text → Text → Text → ℕ → Objects → Run Bool
inform_probed w surface early auth origin name token timeout c =
    if accepts w early auth name token timeout
    then (true, (c, []))
    else inform_fallback w surface (is_there early) auth origin name token timeout c

-- `informModuleToken_module`
unfoldable pub inform_module_token_module :
    Remote → Text → Text → Text → Text → ℕ → Objects → Run Bool
inform_module_token_module w auth origin name token timeout_ms c =
    let surface = handshake_object_name origin in
    let timeout = effective_timeout timeout_ms in
    if contains surface c.no_handshake_surface
    then (let r = inform_via_business_object w auth origin name token timeout c in (r.0.0, r.1))
    else (let probe = acquire_cached_object w surface probe_timeout_ms c in
        let r = inform_probed w surface probe.0 auth origin name token timeout probe.1.0 in
        (r.0, (r.1.0, probe.1.1 ++ r.1.1)))

-- `informModuleToken` and `requestModule` take a handle of "capability_module" and give it back.
unfoldable pub inform_module_token : Remote → Text → Text → Text → Bool × List Reference
inform_module_token w auth name token = elim (w.request_object (codes "capability_module") 20000) [
  | none ↦ (false, [])
  | some handle ↦ (w.inform handle auth name token 20000, requested handle ∷ released handle ∷ [])
]

-- `spent` of the budget is gone when the handle is there; the call gets the rest, at least 1 ms.
abbrev pub rest_of : ℕ → ℕ → ℕ
rest_of timeout spent =
    if timeout == 0 then timeout else if ltb 1 (timeout - spent) then timeout - spent else 1

unfoldable pub request_module : Remote → ℕ → Text → Text → Text → ℕ → Text × List Reference
request_module w spent auth origin target timeout =
    elim (w.request_object (codes "capability_module") timeout) [
      | none ↦ ([], [])
      | some handle ↦ (
        w.call_request_module handle auth origin target (rest_of timeout spent),
        requested handle ∷ released handle ∷ [],
      )
    ]
