-- ===== src/Client/Handshake.antt =====
-- Calls with a callback (`invokeRemoteMethodAsync` of cpp/logos_api_client.cpp), and the request for
-- a token that those to one object share: wait for the object, request the token, send the calls.
use logos_protocol.Base.{
  ℕ, ◌-◌, Bool, true, false, ◌&&◌, Option, none, some, List, [], ◌∷◌, ◌++◌, length, Text, text_key,
  lookup, put, erase, ltb, if◌then◌else◌,
}
use logos_protocol.Tokens.{TokenManager, is_empty, save_token, get_token, remove_token}
use logos_protocol.Host.{or_nil}
use logos_protocol.Client.{
  CallError, acquire_failed, unauthorized, capability_module, Call, Readiness, Client, is_eligible,
}
use logos_protocol.Client.Status.{Variants, is_unauthorized_sentinel}

-- `send token call` and `request_module credential origin object timeout` go to the consumers.
pub data Effect (V : Type 0) : Type 0 where
  send : Text → Call → Effect V
  request_module : Text → Text → Text → ℕ → Effect V
  deliver : ℕ → V → CallError → Effect V
  cancel_subscription : ℕ → Effect V

abbrev pub Run : Type 0 → Type 0
Run V = Client × List (Effect V)

-- What `whenObjectAvailable` does: it calls back at once, refuses, or registers a subscription.
pub data Availability : Type 0 where
  fires : Bool → Availability
  refuses : Availability
  registers : ℕ → Availability

unfoldable pub nth {ℓ} : {A : Type ℓ} → ℕ → List A → Option A
nth i [] = none
nth ℕ.zero (x ∷ xs) = some x
nth (ℕ.suc i) (x ∷ xs) = nth i xs

unfoldable pub without_nth {ℓ} : {A : Type ℓ} → ℕ → List A → List A
without_nth i [] = []
without_nth ℕ.zero (x ∷ xs) = xs
without_nth (ℕ.suc i) (x ∷ xs) = x ∷ without_nth i xs

-- `rec->done = true`
unfoldable pub finish : ℕ → List Readiness → List Readiness
finish i [] = []
finish ℕ.zero (r ∷ rs) = record r { done = true } ∷ rs
finish (ℕ.suc i) (r ∷ rs) = r ∷ finish i rs

-- `rec->id = id`
unfoldable pub register : ℕ → ℕ → List Readiness → List Readiness
register i id [] = []
register ℕ.zero id (r ∷ rs) = record r { subscription = id } ∷ rs
register (ℕ.suc i) id (r ∷ rs) = r ∷ register i id rs

unfoldable pub queue_of : Text → Client → List Call
queue_of name c = or_nil (lookup name c.pending_handshakes)

-- `finishReadiness`; the deadline goes with its wait, which is `done`.
unfoldable pub finish_readiness : Text → Client → Client
finish_readiness name c = record c { pending_readiness = erase name c.pending_readiness }

-- What `beginReadinessGatedHandshake` registers.
abbrev pub new_wait : Text → ℕ → Readiness
new_wait name timeout = record {
  done = false;
  awaited = name;
  subscription = 0;
  budget_ms = timeout;
}

unfoldable pub enqueue : Call → Client → Client
enqueue call c = record c {
  pending_handshakes =
      put call.object_name (queue_of call.object_name c ++ call ∷ []) c.pending_handshakes;
}

abbrev pub keep_token : Text → Text → TokenManager → TokenManager
keep_token name token tokens = if is_empty token then tokens else save_token name token tokens

module _ {V : Type 0} (q : Variants V) where
  unfoldable pub dispatch : Text → Call → Client → Run V
  dispatch token call c = (record c { flights = c.flights ++ call ∷ [] }, send token call ∷ [])

  -- One queued continuation: an invalid result is no refusal of a token, so it goes to the caller.
  unfoldable pub continue_call : Text → Bool → Call → Client → Run V
  continue_call token reachable call c =
      if reachable
      then dispatch token call c
      else (c, deliver call.callback q.invalid (acquire_failed call.object_name) ∷ [])

  unfoldable pub continue_all : Text → Bool → List Call → Client → Run V
  continue_all token reachable [] c = (c, [])
  continue_all token reachable (call ∷ calls) c =
      let one = continue_call token reachable call c in
      let rest = continue_all token reachable calls one.0 in (rest.0, one.1 ++ rest.1)

  -- `drainPendingHandshakes`
  unfoldable pub drain_pending_handshakes : Text → Text → Bool → Client → Run V
  drain_pending_handshakes name token reachable c = elim (lookup name c.pending_handshakes) [
    | none ↦ (c, [])
    | some calls ↦
        continue_all token reachable calls
          (record c { pending_handshakes = erase name c.pending_handshakes })
  ]

  -- `startCapabilityHandshake`
  unfoldable pub start_capability_handshake : Text → ℕ → Client → Run V
  start_capability_handshake name timeout c = (
    record c { minting = c.minting ++ name ∷ [] },
    request_module (get_token capability_module c.token_manager) c.origin_module name timeout ∷ [],
  )

  -- The callback given to `whenObjectAvailable`, behind its look at `done`.
  unfoldable pub answer_readiness : ℕ → Readiness → Bool → Client → Run V
  answer_readiness i r ready c =
      let after = finish_readiness r.awaited (record c { waits = finish i c.waits }) in
      if ready
      then start_capability_handshake r.awaited r.budget_ms after
      else drain_pending_handshakes r.awaited [] false after

  unfoldable pub on_readiness : ℕ → Bool → Client → Run V
  on_readiness i ready c = elim (nth i c.waits) [
    | none ↦ (c, [])
    | some r ↦ if r.done then (c, []) else answer_readiness i r ready c
  ]

  -- The deadline's slot, behind its look at `done`.
  unfoldable pub give_up : ℕ → Readiness → Client → Run V
  give_up i r c =
      let drained =
        drain_pending_handshakes r.awaited [] false
          (finish_readiness r.awaited (record c { waits = finish i c.waits })) in
      (drained.0, cancel_subscription r.subscription ∷ drained.1)

  unfoldable pub on_deadline : ℕ → Client → Run V
  on_deadline i c = elim (nth i c.waits) [
    | none ↦ (c, [])
    | some r ↦ if r.done then (c, []) else give_up i r c
  ]

  -- `beginReadinessGatedHandshake`
  unfoldable pub begin_readiness : Availability → Text → ℕ → Client → Run V
  begin_readiness (fires ready) name timeout c = on_readiness (length c.waits) ready (record c {
    waits = c.waits ++ new_wait name timeout ∷ [];
    pending_readiness = put name (length c.waits) c.pending_readiness;
  })
  begin_readiness refuses name timeout c = drain_pending_handshakes name [] false (record c {
    waits = finish (length c.waits) (c.waits ++ new_wait name timeout ∷ []);
    pending_readiness = erase name (put name (length c.waits) c.pending_readiness);
  })
  begin_readiness (registers id) name timeout c = (
    record c {
      waits = register (length c.waits) id (c.waits ++ new_wait name timeout ∷ []);
      pending_readiness = put name (length c.waits) c.pending_readiness;
    },
    [],
  )

  -- `invokeRemoteMethodAsyncImpl`
  unfoldable pub invoke_call : (Text → Availability) → Call → Client → Run V
  invoke_call available call c =
      let token = get_token call.object_name c.token_manager in
      if is_empty token && is_eligible call.object_name c
      then (if ltb 1 (length (queue_of call.object_name (enqueue call c)))
          then (enqueue call c, [])
          else begin_readiness (available call.object_name) call.object_name call.timeout_ms
              (enqueue call c))
      else dispatch token call c

  -- `onResult`
  unfoldable pub on_result : (Text → Availability) → Call → V → CallError → Client → Run V
  on_result available call result err c =
      if ltb 0 call.retries_left
        && (is_eligible call.object_name c && is_unauthorized_sentinel q result)
      then invoke_call available (record call { retries_left = call.retries_left - 1 })
          (record c { token_manager = (remove_token call.object_name c.token_manager).1 })
      else if is_unauthorized_sentinel q result
      then (c, deliver call.callback q.invalid (unauthorized call.object_name) ∷ [])
      else (c, deliver call.callback result err ∷ [])

  -- The consumer answers the `i`-th call in flight.
  unfoldable pub on_reply : (Text → Availability) → ℕ → V → CallError → Client → Run V
  on_reply available i result err c = elim (nth i c.flights) [
    | none ↦ (c, [])
    | some call ↦
        on_result available call result err (record c { flights = without_nth i c.flights })
  ]

  -- The callback of `startCapabilityHandshake`.
  unfoldable pub on_minted : ℕ → Text → Client → Run V
  on_minted i token c = elim (nth i c.minting) [
    | none ↦ (c, [])
    | some name ↦ drain_pending_handshakes name token true (record c {
      minting = without_nth i c.minting;
      token_manager = keep_token name token c.token_manager;
    })
  ]
