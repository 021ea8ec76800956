-- ===== src/PlainObject/Blocking.antt =====
-- The blocking call of a plain client object (cpp/implementations/plain/plain_logos_object.cpp).
--
-- What other threads do to the object's state while the call waits is a parameter: `reply` until the
-- reply is there or the time is over, with the reply if there is one, and `completes` until the
-- deferred answer is there, the object is released, or the time is over. The subscription to
-- completions is a step of the connection.
use logos_protocol.Base.{
  ℕ, ◌+◌, ◌-◌, ◌≡◌, refl, ◌∙◌, Bool, true, false, Option, none, some, List, [], ◌∷◌, ◌⊎◌, inl, inr,
  Text, codes, ◌++◌, text_key, lookup, ltb, if◌then◌else◌, arith, Bool-cases,
}
use logos_protocol.Client.{
  CallError, no_error, call_error_transport, call_error_timeout, call_error_from_wire,
}
use logos_protocol.Client.Status.{Variants}
use logos_protocol.PlainObject.{
  CallState, Effect, send_call, cancel_pending, busy, pending_call, take_completion, begin_sync,
  end_sync, drop_unclaimed_if_idle, deferred_fallback_ms, call_error_released,
}
use logos_protocol.PlainObject.Calls.{Reply, failed, answered}

-- What a blocking call is, with its number from `nextId`.
pub record SyncCall : Type 0 where
  pub object_name : Text
  pub method : Text
  pub timeout_ms : ℕ
  pub number : ℕ

-- What it gives to its caller, and leaves.
pub record SyncAnswer (V : Type 0) : Type 0 where
  pub value : V
  pub error : CallError
  pub state : CallState V
  pub effects : List (Effect V)

unfoldable pub effective_ms : ℕ → ℕ
effective_ms timeout_ms = if ltb 0 timeout_ms then timeout_ms else deferred_fallback_ms

unfoldable pub not_open : Text → CallError
not_open object_name =
    call_error_transport object_name
      (codes "connection to '" ++ object_name ++ codes "' is not open")

module _ {V : Type 0} (q : Variants V) where
  abbrev pub stopped_or_late : Bool → SyncCall → CallError
  stopped_or_late true c = call_error_released c.object_name c.method
  stopped_or_late false c = call_error_timeout c.object_name c.method (effective_ms c.timeout_ms)

  -- The end of `awaitCompletion`, after the wait.
  abbrev pub claimed : SyncCall → Text → Option V → CallState V → V × CallError × CallState V
  claimed c id (some v) s = (v, no_error, take_completion id s)
  claimed c id none s = (q.invalid, stopped_or_late s.stopping c, s)

  unfoldable pub await_completion : SyncCall → Text → CallState V → V × CallError × CallState V
  await_completion c id s = claimed c id (lookup id s.completions) s

  module _ (completes : CallState V → CallState V) where
    abbrev pub value_or_await :
        SyncCall → V → Option Text → CallState V → V × CallError × CallState V
    value_or_await c v none s = (v, no_error, s)
    value_or_await c v (some id) s = await_completion c id (completes s)

    unfoldable pub on_sync_value : SyncCall → V → CallState V → V × CallError × CallState V
    on_sync_value c v s = value_or_await c v (pending_call q v) s

    unfoldable pub on_sync_reply : SyncCall → Reply V → CallState V → V × CallError × CallState V
    on_sync_reply c (failed code message) s =
        (q.invalid, call_error_from_wire c.object_name code message, s)
    on_sync_reply c (answered v) s = on_sync_value c v s

    -- The call on an open connection; its scope ends on every way out.
    unfoldable pub after_wait : SyncCall → Option (Reply V) → CallState V → SyncAnswer V
    after_wait c none s = record {
      value = q.invalid;
      error = call_error_timeout c.object_name c.method c.timeout_ms;
      state = end_sync s;
      effects = send_call c.number ∷ cancel_pending c.number ∷ [];
    }
    after_wait c (some r) s =
        let (v, e, u) = on_sync_reply c r s in
        record { value = v; error = e; state = end_sync u; effects = send_call c.number ∷ [] }

    -- `callSync`
    unfoldable pub call_sync :
        (CallState V → Option (Reply V) × CallState V)
        → Bool
        → SyncCall
        → CallState V
        → SyncAnswer V
    call_sync reply false c s = record {
      value = q.invalid;
      error = not_open c.object_name;
      state = s;
      effects = [];
    }
    call_sync reply true c s = let (r, u) = reply (begin_sync s) in after_wait c r u

  -- The number of blocking calls does not change by a step that is not their own.
  sync_outstanding-take_completion :
      (id : Text) (s : CallState V) → (take_completion id s).sync_outstanding ≡ s.sync_outstanding
  unfolding take_completion
  sync_outstanding-take_completion id s = ground arith

  sync_outstanding-end_sync :
      (s : CallState V) → (end_sync s).sync_outstanding ≡ s.sync_outstanding - 1
  unfolding end_sync drop_unclaimed_if_idle
  sync_outstanding-end_sync s = ground arith

  -- While nothing is under way, no answer is kept.
  abbrev pub Tidy : CallState V → Type 0
  Tidy s = (busy s ≡ true) ⊎ (s.completions ≡ [])

  drop_unclaimed_if_idle-Tidy : (s : CallState V) → Tidy (drop_unclaimed_if_idle s)
  unfolding drop_unclaimed_if_idle
  drop_unclaimed_if_idle-Tidy s = elim (Bool-cases (busy s)) [
    | inl e ↦ inl (rw e e)
    | inr e ↦ inr (rw e refl)
  ]

  abbrev pub Settled : V × CallError × CallState V → CallState V → Type 0
  Settled r s = ((r.1 ≡ no_error) ⊎ (r.0 ≡ q.invalid)) × (r.2.sync_outstanding ≡ s.sync_outstanding)

  claimed-Settled :
      (c : SyncCall) (id : Text) (o : Option V) (s : CallState V) → Settled (claimed c id o s) s
  claimed-Settled c id none s = (inr refl, refl)
  claimed-Settled c id (some v) s = (inl refl, sync_outstanding-take_completion id s)

  -- What the waits of a blocking call leave alone: the number of blocking calls of other threads.
  abbrev pub LeavesCount : (CallState V → CallState V) → Type 0
  LeavesCount f = (s : CallState V) → (f s).sync_outstanding ≡ s.sync_outstanding

  on_sync_reply-Settled :
      (completes : CallState V → CallState V)
      → LeavesCount completes
      → (c : SyncCall) (r : Reply V) (s : CallState V) → Settled (on_sync_reply completes c r s) s
  unfolding on_sync_reply on_sync_value await_completion
  on_sync_reply-Settled completes keeps c (failed code message) s = (inr refl, refl)
  on_sync_reply-Settled completes keeps c (answered v) s = waited (pending_call q v)
    where
      waited : (o : Option Text) → Settled (value_or_await completes c v o s) s
      waited none = (inl refl, refl)
      waited (some id) =
          let (e, n) = claimed-Settled c id (lookup id (completes s).completions) (completes s) in
          (e, n ∙ keeps s)

  -- What a call may leave on an open connection, and on a closed one.
  abbrev pub Left : Bool → CallState V → CallState V → Type 0
  Left true s u = Tidy u
  Left false s u = u ≡ s

  -- What a blocking call gives and leaves.
  abbrev pub Balanced : Bool → CallState V → SyncAnswer V → Type 0
  Balanced opened s r =
      ((r.error ≡ no_error) ⊎ (r.value ≡ q.invalid))
      × (r.state.sync_outstanding ≡ s.sync_outstanding)
      × Left opened s r.state

  after_wait-Balanced :
      (completes : CallState V → CallState V)
      → LeavesCount completes
      → (c : SyncCall) (r : Option (Reply V)) (s u : CallState V)
      → u.sync_outstanding ≡ s.sync_outstanding + 1
      → Balanced true s (after_wait completes c r u)
  unfolding after_wait end_sync
  after_wait-Balanced completes keeps c none s u h =
      (inr refl, omega (arith, sync_outstanding-end_sync u, h), drop_unclaimed_if_idle-Tidy _)
  after_wait-Balanced completes keeps c (some r) s u h =
      let (e, n) = on_sync_reply-Settled completes keeps c r u in
      (
        e,
        omega (arith, sync_outstanding-end_sync (on_sync_reply completes c r u).2, h, n),
        drop_unclaimed_if_idle-Tidy _,
      )

  -- However a blocking call ends, by a value, a failure, a deferred answer, a release or a deadline,
  -- it gives no value with an error and takes its own share of the count of blocking calls back. On an
  -- open connection it leaves no answer parked unless something else is under way, and on a closed
  -- one it changes nothing. The blocking calls of other threads that begin while it waits end while
  -- it waits, and no others do.
  pub call_sync-Balanced :
      (completes : CallState V → CallState V) (reply : CallState V → Option (Reply V) × CallState V)
      (opened : Bool) (c : SyncCall) (s : CallState V)
      → LeavesCount completes
      → LeavesCount (λ u. (reply u).1)
      → Balanced opened s (call_sync completes reply opened c s)
  unfolding call_sync begin_sync
  call_sync-Balanced completes reply false c s k l = (inr refl, refl, refl)
  call_sync-Balanced completes reply true c s k l =
      after_wait-Balanced completes k c (reply (begin_sync s)).0 s (reply (begin_sync s)).1
        (l (begin_sync s))
