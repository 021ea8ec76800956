-- ===== src/Client/Ledger.antt =====
-- What a client owes its callers: the calls that are queued or in flight, how often each may still
-- be sent, and what an operation does to that (cpp/logos_api_client.cpp).
use logos_protocol.Base.{
  weigh, weigh_found, KeysOnce, weigh-put, Option-cases, inl, inr, ap, ℕ, zero, suc, ◌+◌, ◌≤◌, ◌≡◌,
  false, some, List, [], ◌∷◌, ◌++◌, Text, text_key, lookup, put, arith, All, ◌==◌, if◌then◌else◌,
}
use logos_protocol.Host.{or_nil}
use logos_protocol.Client.{Call, Client}
use logos_protocol.Client.Status.{Variants, is_unauthorized_sentinel}
use logos_protocol.Client.Handshake.{
  Effect, send, request_module, deliver, cancel_subscription, Run, nth, without_nth,
}

unfoldable pub weight : (Call → ℕ) → List Call → ℕ
weight f [] = 0
weight f (call ∷ calls) = f call + weight f calls

abbrev pub weight_queues : (Call → ℕ) → List (Text × List Call) → ℕ
weight_queues f qs = weigh (weight f) qs

pub weight-append :
    (f : Call → ℕ) (xs : List Call) (x : Call) → weight f (xs ++ x ∷ []) ≡ weight f xs + f x
unfolding weight
weight-append f [] x = omega arith
weight-append f (y ∷ xs) x = omega (arith, weight-append f xs x)

pub weight-without_nth :
    (f : Call → ℕ) (i : ℕ) (xs : List Call) (x : Call)
    → nth i xs ≡ some x
    → weight f xs ≡ weight f (without_nth i xs) + f x
unfolding weight nth without_nth
weight-without_nth f i [] x h = cc
weight-without_nth f zero (y ∷ xs) x h = ground (arith, h)
weight-without_nth f (suc i) (y ∷ xs) x h = omega (arith, weight-without_nth f i xs x h)

pub weight_queues-put :
    (f : Call → ℕ) (name : Text) (calls : List Call) (qs : List (Text × List Call))
    → weight_queues f (put name calls qs) + weight f (or_nil (lookup name qs))
      ≡ weight_queues f qs + weight f calls
unfolding weight weigh_found
weight_queues-put f name calls qs =
    let h = weigh-put (weight f) name calls qs in
    elim (Option-cases (lookup name qs)) [
      | inl e ↦ rw e (omega (arith, h, ap (weigh_found (weight f)) e))
      | inr (cs, e) ↦ rw e (omega (arith, h, ap (weigh_found (weight f)) e))
    ]

-- The calls of one callback, and how often each may be sent: a queued one once more than one in
-- flight.
unfoldable pub mine : ℕ → Call → ℕ
mine id call = if call.callback == id then 1 else 0

unfoldable pub may_retry : ℕ → Call → ℕ
may_retry id call = if call.callback == id then call.retries_left else 0

unfoldable pub may_send : ℕ → Call → ℕ
may_send id call = if call.callback == id then 1 + call.retries_left else 0

unfoldable pub owed : ℕ → Client → ℕ
owed id c = weight_queues (mine id) c.pending_handshakes + weight (mine id) c.flights

unfoldable pub sendable : ℕ → Client → ℕ
sendable id c = weight_queues (may_send id) c.pending_handshakes + weight (may_retry id) c.flights

module _ {V : Type 0} where
  -- How often the effects answer the callback, and how often they send its call.
  unfoldable pub delivered : ℕ → List (Effect V) → ℕ
  delivered id [] = 0
  delivered id (deliver n v err ∷ es) = (if n == id then 1 else 0) + delivered id es
  delivered id (e ∷ es) = delivered id es

  unfoldable pub sent : ℕ → List (Effect V) → ℕ
  sent id [] = 0
  sent id (send token call ∷ es) = mine id call + sent id es
  sent id (e ∷ es) = sent id es

  pub delivered-append :
      (id : ℕ) (xs ys : List (Effect V))
      → delivered id (xs ++ ys) ≡ delivered id xs + delivered id ys
  unfolding delivered
  delivered-append id [] ys = omega arith
  delivered-append id (deliver n v err ∷ xs) ys = omega (arith, delivered-append id xs ys)
  delivered-append id (send t c ∷ xs) ys = delivered-append id xs ys
  delivered-append id (request_module t o n ms ∷ xs) ys = delivered-append id xs ys
  delivered-append id (cancel_subscription n ∷ xs) ys = delivered-append id xs ys

  pub sent-append :
      (id : ℕ) (xs ys : List (Effect V)) → sent id (xs ++ ys) ≡ sent id xs + sent id ys
  unfolding sent
  sent-append id [] ys = omega arith
  sent-append id (deliver n v err ∷ xs) ys = sent-append id xs ys
  sent-append id (send t c ∷ xs) ys = omega (arith, sent-append id xs ys)
  sent-append id (request_module t o n ms ∷ xs) ys = sent-append id xs ys
  sent-append id (cancel_subscription n ∷ xs) ys = sent-append id xs ys

  -- The effect hands no refusal of a token to a caller.
  abbrev pub Clean : Variants V → Effect V → Type 0
  Clean q (deliver n v err) = is_unauthorized_sentinel q v ≡ false
  Clean q e = Unit

-- From a state that owes `a` and may send `s` for the callback, the state and the effects that an
-- operation gives.
pub record Balance {V : Type 0} (q : Variants V) (id a s : ℕ) (r : Run V) : Type 0 where
  pub owes : owed id r.0 + delivered id r.1 ≡ a
  pub sends : sendable id r.0 + sent id r.1 ≤ s
  pub once : KeysOnce r.0.pending_handshakes
  pub clean : All (Clean q) r.1
