-- ===== src/PlainObject/Answered.antt =====
-- The callbacks of a plain client object in any history of its calls
-- (cpp/implementations/plain/plain_logos_object.cpp).
use logos_protocol.Base.{
  ℕ, ◌-◌, ◌≤◌, ◌≡◌, refl, sym, ◌∙◌, ap, true, false, ◌||◌, none, some, Option-cases, Bool-cases,
  inl, inr, List, [], ◌∷◌, text_key, nat_eq, lookup, arith, ==→eq, ◌==◌,
}
use logos_protocol.Client.Status.{Variants}
use logos_protocol.PlainObject.{
  AsyncCall, CallState, initial, member, busy, drop_unclaimed_if_idle, begin_sync, end_sync,
}
use logos_protocol.PlainObject.Calls.{
  Reply, failed, answered, Event, starts, replies, completes, expires, enters, awaits, leaves,
  releases, on_reply_to, on_reply, on_expiry, abandon_number, abandon_all, stop_and_cancel_calls,
  handle, handle_all,
}
use logos_protocol.PlainObject.Claims.{
  is_some, posts, is_known, accounted, closed, Keeps, member_cons, deliver-Keeps, rebase, still,
}
use logos_protocol.PlainObject.Deliveries.{
  take-Keeps, complete-Keeps, append-Keeps, call-Keeps, value-Keeps, one_if-bound, member-is_nil,
  member_nil,
}

module _ {V : Type 0} (n : ℕ) where
  known_of :
      (m : ℕ) (call : AsyncCall) (s : CallState V)
      → lookup m s.calls ≡ some call
      → m == n ≡ true
      → is_known n s ≡ true
  unfolding is_known
  known_of m call s e h = ap (λ k. is_some (lookup k s.calls)) (sym (==→eq m n h)) ∙ ap is_some e

  reply-Keeps :
      (q : Variants V) (m : ℕ) (r : Reply V) (s : CallState V)
      → accounted n s || false ≡ true
      → closed s ≡ true
      → Keeps false n s (on_reply q m r s)
  unfolding on_reply on_reply_to
  reply-Keeps q m (failed code message) s h c = elim (Option-cases (lookup m s.calls)) [
    | inl e ↦ rw (on_reply, e) (still false n s s refl refl refl refl h c)
    | inr (call, e) ↦ rw (on_reply, e) (deliver-Keeps false n m call q.invalid _ s (inr h) c)
  ]
  reply-Keeps q m (answered v) s h c = elim (Option-cases (lookup m s.calls)) [
    | inl e ↦ rw (on_reply, e) (still false n s s refl refl refl refl h c)
    | inr (call, e) ↦ rw (on_reply, e) (value-Keeps n q m call v s (known_of m call s e) h c)
  ]

  expiry-Keeps :
      (q : Variants V) (m ms : ℕ) (s : CallState V)
      → accounted n s || false ≡ true
      → closed s ≡ true
      → Keeps false n s (on_expiry q m ms s)
  unfolding on_expiry
  expiry-Keeps q m ms s h c = elim (Option-cases (lookup m s.calls)) [
    | inl e ↦ rw (on_expiry, e) (still false n s s refl refl refl refl h c)
    | inr (call, e) ↦ rw (on_expiry, e) (deliver-Keeps false n m call q.invalid _ s (inr h) c)
  ]

  unaccounted-known :
      (m : ℕ) (s : CallState V) → lookup m s.calls ≡ none → m == n ≡ true → accounted n s ≡ true
  unfolding accounted is_known
  unaccounted-known m s e h =
      let k = ap (λ k. is_some (lookup k s.calls)) (sym (==→eq m n h)) ∙ ap is_some e in
      ground (arith, k)

  -- One of the calls that a release delivers; the others of the list are still to come.
  abandon-Keeps :
      (q : Variants V) (m : ℕ) (ms : List ℕ) (s : CallState V)
      → accounted n s || member n (m ∷ ms) ≡ true
      → closed s ≡ true
      → Keeps (member n ms) n s (abandon_number q m s)
  unfolding abandon_number
  abandon-Keeps q m ms s h c = elim (Option-cases (lookup m s.calls)) [
    | inl e ↦
        rw (abandon_number, e)
          (still (member n ms) n s s refl refl refl refl
            (elim (Bool-cases (m == n)) [
              | inl y ↦ ground (arith, unaccounted-known m s e y)
              | inr y ↦ ground (arith, h, y, member_cons n m ms)
            ])
            c)
    | inr (call, e) ↦
        rw (abandon_number, e)
          (deliver-Keeps (member n ms) n m call q.invalid _ s
            (elim (Bool-cases (m == n)) [
              | inl y ↦ inl y
              | inr y ↦ inr (ground (arith, h, y, member_cons n m ms))
            ])
            c)
  ]

  abandon_all-Keeps :
      (q : Variants V) (ms : List ℕ) (s : CallState V)
      → accounted n s || member n ms ≡ true
      → closed s ≡ true
      → Keeps false n s (abandon_all q ms s)
  unfolding abandon_all member
  abandon_all-Keeps q [] s h c = still false n s s refl refl refl refl h c
  abandon_all-Keeps q (m ∷ ms) s h c =
      let k = abandon-Keeps q m ms s h c in
      append-Keeps n _ _ s _ _ k (abandon_all-Keeps q ms _ k.finds k.closes)

  stop-Keeps :
      (q : Variants V) (s : CallState V)
      → accounted n s || false ≡ true
      → closed s ≡ true
      → Keeps false n s (stop_and_cancel_calls q s)
  unfolding stop_and_cancel_calls accounted is_known closed
  stop-Keeps q s h c =
      let u : CallState V = record s {
        stopping = true;
        inflight = [];
        deferred = [];
        completions = [];
        completion_order = [];
      } in
      rebase false n s u _ refl
        (abandon_all-Keeps q s.inflight u (ground (arith, h, member_nil n)) refl)

  sync-Keeps :
      (s : CallState V)
      → accounted n s || false ≡ true
      → closed s ≡ true
      → Keeps false n s (end_sync s, [])
  unfolding end_sync drop_unclaimed_if_idle
  sync-Keeps s h c =
      let u : CallState V = record s { sync_outstanding = s.sync_outstanding - 1 } in
      elim (Bool-cases (busy u)) [
        | inl e ↦
            rw (end_sync, drop_unclaimed_if_idle, e) (still false n s _ refl refl refl refl h c)
        | inr e ↦
            rw (end_sync, drop_unclaimed_if_idle, e) (still false n s _ refl refl refl refl h c)
      ]

  handle-Keeps :
      (q : Variants V) (e : Event V) (s : CallState V)
      → accounted n s || false ≡ true
      → closed s ≡ true
      → Keeps false n s (handle q e s)
  unfolding handle begin_sync
  handle-Keeps q (starts m call is_open) s h c = call-Keeps n q m call is_open s h c
  handle-Keeps q (replies m r) s h c = reply-Keeps q m r s h c
  handle-Keeps q (completes id v) s h c = complete-Keeps n id v s h c
  handle-Keeps q (expires m ms) s h c = expiry-Keeps q m ms s h c
  handle-Keeps q enters s h c = still false n s _ refl refl refl refl h c
  handle-Keeps q (awaits id) s h c = take-Keeps n id s h c
  handle-Keeps q leaves s h c = sync-Keeps s h c
  handle-Keeps q releases s h c = stop-Keeps q s h c

  handle_all-Keeps :
      (q : Variants V) (es : List (Event V)) (s : CallState V)
      → accounted n s || false ≡ true
      → closed s ≡ true
      → Keeps false n s (handle_all q es s)
  unfolding handle_all
  handle_all-Keeps q [] s h c = still false n s s refl refl refl refl h c
  handle_all-Keeps q (e ∷ es) s h c =
      let k = handle-Keeps q e s h c in
      append-Keeps n false false s _ _ k (handle_all-Keeps q es _ k.finds k.closes)

from_initial :
    {V : Type 0} (q : Variants V) (es : List (Event V)) (n : ℕ)
    → Keeps false n initial (handle_all q es initial)
unfolding accounted is_known closed lookup
from_initial q es n = handle_all-Keeps n q es initial refl refl

-- Whatever replies, deferred answers, deadlines and releases meet, and in which order they do, the
-- callback of a call is posted at most once.
pub posted_at_most_once :
    {V : Type 0} (q : Variants V) (es : List (Event V)) (n : ℕ)
    → posts n (handle_all q es initial).1 ≤ 1
posted_at_most_once q es n =
    let k = from_initial q es n in
    omega (arith, k.counts, one_if-bound (member n (handle_all q es initial).0.delivered))

-- Once an object was released, the callback of every call that it was given on an open connection,
-- before the release or after it, was posted exactly once.
pub released_answers :
    {V : Type 0} (q : Variants V) (es : List (Event V)) (n : ℕ)
    → (handle_all q es initial).0.stopping ≡ true
    → is_known n (handle_all q es initial).0 ≡ true
    → posts n (handle_all q es initial).1 ≡ 1
unfolding accounted closed
released_answers q es n t k =
    let r = handle_all q es initial in
    let h = from_initial q es n in
    let gone = member-is_nil n r.0.inflight (ground (arith, h.closes, t)) in
    ground (arith, h.counts, h.finds, k, gone, member_nil n)
