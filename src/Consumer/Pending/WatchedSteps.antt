-- ===== src/Consumer/Pending/WatchedSteps.antt =====
-- The timer and the pending subscriptions over the operations of `LogosPendingSubscriptions`
-- (cpp/logos_api_consumer.cpp).
use logos_protocol.Base.{
  ℕ, ◌≡◌, refl, true, false, not, ◌&&◌, ◌||◌, Option, none, some, List, [], ◌∷◌, map, All, Text,
  text_key, contains, exclude, arith, ◌⊎◌, inl, inr, Bool-cases,
}
use logos_protocol.Consumer.Pending.{
  Entry, running, Subscriptions, World, Run, initial, not_of_object, has_for, is_nil, timer_needed,
  take_matching,
}
use logos_protocol.Consumer.Pending.Operations.{
  attempt_acquire, begin_acquire, chase, add, remove_id, cancel, set_status_callback,
  set_restart_policy, rearm, for_each, acquire_one, reconnected,
}
use logos_protocol.Consumer.Pending.Liveness.{
  abandon, answered, bury, check_liveness, warn, dead_names, worth_polling, reschedule,
  reschedule_or_stop, tick, Command, adds, cancels, sets_status, sets_policy, rearms, answers,
  ticks, reconnects, perform, perform_all, unwatched,
}
use logos_protocol.Consumer.Pending.Taken.{taken, perform_all-taken}
use logos_protocol.Consumer.Pending.Watched.{
  stray, is_running, watched, ensure_timer-watched, stray-exclude, stray-remove_id, stray-warn,
  stray_of_worth_polling, stop_timer_if_idle-watched, arm_against-watched, acquiring-watched,
}

attempt_acquire-watched :
    (w : World) (name : Text) (p : Subscriptions)
    → watched p ≡ true
    → watched (attempt_acquire w name p).1.0 ≡ true
unfolding attempt_acquire
attempt_acquire-watched w name p h = grind (arith, acquiring-watched name p h, arm_against-watched)

begin_acquire-watched :
    (w : World) (name : Text) (p : Subscriptions)
    → watched p ≡ true
    → watched (begin_acquire w name p).1.0 ≡ true
unfolding begin_acquire
begin_acquire-watched w name p h =
    grind (arith, attempt_acquire-watched w name p h, arm_against-watched)

-- Where an acquire has armed, the timer was seen to.
begin_acquire-armed :
    (w : World) (name : Text) (p : Subscriptions)
    → (begin_acquire w name p).0 ≡ true
    → watched (begin_acquire w name p).1.0 ≡ true
unfolding begin_acquire attempt_acquire
begin_acquire-armed w name p h = grind (arith, arm_against-watched)

chase-watched : (w : World) (name : Text) (p : Subscriptions) → watched (chase w name p).0 ≡ true
unfolding chase
chase-watched w name p = grind (
  arith,
  arm_against-watched,
  begin_acquire-armed w name p,
  ensure_timer-watched (begin_acquire w name p).1.0,
)

for_each-watched :
    (f : Text → Subscriptions → Run)
    → ((name : Text) (p : Subscriptions) → watched p ≡ true → watched (f name p).0 ≡ true)
    → (names : List Text) (p : Subscriptions) → watched p ≡ true
    → watched (for_each f names p).0 ≡ true
unfolding for_each
for_each-watched f step [] p h = h
for_each-watched f step (name ∷ names) p h =
    for_each-watched f step names (f name p).0 (step name p h)

abandon-watched :
    (name : Text) (p : Subscriptions)
    → is_running p.timer
        || (is_nil p.armed_entries && not (stray p.acquiring (not_of_object name p.entries)))
      ≡ true
    → watched (abandon name p).0 ≡ true
unfolding abandon take_matching watched
abandon-watched name p h =
    stop_timer_if_idle-watched (record p { entries = not_of_object name p.entries }) h

answered-watched :
    (w : World) (name : Text) (obj : Option ℕ) (p : Subscriptions)
    → watched p ≡ true
    → watched (answered w name obj p).0 ≡ true
unfolding answered watched
answered-watched w name none p h =
    abandon-watched name (record p { acquiring = exclude name p.acquiring })
      (ground (arith, stray-exclude name p.acquiring p.entries))
answered-watched w name (some obj) p h = arm_against-watched w name obj _

check_liveness-watched :
    (w : World) (p : Subscriptions) → watched p ≡ true → watched (check_liveness w p).0 ≡ true
unfolding check_liveness
check_liveness-watched w p h =
    ground (arith, h, ensure_timer-watched (for_each (bury w) (dead_names w p.handles) p).0)

reschedule-watched : (p : Subscriptions) → watched p ≡ true → watched (reschedule p) ≡ true
unfolding reschedule watched timer_needed stray worth_polling
reschedule-watched p h = ground (arith, stray_of_worth_polling p.acquiring p.entries)

reschedule_or_stop-watched :
    (p : Subscriptions) → watched p ≡ true → watched (reschedule_or_stop p) ≡ true
unfolding reschedule_or_stop
reschedule_or_stop-watched p h = ground (arith, reschedule-watched p h)

acquire_one-watched :
    (w : World) (name : Text) (p : Subscriptions)
    → watched p ≡ true
    → watched (acquire_one w name p).0 ≡ true
unfolding acquire_one
acquire_one-watched w name p h = begin_acquire-watched w name p h

warned-watched :
    (w : World) (p : Subscriptions)
    → watched p ≡ true
    → watched (record p { entries = map (warn w) p.entries }) ≡ true
unfolding watched
warned-watched w p h = ground (arith, stray-warn w p.acquiring p.entries)

tick-watched : (w : World) (p : Subscriptions) → watched p ≡ true → watched (tick w p).0 ≡ true
unfolding tick
tick-watched w p h =
    let q : Subscriptions = (check_liveness w p).0 in
    let r : Subscriptions = (for_each (acquire_one w) (unwatched q.acquiring q.entries) q).0 in
    reschedule_or_stop-watched (record r { entries = map (warn w) r.entries })
      (warned-watched w r (
        for_each-watched (acquire_one w) (acquire_one-watched w) (unwatched q.acquiring q.entries) q
          (check_liveness-watched w p h)))

removed-watched :
    (id : ℕ) (p : Subscriptions)
    → watched p ≡ true
    → watched (record p { entries = remove_id id p.entries }) ≡ true
unfolding watched
removed-watched id p h = ground (arith, stray-remove_id id p.acquiring p.entries)

remove_id-is_nil : (id : ℕ) (es : List Entry) → is_nil es ≡ true → is_nil (remove_id id es) ≡ true
unfolding remove_id
remove_id-is_nil id [] h = refl
remove_id-is_nil id (e ∷ es) h = cc

removed_armed-watched :
    (id : ℕ) (p : Subscriptions)
    → watched p ≡ true
    → watched (record p { armed_entries = remove_id id p.armed_entries }) ≡ true
unfolding watched
removed_armed-watched id p h = ground (arith, remove_id-is_nil id p.armed_entries)

removed_held-watched :
    (id : ℕ) (p : Subscriptions)
    → watched p ≡ true
    → watched (record p { held_entries = remove_id id p.held_entries }) ≡ true
unfolding watched
removed_held-watched id p h = h

cancel-watched : (id : ℕ) (p : Subscriptions) → watched p ≡ true → watched (cancel id p).1 ≡ true
unfolding cancel
cancel-watched id p h = ground (
  arith,
  h,
  λ (g : watched (record p { entries = remove_id id p.entries }) ≡ true).
      stop_timer_if_idle-watched (record p { entries = remove_id id p.entries }) g,
  removed-watched id p h,
  removed_armed-watched id p h,
  removed_held-watched id p h,
)

rearm-watched :
    (w : World) (name : Text) (p : Subscriptions)
    → watched p ≡ true
    → watched (rearm w name p).1.0 ≡ true
unfolding rearm
rearm-watched w name p h = elim (Bool-cases (has_for name p.held_entries)) [
  | inl e ↦ rw (e, rearm) (ensure_timer-watched _)
  | inr e ↦ rw (e, rearm) h
]

perform-watched :
    (w : World) (c : Command) (p : Subscriptions)
    → watched p ≡ true
    → watched (perform w c p).0 ≡ true
unfolding perform set_status_callback set_restart_policy watched add reconnected
perform-watched w (adds name event callback on_armed readiness_only) p h = chase-watched w name _
perform-watched w (cancels id) p h = cancel-watched id p h
perform-watched w (sets_status name cb) p h = h
perform-watched w (sets_policy name policy) p h = h
perform-watched w (rearms name) p h = rearm-watched w name p h
perform-watched w (answers name obj) p h = answered-watched w name obj p h
perform-watched w ticks p h = tick-watched w p h
perform-watched w reconnects p h = ensure_timer-watched _

initial-watched : watched initial ≡ true
unfolding watched stray
initial-watched = refl

perform_all-watched :
    (cs : List (World × Command)) (p : Subscriptions)
    → watched p ≡ true
    → watched (perform_all cs p).0 ≡ true
unfolding perform_all
perform_all-watched [] p h = h
perform_all-watched ((w, c) ∷ cs) p h =
    perform_all-watched cs (perform w c p).0 (perform-watched w c p h)

All-acquired :
    (acquiring : List Text) (es : List Entry)
    → stray acquiring es ≡ false
    → All (λ (e : Entry). contains e.object_name acquiring ≡ true) es
unfolding stray
All-acquired acquiring [] h = tt
All-acquired acquiring (e ∷ es) h = ground (arith, All-acquired acquiring es)

watched_means :
    (p : Subscriptions)
    → watched p ≡ true
    → (p.timer ≡ running)
      ⊎ ((p.armed_entries ≡ [])
          × All (λ (e : Entry). contains e.object_name p.acquiring ≡ true) p.entries)
unfolding watched
watched_means p h = ground (arith, h, All-acquired p.acquiring p.entries)

All-taken :
    (cs : List (World × Command)) (es : List Entry)
    → All (λ (e : Entry). contains e.object_name (perform_all cs initial).0.acquiring ≡ true) es
    → All (λ (e : Entry). taken e.object_name cs initial false ≡ true) es
unfolding contains
All-taken cs [] h = tt
All-taken cs (e ∷ es) h =
    (perform_all-taken e.object_name cs initial false (λ none. none) h.0, All-taken cs es h.1)

-- After any history, whatever the transport answers, the timer runs or else nothing is left that it
-- should look at: no subscription is armed, and for each that is pending the transport was asked for
-- the object and took the request, and since then it has neither answered it nor was it replaced
-- by a reconnection.
pub nothing_stranded :
    (cs : List (World × Command))
    → let p = (perform_all cs initial).0 in
      (p.timer ≡ running)
      ⊎ ((p.armed_entries ≡ [])
          × All (λ (e : Entry). taken e.object_name cs initial false ≡ true) p.entries)
nothing_stranded cs =
    let p : Subscriptions = (perform_all cs initial).0 in
    elim (watched_means p (perform_all-watched cs initial initial-watched)) [
      | inl r ↦ inl r
      | inr (idle, acquired) ↦ inr (idle, All-taken cs p.entries acquired)
    ]
