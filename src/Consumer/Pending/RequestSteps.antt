-- ===== src/Consumer/Pending/RequestSteps.antt =====
-- The requests that the transport has taken and not answered, over the operations of
-- `LogosPendingSubscriptions` (cpp/logos_api_consumer.cpp).
use logos_protocol.Base.{
  ℕ, ◌≡◌, refl, sym, ap, ◌∙◌, Bool, true, false, if◌then◌else◌, List, [], ◌∷◌, ◌++◌, Text, text_key,
  contains, exclude, arith, Bool-cases, Option-cases, inl, inr, map, erase,
}
use logos_protocol.Consumer.Pending.{
  Subscriptions, World, Run, revive_armed, hold_armed, is_nil, has_for,
}
use logos_protocol.Consumer.Pending.Operations.{
  begin_acquire, chase, live_handle, cancel, rearm, acquire_again, for_each, acquire_one,
  with_timer,
}
use logos_protocol.Consumer.Pending.Liveness.{
  bury, check_liveness, warn, reschedule, reschedule_or_stop, tick, unwatched, dead_names,
}
use logos_protocol.Consumer.Pending.Requests.{
  Accounted, same-Accounted, then-Accounted, ensure_timer-acquiring, stop_timer_if_idle-acquiring,
  arm_against-Accounted, begin_acquire-Accounted, acquire_one-Accounted,
}

pub with_timer-Accounted :
    (x : Text) (p : Subscriptions) (r : Run) → Accounted x p r → Accounted x p (with_timer r)
with_timer-Accounted x p r f h = f (sym (ap (contains x) (ensure_timer-acquiring r.0)) ∙ h)

pub for_each-Accounted :
    (x : Text) (f : Text → Subscriptions → Run)
    → ((name : Text) (p : Subscriptions) → Accounted x p (f name p))
    → (names : List Text) (p : Subscriptions) → Accounted x p (for_each f names p)
unfolding for_each
for_each-Accounted x f step [] p = same-Accounted x p p [] (λ h. h)
for_each-Accounted x f step (name ∷ names) p =
    then-Accounted x p (f name p) (for_each f names (f name p).0) (step name p)
      (for_each-Accounted x f step names (f name p).0)

pub chase-Accounted :
    (x : Text) (w : World) (name : Text) (p : Subscriptions) → Accounted x p (chase w name p)
unfolding chase
chase-Accounted x w name p = elim (Option-cases (live_handle w name p)) [
  | inr (obj, e) ↦ rw (chase, e) (arm_against-Accounted x w name obj p)
  | inl e ↦ elim (Bool-cases (begin_acquire w name p).0) [
    | inl a ↦ rw (chase, e, a) (begin_acquire-Accounted x w name p)
    | inr a ↦
        rw (chase, e, a)
          (with_timer-Accounted x p (begin_acquire w name p).1 (begin_acquire-Accounted x w name p))
  ]
]

acquire_again-Accounted :
    (x : Text) (w : World) (name : Text) (p : Subscriptions)
    → Accounted x p (acquire_again w name p)
unfolding acquire_again
acquire_again-Accounted x w name p = elim (Option-cases (live_handle w name p)) [
  | inr (obj, e) ↦ rw (acquire_again, e) (arm_against-Accounted x w name obj p)
  | inl e ↦ rw (acquire_again, e) (begin_acquire-Accounted x w name p)
]

pub rearm-Accounted :
    (x : Text) (w : World) (name : Text) (p : Subscriptions) → Accounted x p (rearm w name p).1
unfolding rearm
rearm-Accounted x w name p = elim (Bool-cases (has_for name p.held_entries)) [
  | inl e ↦ rw (rearm, e) (with_timer-Accounted x p _ (acquire_again-Accounted x w name _))
  | inr e ↦ rw (rearm, e) (same-Accounted x p p [] (λ h. h))
]

-- What is left of a set was in it.
pub contains-exclude_le :
    (x y : Text) (xs : List Text) → contains x (exclude y xs) ≡ true → contains x xs ≡ true
unfolding contains exclude
contains-exclude_le x y [] h = h
contains-exclude_le x y (z ∷ zs) h = ground (arith, h, contains-exclude_le x y zs)

pub contains-exclude_self : (x : Text) (xs : List Text) → contains x (exclude x xs) ≡ false
unfolding contains exclude
contains-exclude_self x [] = refl
contains-exclude_self x (z ∷ zs) = ground (arith, contains-exclude_self x zs)

hold_armed-acquiring :
    (name : Text) (p : Subscriptions) → (hold_armed name p).acquiring ≡ p.acquiring
unfolding hold_armed
hold_armed-acquiring name p = ground arith

bury-Accounted :
    (x : Text) (w : World) (name : Text) (p : Subscriptions) → Accounted x p (bury w name p)
unfolding bury revive_armed
bury-Accounted x w name p =
    let q : Subscriptions = record p {
      handles = erase name p.handles;
      acquiring = exclude name p.acquiring;
    } in
    let r : Subscriptions = revive_armed w name (hold_armed name q) in
    then-Accounted x p (r, _) (if has_for name r.entries then acquire_one w name r else (r, []))
      (same-Accounted x p r _ (λ h.
        contains-exclude_le x name p.acquiring
          (sym (ap (contains x) (hold_armed-acquiring name q)) ∙ h)))
      (renewed r (has_for name r.entries))
  where
    renewed :
        (r : Subscriptions) (b : Bool) → Accounted x r (if b then acquire_one w name r else (r, []))
    renewed r true = acquire_one-Accounted x w name r
    renewed r false = same-Accounted x r r [] (λ h. h)

check_liveness-Accounted :
    (x : Text) (w : World) (p : Subscriptions) → Accounted x p (check_liveness w p)
unfolding check_liveness
check_liveness-Accounted x w p = elim (Bool-cases (is_nil p.armed_entries)) [
  | inl e ↦ rw (check_liveness, e) (same-Accounted x p p [] (λ h. h))
  | inr e ↦ elim (Bool-cases (is_nil (dead_names w p.handles))) [
    | inl d ↦ rw (check_liveness, e, d) (same-Accounted x p p [] (λ h. h))
    | inr d ↦
        rw (check_liveness, e, d)
          (with_timer-Accounted x p _
            (for_each-Accounted x (bury w) (bury-Accounted x w) (dead_names w p.handles) p))
  ]
]

reschedule-acquiring : (p : Subscriptions) → (reschedule p).acquiring ≡ p.acquiring
unfolding reschedule
reschedule-acquiring p = ground arith

reschedule_or_stop-acquiring : (p : Subscriptions) → (reschedule_or_stop p).acquiring ≡ p.acquiring
unfolding reschedule_or_stop
reschedule_or_stop-acquiring p = ground (arith, reschedule-acquiring p)

pub tick-Accounted : (x : Text) (w : World) (p : Subscriptions) → Accounted x p (tick w p)
unfolding tick
tick-Accounted x w p =
    let first : Run = check_liveness w p in
    let q : Subscriptions = first.0 in
    let again : Run = for_each (acquire_one w) (unwatched q.acquiring q.entries) q in
    let r : Subscriptions = again.0 in
    let last : Subscriptions = reschedule_or_stop (record r { entries = map (warn w) r.entries }) in
    then-Accounted x p (r, first.1 ++ again.1) (last, [])
      (then-Accounted x p first again (check_liveness-Accounted x w p) (
        for_each-Accounted x (acquire_one w) (acquire_one-Accounted x w)
          (unwatched q.acquiring q.entries) q))
      (same-Accounted x r last [] (λ h.
        sym (
          ap (contains x)
            (reschedule_or_stop-acquiring (record r { entries = map (warn w) r.entries })))
        ∙ h))

pub cancel-acquiring : (id : ℕ) (p : Subscriptions) → (cancel id p).1.acquiring ≡ p.acquiring
unfolding cancel
cancel-acquiring id p = grind (arith, stop_timer_if_idle-acquiring)
