-- ===== src/Consumer/Pending/KeptSteps.antt =====
-- What each operation keeps of the subscriptions (`LogosPendingSubscriptions` of\ncpp/logos_api_consumer.cpp).
use logos_protocol.Base.{
  ℕ, ◌+◌, ◌≡◌, ◌≢◌, refl, ◌∙◌, Bool, not, ◌&&◌, Option, List, [], ◌∷◌, ◌++◌, map, Text, text_key,
  erase, exclude, ◌==◌, if◌then◌else◌, arith, inl, inr, Bool-cases,
}
use logos_protocol.Consumer.Pending.{
  Entry, Subscriptions, World, Run, of_object, not_of_object, has_for, revive_armed, hold_armed,
  SubscriptionEvent, became_held,
}
use logos_protocol.Consumer.Pending.Operations.{
  chase, add_entry, remove_id, cancel, rearm, acquire_again, for_each, acquire_one, report_one,
  reconnected, unheld, to_hold, to_revive,
}
use logos_protocol.Consumer.Pending.Liveness.{
  bury, dead_names, check_liveness, warn, reschedule, reschedule_or_stop, tick, unwatched,
}
use logos_protocol.Consumer.Pending.Kept.{
  tally, kept, tally-append, tally_nil, tally_split, tally-reset, tally_hold, kept-ensure_timer,
  kept-stop_timer_if_idle, kept-revive_armed, kept-hold_armed, kept_same, kept_warned,
  kept-arm_against, kept-begin_acquire,
}

pub kept-chase :
    (id : ℕ) (w : World) (name : Text) (p : Subscriptions) → kept id (chase w name p).0 ≡ kept id p
unfolding chase
kept-chase id w name p = grind (arith, kept-arm_against, kept-begin_acquire, kept-ensure_timer)

pub kept-acquire_one :
    (id : ℕ) (w : World) (name : Text) (p : Subscriptions)
    → kept id (acquire_one w name p).0 ≡ kept id p
unfolding acquire_one
kept-acquire_one id w name p = kept-begin_acquire id w name p

pub kept-for_each :
    (id : ℕ) (f : Text → Subscriptions → Run)
    → ((name : Text) (p : Subscriptions) → kept id (f name p).0 ≡ kept id p)
    → (names : List Text) (p : Subscriptions) → kept id (for_each f names p).0 ≡ kept id p
unfolding for_each
kept-for_each id f step [] p = refl
kept-for_each id f step (name ∷ names) p = kept-for_each id f step names (f name p).0 ∙ step name p

pub kept-bury :
    (id : ℕ) (w : World) (name : Text) (p : Subscriptions) → kept id (bury w name p).0 ≡ kept id p
unfolding bury acquire_one
kept-bury id w name p =
    let gone : Subscriptions = record p {
      handles = erase name p.handles;
      acquiring = exclude name p.acquiring;
    } in
    let q : Subscriptions = revive_armed w name (hold_armed name gone) in
    ground (
      arith,
      kept-begin_acquire id w name q,
      kept-revive_armed id w name (hold_armed name gone),
      kept-hold_armed id name gone,
      kept_same id p gone refl refl refl,
    )

pub kept-check_liveness :
    (id : ℕ) (w : World) (p : Subscriptions) → kept id (check_liveness w p).0 ≡ kept id p
unfolding check_liveness
kept-check_liveness id w p =
    let dead : List Text = dead_names w p.handles in
    ground (
      arith,
      kept-ensure_timer id (for_each (bury w) dead p).0,
      kept-for_each id (bury w) (kept-bury id w) dead p,
    )

pub kept-reschedule_or_stop :
    (id : ℕ) (p : Subscriptions) → kept id (reschedule_or_stop p) ≡ kept id p
unfolding reschedule_or_stop reschedule kept
kept-reschedule_or_stop id p = ground arith

pub kept-tick : (id : ℕ) (w : World) (p : Subscriptions) → kept id (tick w p).0 ≡ kept id p
unfolding tick
kept-tick id w p =
    let q : Subscriptions = (check_liveness w p).0 in
    let r : Subscriptions = (for_each (acquire_one w) (unwatched q.acquiring q.entries) q).0 in
    kept-reschedule_or_stop id (record r { entries = map (warn w) r.entries })
    ∙ kept_warned id w r
    ∙ kept-for_each id (acquire_one w) (kept-acquire_one id w) (unwatched q.acquiring q.entries) q
    ∙ kept-check_liveness id w p

-- What `reconnected` makes of the armed entries.
pub kept_revived :
    (id : ℕ) (w : World) (p : Subscriptions)
    → kept id (record p {
      handles = [];
      acquiring = [];
      armed_entries = [];
      held_entries = p.held_entries ++ to_hold p p.armed_entries;
      entries = p.entries ++ to_revive w p p.armed_entries;
    })
      ≡ kept id p
unfolding kept
kept_revived id w p = omega (
  arith,
  tally_hold id w p p.armed_entries,
  tally_nil id,
  tally-append id p.held_entries (to_hold p p.armed_entries),
  tally-append id p.entries (to_revive w p p.armed_entries),
)

pub kept-report_one :
    (id : ℕ) (event : SubscriptionEvent) (reason name : Text) (p : Subscriptions)
    → kept id (report_one event reason name p).0 ≡ kept id p
unfolding report_one
kept-report_one id event reason name p = refl

pub kept-reconnected :
    (id : ℕ) (w : World) (p : Subscriptions) → kept id (reconnected w p).0 ≡ kept id p
unfolding reconnected
kept-reconnected id w p =
    kept-ensure_timer id _
    ∙ kept-for_each id (acquire_one w) (kept-acquire_one id w) _ _
    ∙ kept-for_each id _ (kept-report_one id became_held _) _ _
    ∙ kept_revived id w p

pub kept-unheld :
    (id : ℕ) (w : World) (name : Text) (p : Subscriptions)
    → kept id (record p {
      entries = p.entries ++ unheld w name p.held_entries;
      held_entries = not_of_object name p.held_entries;
    })
      ≡ kept id p
unfolding kept unheld
kept-unheld id w name p = omega (
  arith,
  tally_split id name p.held_entries,
  tally-append id p.entries (unheld w name p.held_entries),
  tally-reset id w.now (of_object name p.held_entries),
)

pub kept-acquire_again :
    (id : ℕ) (w : World) (name : Text) (p : Subscriptions)
    → kept id (acquire_again w name p).0 ≡ kept id p
unfolding acquire_again
kept-acquire_again id w name p = grind (arith, kept-arm_against, kept-begin_acquire)

pub kept-rearm :
    (id : ℕ) (w : World) (name : Text) (p : Subscriptions)
    → kept id (rearm w name p).1.0 ≡ kept id p
unfolding rearm
kept-rearm id w name p = elim (Bool-cases (has_for name p.held_entries)) [
  | inl e ↦
      rw (e, rearm)
        (kept-ensure_timer id _ ∙ kept-acquire_again id w name _ ∙ kept-unheld id w name p)
  | inr e ↦ rw (e, rearm) refl
]

pub tally-remove_id :
    (id j : ℕ) (es : List Entry) → j ≢ id → tally id (remove_id j es) ≡ tally id es
unfolding tally remove_id
tally-remove_id id j [] n = refl
tally-remove_id id j (e ∷ es) n = ground (arith, tally-remove_id id j es n)

pub kept_removed :
    (id j : ℕ) (p : Subscriptions)
    → j ≢ id
    → (kept id (record p { entries = remove_id j p.entries }) ≡ kept id p)
      × (kept id (record p { armed_entries = remove_id j p.armed_entries }) ≡ kept id p)
      × (kept id (record p { held_entries = remove_id j p.held_entries }) ≡ kept id p)
unfolding kept
kept_removed id j p n = omega (
  arith,
  tally-remove_id id j p.entries n,
  tally-remove_id id j p.armed_entries n,
  tally-remove_id id j p.held_entries n,
)

pub kept-cancel : (id j : ℕ) (p : Subscriptions) → j ≢ id → kept id (cancel j p).1 ≡ kept id p
unfolding cancel
kept-cancel id j p n = ground (
  arith,
  kept-stop_timer_if_idle id (record p { entries = remove_id j p.entries }),
  kept_removed id j p n,
)

pub kept-add_entry :
    (id : ℕ) (w : World) (name event : Text) (callback : ℕ) (on_armed : Option ℕ)
    (readiness_only : Bool) (p : Subscriptions)
    → kept id (add_entry w name event callback on_armed readiness_only p)
      ≡ kept id p + (if (p.next_id == id) && not readiness_only then 1 else 0)
unfolding add_entry kept tally
kept-add_entry id w name event callback on_armed readiness_only p = grind (arith, tally-append)
