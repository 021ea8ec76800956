-- ===== src/Consumer/Pending/Taken.antt =====
-- Which requests the transport has taken and not answered after a history of commands
-- (`LogosPendingSubscriptions` of cpp/logos_api_consumer.cpp).
use logos_protocol.Base.{
  ℕ, not, ◌≡◌, sym, ap, ◌∙◌, Bool, true, false, ◌&&◌, ◌||◌, Option, none, codes, some, List, [],
  ◌∷◌, ◌++◌, Text, text_eq, text_eq_iff, text_key, contains, exclude, arith, Bool-cases, inl, inr,
}
use logos_protocol.Consumer.Pending.{became_held, Entry, Subscriptions, World, Run, take_matching}
use logos_protocol.Consumer.Pending.Operations.{
  add, add_entry, set_status_callback, set_restart_policy, for_each, acquire_one, reconnected,
  report_one, to_hold, to_revive, names_of, release_all,
}
use logos_protocol.Consumer.Pending.Liveness.{
  abandon, answered, Command, adds, cancels, sets_status, sets_policy, rearms, answers, ticks,
  reconnects, perform, perform_all,
}
use logos_protocol.Consumer.Pending.Requests.{
  asked, same-Accounted, then-Accounted, stop_timer_if_idle-acquiring, arm_against-acquiring,
  acquire_one-Accounted, report_one-Accounted,
}
use logos_protocol.Consumer.Pending.RequestSteps.{
  with_timer-Accounted, for_each-Accounted, chase-Accounted, rearm-Accounted, contains-exclude_le,
  contains-exclude_self, tick-Accounted, cancel-acquiring,
}

answered-acquiring :
    (w : World) (name : Text) (obj : Option ℕ) (p : Subscriptions)
    → (answered w name obj p).0.acquiring ≡ exclude name p.acquiring
unfolding answered abandon take_matching
answered-acquiring w name none p = stop_timer_if_idle-acquiring _
answered-acquiring w name (some obj) p =
    arm_against-acquiring w name obj (record p { acquiring = exclude name p.acquiring })

-- An answer, and the end of the connection, settle what was asked for the object before.
pub settles : Text → Command → Bool
settles x (adds name event callback on_armed readiness_only) = false
settles x (cancels id) = false
settles x (sets_status name cb) = false
settles x (sets_policy name policy) = false
settles x (rearms name) = false
settles x (answers name obj) = text_eq name x
settles x ticks = false
settles x reconnects = true

answered-left :
    (x name : Text) (xs : List Text)
    → contains x (exclude name xs) ≡ true
    → not (text_eq name x) && contains x xs ≡ true
answered-left x name xs h = elim (Bool-cases (text_eq name x)) [
  | inl e ↦
      let same : name ≡ x = (text_eq_iff name x).0 e in
      let gone : contains x (exclude name xs) ≡ false =
        ap (λ n. contains x (exclude n xs)) same ∙ contains-exclude_self x xs in
      cc
  | inr e ↦ rw (e) (contains-exclude_le x name xs h)
]

-- After a reconnection all that is being acquired was asked for by it.
reconnected-asked :
    (x : Text) (w : World) (p : Subscriptions)
    → contains x (reconnected w p).0.acquiring ≡ true
    → asked x (reconnected w p).1 ≡ true
unfolding reconnected contains
reconnected-asked x w p =
    let revive : List Entry = p.armed_entries in
    let q : Subscriptions = record p {
      handles = [];
      acquiring = [];
      armed_entries = [];
      held_entries = p.held_entries ++ to_hold p revive;
      entries = p.entries ++ to_revive w p revive;
    } in
    let report : Text → Subscriptions → Run = report_one became_held (codes "connection_reset") in
    let first : Run = (q, release_all p.handles) in
    let second : Run = for_each report (names_of (to_hold p revive)) q in
    let third : Run = for_each (acquire_one w) (names_of (to_revive w p revive)) second.0 in
    with_timer-Accounted x q (third.0, (first.1 ++ second.1) ++ third.1)
      (then-Accounted x q (second.0, first.1 ++ second.1) third
        (then-Accounted x q first second (same-Accounted x q q first.1 (λ h. h))
          (for_each-Accounted x report (report_one-Accounted x) (names_of (to_hold p revive)) q))
        (for_each-Accounted x (acquire_one w) (acquire_one-Accounted x w)
          (names_of (to_revive w p revive)) second.0))

-- What is being acquired after a command was before it, and the command did not settle it, or the
-- command asked for it.
pub perform-asked :
    (x : Text) (w : World) (c : Command) (p : Subscriptions)
    → contains x (perform w c p).0.acquiring ≡ true
    → (not (settles x c) && contains x p.acquiring) || asked x (perform w c p).1 ≡ true
unfolding perform settles add add_entry set_status_callback set_restart_policy asked
perform-asked x w (adds name event callback on_armed readiness_only) p h =
    chase-Accounted x w name (add_entry w name event callback on_armed readiness_only p) h
perform-asked x w (cancels id) p h =
    ground (arith, sym (ap (contains x) (cancel-acquiring id p)) ∙ h)
perform-asked x w (sets_status name cb) p h = ground (arith, h)
perform-asked x w (sets_policy name policy) p h = ground (arith, h)
perform-asked x w (rearms name) p h = rearm-Accounted x w name p h
perform-asked x w (answers name obj) p h =
    let left =
      answered-left x name p.acquiring
        (sym (ap (contains x) (answered-acquiring w name obj p)) ∙ h) in
    ground (arith, left)
perform-asked x w ticks p h = tick-Accounted x w p h
perform-asked x w reconnects p h = reconnected-asked x w p h

-- Over a history: since the last command that settled requests for the object, the transport took
-- one.
unfoldable pub taken : Text → List (World × Command) → Subscriptions → Bool → Bool
taken x [] p before = before
taken x ((w, c) ∷ cs) p before =
    taken x cs (perform w c p).0 ((not (settles x c) && before) || asked x (perform w c p).1)

pub perform_all-taken :
    (x : Text) (cs : List (World × Command)) (p : Subscriptions) (before : Bool)
    → (contains x p.acquiring ≡ true → before ≡ true)
    → contains x (perform_all cs p).0.acquiring ≡ true
    → taken x cs p before ≡ true
unfolding perform_all taken
perform_all-taken x [] p before k h = k h
perform_all-taken x ((w, c) ∷ cs) p before k h =
    perform_all-taken x cs (perform w c p).0 _
      (λ acquired.
        still before (contains x p.acquiring) (asked x (perform w c p).1) (not (settles x c))
          (perform-asked x w c p acquired) k)
      h
  where
    still : (b a e n : Bool) → (n && a) || e ≡ true → (a ≡ true → b ≡ true) → (n && b) || e ≡ true
    still b a e n f g = ground arith
