-- ===== src/Consumer/Pending/Survives.antt =====
-- Which histories lose a subscription (`LogosPendingSubscriptions` of cpp/logos_api_consumer.cpp).
use logos_protocol.Base.{
  ℕ, ◌≤◌, ◌<◌, ◌≡◌, ◌≢◌, refl, Bool, true, false, not, ◌&&◌, Option, none, some, List, [], ◌∷◌, All,
  Text, text_key, exclude, ◌==◌, if◌then◌else◌, arith,
}
use logos_protocol.Consumer.Pending.{Entry, Subscriptions, World, unknown}
use logos_protocol.Consumer.Pending.Operations.{
  chase, add, add_entry, has_id, state, set_status_callback, set_restart_policy,
}
use logos_protocol.Consumer.Pending.Liveness.{
  answered, Command, adds, cancels, sets_status, sets_policy, rearms, answers, ticks, reconnects,
  perform, perform_all,
}
use logos_protocol.Consumer.Pending.Kept.{tally, kept, kept_same, kept-acquiring, kept-arm_against}
use logos_protocol.Consumer.Pending.Kept.{tally, kept, kept_same, kept-acquiring, kept-arm_against}
use logos_protocol.Consumer.Pending.KeptSteps.{
  kept-chase, kept-tick, kept-reconnected, kept-rearm, kept-cancel, kept-add_entry,
}

-- The commands that take a subscription away: its cancellation, and an answer of the transport that
-- an object is out of reach for good.
abbrev pub loses : ℕ → Command → Bool
loses id (cancels j) = j == id
loses id (answers name none) = true
loses id _ = false

kept-perform :
    (id : ℕ) (w : World) (c : Command) (p : Subscriptions)
    → loses id c ≡ false
    → kept id p ≤ kept id (perform w c p).0
unfolding perform set_status_callback set_restart_policy answered add
kept-perform id w (adds name event callback on_armed readiness_only) p h = omega (
  arith,
  kept-add_entry id w name event callback on_armed readiness_only p,
  kept-chase id w name (add_entry w name event callback on_armed readiness_only p),
)
kept-perform id w (cancels j) p h = omega (arith, kept-cancel id j p (λ e. ground arith))
kept-perform id w (sets_status name cb) p h = omega (arith, kept_same id p _ refl refl refl)
kept-perform id w (sets_policy name policy) p h = omega (arith, kept_same id p _ refl refl refl)
kept-perform id w (rearms name) p h = omega (arith, kept-rearm id w name p)
kept-perform id w (answers name none) p h = cc
kept-perform id w (answers name (some obj)) p h = omega (
  arith,
  kept-arm_against id w name obj (record p { acquiring = exclude name p.acquiring }),
  kept-acquiring id p (exclude name p.acquiring),
)
kept-perform id w ticks p h = omega (arith, kept-tick id w p)
kept-perform id w reconnects p h = omega (arith, kept-reconnected id w p)

kept-perform_all :
    (id : ℕ) (cs : List (World × Command)) (p : Subscriptions)
    → All (λ (c : World × Command). loses id c.1 ≡ false) cs
    → kept id p ≤ kept id (perform_all cs p).0
unfolding perform_all
kept-perform_all id [] p h = omega arith
kept-perform_all id ((w, c) ∷ cs) p h =
    omega (arith, kept-perform id w c p h.0, kept-perform_all id cs (perform w c p).0 h.1)

has_id_of_tally : (id : ℕ) (es : List Entry) → 0 < tally id es → has_id id es ≡ true
unfolding tally has_id
has_id_of_tally id [] h = absurd (omega arith)
has_id_of_tally id (e ∷ es) h = ground (arith, has_id_of_tally id es)

state-ne-unknown : (id : ℕ) (p : Subscriptions) → 0 < kept id p → state id p ≢ unknown
unfolding state kept
state-ne-unknown id p h = ground (
  arith,
  has_id_of_tally id p.entries,
  has_id_of_tally id p.armed_entries,
  has_id_of_tally id p.held_entries,
)

added_one : (id : ℕ) → ◌≡◌ {A = ℕ} (if (id == id) && not false then 1 else 0) 1
added_one id = ground arith

-- A subscription to an event that was added is pending, armed or held after every history in which it was not
-- cancelled and the transport gave up on no object: deaths of the module, reconnections, policies,
-- rearming and the subscriptions of others never lose it.
pub add_survives :
    (w : World) (name event : Text) (callback : ℕ) (on_armed : Option ℕ) (p : Subscriptions)
    (cs : List (World × Command))
    → All (λ (c : World × Command). loses p.next_id c.1 ≡ false) cs
    → state p.next_id (perform_all cs (add w name event callback on_armed false p).0).0 ≢ unknown
unfolding add
add_survives w name event callback on_armed p cs h =
    let added : Subscriptions = add_entry w name event callback on_armed false p in
    state-ne-unknown p.next_id _ (
      omega (
        arith,
        kept-add_entry p.next_id w name event callback on_armed false p,
        added_one p.next_id,
        kept-chase p.next_id w name added,
        kept-perform_all p.next_id cs (chase w name added).0 h,
      ))
