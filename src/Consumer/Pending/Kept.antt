-- ===== src/Consumer/Pending/Kept.antt =====
-- Which operations lose a subscription, and what becomes of those that a manual policy holds
-- (`LogosPendingSubscriptions` of cpp/logos_api_consumer.cpp).
use logos_protocol.Base.{
  ℕ, ◌+◌, ◌≡◌, refl, not, ◌&&◌, List, [], ◌∷◌, ◌++◌, map, Text, text_key, ◌==◌, if◌then◌else◌,
  arith,
}
use logos_protocol.Consumer.Pending.{
  Entry, Subscriptions, World, of_object, not_of_object, restarted, revive_armed, hold_armed,
  now_armed, bump_generation, ensure_timer, stop_timer_if_idle, take_matching, arm_against,
  arm_matched, settle_handle,
}
use logos_protocol.Consumer.Pending.Operations.{attempt_acquire, begin_acquire, to_hold, to_revive}
use logos_protocol.Consumer.Pending.Liveness.{warn}

-- How many event subscriptions with the id are in a list, readiness requests not counted.
unfoldable pub tally : ℕ → List Entry → ℕ
tally id [] = 0
tally id (e ∷ es) =
    let rest = tally id es in if (e.id == id) && not e.readiness_only then 1 + rest else rest

-- How many are pending, armed or held.
unfoldable pub kept : ℕ → Subscriptions → ℕ
kept id p = tally id p.entries + tally id p.armed_entries + tally id p.held_entries

pub tally-append : (id : ℕ) (xs ys : List Entry) → tally id (xs ++ ys) ≡ tally id xs + tally id ys
unfolding tally
tally-append id [] ys = omega arith
tally-append id (e ∷ xs) ys = ground (arith, tally-append id xs ys)

pub tally_nil : (id : ℕ) → tally id [] ≡ 0
unfolding tally
tally_nil id = refl

pub tally_split :
    (id : ℕ) (name : Text) (es : List Entry)
    → tally id (of_object name es) + tally id (not_of_object name es) ≡ tally id es
unfolding tally of_object not_of_object
tally_split id name [] = omega arith
tally_split id name (e ∷ es) = ground (arith, tally_split id name es)

pub tally-restarted :
    (id : ℕ) (w : World) (es : List Entry) → tally id (restarted w es) ≡ tally id es
unfolding tally restarted
tally-restarted id w [] = refl
tally-restarted id w (e ∷ es) = ground (arith, tally-restarted id w es)

pub tally-now_armed : (id : ℕ) (es : List Entry) → tally id (now_armed es) ≡ tally id es
unfolding tally now_armed
tally-now_armed id [] = refl
tally-now_armed id (e ∷ es) = ground (arith, tally-now_armed id es)

pub tally-warn : (id : ℕ) (w : World) (es : List Entry) → tally id (map (warn w) es) ≡ tally id es
unfolding tally warn
tally-warn id w [] = refl
tally-warn id w (e ∷ es) = ground (arith, tally-warn id w es)

pub tally-reset :
    (id now : ℕ) (es : List Entry)
    → tally id (map (λ (e : Entry). record e { since = now; warn_level = 0 }) es) ≡ tally id es
unfolding tally
tally-reset id now [] = refl
tally-reset id now (e ∷ es) = ground (arith, tally-reset id now es)

pub tally_hold :
    (id : ℕ) (w : World) (p : Subscriptions) (es : List Entry)
    → tally id (to_hold p es) + tally id (to_revive w p es) ≡ tally id es
unfolding tally to_hold to_revive
tally_hold id w p [] = omega arith
tally_hold id w p (e ∷ es) = ground (arith, tally_hold id w p es)

pub kept-ensure_timer : (id : ℕ) (p : Subscriptions) → kept id (ensure_timer p) ≡ kept id p
unfolding kept ensure_timer
kept-ensure_timer id p = ground arith

pub kept-stop_timer_if_idle :
    (id : ℕ) (p : Subscriptions) → kept id (stop_timer_if_idle p) ≡ kept id p
unfolding kept stop_timer_if_idle
kept-stop_timer_if_idle id p = ground arith

pub kept-revive_armed :
    (id : ℕ) (w : World) (name : Text) (p : Subscriptions)
    → kept id (revive_armed w name p) ≡ kept id p
unfolding kept revive_armed
kept-revive_armed id w name p = omega (
  arith,
  tally-append id p.entries (restarted w (of_object name p.armed_entries)),
  tally-restarted id w (of_object name p.armed_entries),
  tally_split id name p.armed_entries,
)

pub kept-hold_armed :
    (id : ℕ) (name : Text) (p : Subscriptions) → kept id (hold_armed name p) ≡ kept id p
unfolding kept hold_armed
kept-hold_armed id name p = ground (
  arith,
  tally-append id p.held_entries (of_object name p.armed_entries),
  tally_split id name p.armed_entries,
)

pub kept-settle_handle :
    (id : ℕ) (w : World) (name : Text) (obj : ℕ) (p : Subscriptions)
    → kept id (settle_handle w name obj p).1.0 ≡ kept id p
unfolding settle_handle kept
kept-settle_handle id w name obj p = ground (arith, kept-revive_armed id w name p)

pub kept-arm_matched :
    (id : ℕ) (name : Text) (handle : ℕ) (matched : List Entry) (p : Subscriptions)
    → kept id (arm_matched name handle matched p).0 ≡ kept id p + tally id matched
unfolding arm_matched kept ensure_timer bump_generation
kept-arm_matched id name handle matched p =
    ground (arith, tally-append id p.armed_entries (now_armed matched), tally-now_armed id matched)

pub kept_left :
    (id : ℕ) (name : Text) (p : Subscriptions)
    → kept id (record p { entries = not_of_object name p.entries })
        + tally id (of_object name p.entries)
      ≡ kept id p
unfolding kept
kept_left id name p = omega (arith, tally_split id name p.entries)

-- The three lists are all that counts.
pub kept_same :
    (id : ℕ) (p q : Subscriptions)
    → q.entries ≡ p.entries
    → q.armed_entries ≡ p.armed_entries
    → q.held_entries ≡ p.held_entries
    → kept id q ≡ kept id p
unfolding kept
kept_same id p q a b c = ground (arith, a, b, c)

pub kept-acquiring :
    (id : ℕ) (p : Subscriptions) (acquiring : List Text)
    → kept id (record p { acquiring = acquiring }) ≡ kept id p
unfolding kept
kept-acquiring id p acquiring = refl

pub kept_warned :
    (id : ℕ) (w : World) (p : Subscriptions)
    → kept id (record p { entries = map (warn w) p.entries }) ≡ kept id p
unfolding kept
kept_warned id w p = omega (arith, tally-warn id w p.entries)

pub kept-take_matching :
    (id : ℕ) (name : Text) (p : Subscriptions)
    → kept id (take_matching name p) + tally id (of_object name p.entries) ≡ kept id p
unfolding take_matching
kept-take_matching id name p =
    let left : Subscriptions = record p { entries = not_of_object name p.entries } in
    omega (arith, kept-stop_timer_if_idle id left, kept_left id name p)

pub kept-arm_against :
    (id : ℕ) (w : World) (name : Text) (obj : ℕ) (p : Subscriptions)
    → kept id (arm_against w name obj p).0 ≡ kept id p
unfolding arm_against
kept-arm_against id w name obj p =
    let q : Subscriptions = (settle_handle w name obj p).1.0 in
    omega (
      arith,
      kept-settle_handle id w name obj p,
      kept-take_matching id name q,
      kept-arm_matched id name (settle_handle w name obj p).0 (of_object name q.entries)
          (take_matching name q),
    )

pub kept-attempt_acquire :
    (id : ℕ) (w : World) (name : Text) (p : Subscriptions)
    → kept id (attempt_acquire w name p).1.0 ≡ kept id p
unfolding attempt_acquire
kept-attempt_acquire id w name p = grind (arith, kept-arm_against, kept-acquiring id)

pub kept-begin_acquire :
    (id : ℕ) (w : World) (name : Text) (p : Subscriptions)
    → kept id (begin_acquire w name p).1.0 ≡ kept id p
unfolding begin_acquire
kept-begin_acquire id w name p = grind (arith, kept-arm_against, kept-attempt_acquire)
