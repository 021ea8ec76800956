-- ===== src/Consumer/Pending/Watched.antt =====
-- Whether a pending subscription can be left with nothing that looks after it
-- (`LogosPendingSubscriptions` of cpp/logos_api_consumer.cpp).
use logos_protocol.Base.{
  ℕ, ◌≡◌, refl, Bool, true, false, not, ◌&&◌, ◌||◌, List, [], ◌∷◌, map, any_of, Text, text_eq,
  text_eq_iff, text_key, contains, include, exclude, arith, contains-include,
}
use logos_protocol.Consumer.Pending.{
  Entry, Timer, running, Subscriptions, World, not_of_object, is_nil, timer_needed, ensure_timer,
  stop_timer_if_idle, arm_against, arm_matched,
}
use logos_protocol.Consumer.Pending.Operations.{remove_id}
use logos_protocol.Consumer.Pending.Liveness.{warn, worth_polling}

-- Some entry waits for an object that is not being acquired.
unfoldable pub stray : List Text → List Entry → Bool
stray acquiring es = any_of (λ (e : Entry). not (contains e.object_name acquiring)) es

abbrev pub is_running : Timer → Bool
is_running running = true
is_running _ = false

unfoldable pub watched : Subscriptions → Bool
watched p = is_running p.timer || (is_nil p.armed_entries && not (stray p.acquiring p.entries))

pub ensure_timer-watched : (p : Subscriptions) → watched (ensure_timer p) ≡ true
unfolding watched ensure_timer timer_needed stray
ensure_timer-watched p = ground arith

pub stray-not_of_object :
    (name : Text) (acquiring : List Text) (es : List Entry)
    → stray acquiring es ≡ false
    → stray acquiring (not_of_object name es) ≡ false
unfolding stray not_of_object
stray-not_of_object name acquiring [] h = refl
stray-not_of_object name acquiring (e ∷ es) h =
    ground (arith, stray-not_of_object name acquiring es)

pub stray-include :
    (name : Text) (acquiring : List Text) (es : List Entry)
    → stray acquiring es ≡ false
    → stray (include name acquiring) es ≡ false
unfolding stray
stray-include name acquiring [] h = refl
stray-include name acquiring (e ∷ es) h =
    ground (arith, stray-include name acquiring es, contains-include e.object_name name acquiring)

pub contains-exclude :
    (x y : Text) (xs : List Text)
    → text_eq x y ≡ false
    → contains x xs ≡ true
    → contains x (exclude y xs) ≡ true
unfolding contains exclude
contains-exclude x y [] n h = h
contains-exclude x y (z ∷ zs) n h =
    ground (arith, contains-exclude x y zs n, text_eq_iff z x, text_eq_iff z y, text_eq_iff x y, h)

pub stray-exclude :
    (name : Text) (acquiring : List Text) (es : List Entry)
    → stray acquiring es ≡ false
    → stray (exclude name acquiring) (not_of_object name es) ≡ false
unfolding stray not_of_object
stray-exclude name acquiring [] h = refl
stray-exclude name acquiring (e ∷ es) h =
    ground (arith, stray-exclude name acquiring es, contains-exclude e.object_name name acquiring)

pub stray-remove_id :
    (id : ℕ) (acquiring : List Text) (es : List Entry)
    → stray acquiring es ≡ false
    → stray acquiring (remove_id id es) ≡ false
unfolding stray remove_id
stray-remove_id id acquiring [] h = refl
stray-remove_id id acquiring (e ∷ es) h = ground (arith, stray-remove_id id acquiring es)

pub warn-object_name : (w : World) (e : Entry) → (warn w e).object_name ≡ e.object_name
unfolding warn
warn-object_name w e = ground arith

pub stray-warn :
    (w : World) (acquiring : List Text) (es : List Entry)
    → stray acquiring (map (warn w) es) ≡ stray acquiring es
unfolding stray
stray-warn w acquiring [] = refl
stray-warn w acquiring (e ∷ es) = ground (arith, stray-warn w acquiring es, warn-object_name w e)

pub stray_of_worth_polling :
    (acquiring : List Text) (es : List Entry)
    → worth_polling acquiring es ≡ false
    → stray acquiring es ≡ false
unfolding stray worth_polling
stray_of_worth_polling acquiring [] h = refl
stray_of_worth_polling acquiring (e ∷ es) h = ground (arith, stray_of_worth_polling acquiring es)

pub stop_timer_if_idle-watched :
    (p : Subscriptions) → watched p ≡ true → watched (stop_timer_if_idle p) ≡ true
unfolding watched stop_timer_if_idle timer_needed stray
stop_timer_if_idle-watched p h = ground arith

pub arm_matched-watched :
    (name : Text) (handle : ℕ) (matched : List Entry) (p : Subscriptions)
    → watched (arm_matched name handle matched p).0 ≡ true
unfolding arm_matched
arm_matched-watched name handle matched p = ensure_timer-watched _

pub arm_against-watched :
    (w : World) (name : Text) (obj : ℕ) (p : Subscriptions)
    → watched (arm_against w name obj p).0 ≡ true
unfolding arm_against
arm_against-watched w name obj p = arm_matched-watched name _ _ _

pub acquiring-watched :
    (name : Text) (p : Subscriptions)
    → watched p ≡ true
    → watched (record p { acquiring = include name p.acquiring }) ≡ true
unfolding watched
acquiring-watched name p h = ground (arith, stray-include name p.acquiring p.entries)
