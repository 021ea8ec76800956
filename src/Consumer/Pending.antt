-- ===== src/Consumer/Pending.antt =====
-- Event subscriptions that wait for their module, and what happens to them when it dies
-- (`LogosPendingSubscriptions` of cpp/logos_api_consumer.cpp).
--
-- Handles and closures are numbers that name them. What the transport answers, which handles are
-- valid and the time are the `World` of a call. A callback is an effect: what it does to the
-- subscriptions in its turn is a later operation. The order in which a `QHash` or `QSet` is visited
-- is that of its list. Messages to the log are left out.
pub mod Operations
pub mod Requests
pub mod RequestSteps
pub mod Taken
pub mod Liveness
pub mod Watched
pub mod WatchedSteps
pub mod Kept
pub mod KeptSteps
pub mod Survives
use logos_protocol.Base.{
  ℕ, ◌+◌, ◌-◌, ◌*◌, ◌%◌, ◌^◌, ◌≡◌, Bool, true, false, not, ◌&&◌, ◌||◌, Option, none, some, List, [],
  ◌∷◌, ◌++◌, map, any_of, Text, codes, text_eq, text_key, lookup, put, erase, contains, include,
  exclude, ltb, leb, ◌==◌, if◌then◌else◌,
}

pub data RestartPolicy : Type 0 where
  automatic manual : RestartPolicy

pub data SubscriptionEvent : Type 0 where
  became_armed became_held was_lost was_abandoned : SubscriptionEvent

pub data SubscriptionState : Type 0 where
  pending armed held unknown : SubscriptionState

pub record Entry : Type 0 where
  pub id : ℕ
  pub object_name : Text
  pub event_name : Text
  pub callback : ℕ
  pub on_armed : Option ℕ
  pub ever_armed : Bool
  pub since : ℕ
  pub warn_level : ℕ
  pub readiness_only : Bool

pub record Target : Type 0 where
  pub restart : RestartPolicy
  pub generation : ℕ
  pub on_status : Option ℕ

-- `m_timer`: not made yet, stopped, or running.
pub data Timer : Type 0 where
  absent stopped running : Timer

pub record Subscriptions : Type 0 where
  pub entries : List Entry
  pub armed_entries : List Entry
  pub held_entries : List Entry
  pub acquiring : List Text
  pub targets : List (Text × Target)
  pub handles : List (Text × ℕ)
  pub timer : Timer
  pub interval_ms : ℕ
  pub next_id : ℕ

-- What the transport is and answers: whether it can acquire later, `tryAcquireNow`, whether
-- `requestObjectWhenAvailable` takes the request, and `requestObject`.
pub record World : Type 0 where
  pub now : ℕ
  pub supports_async : Bool
  pub try_acquire_now : Text → Option ℕ
  pub accepts : Text → Bool
  pub request_object : Text → Option ℕ
  pub is_valid : ℕ → Bool

-- `asks` is a call of `requestObjectWhenAvailable`, with whether the transport took the request.
pub data Effect : Type 0 where
  asks : Text → Bool → Effect
  call_on_armed : ℕ → Bool → Effect
  listen : ℕ → Text → ℕ → Effect
  release : ℕ → Effect
  call_status : ℕ → SubscriptionEvent → ℕ → Text → Effect

-- The state after a call, and its effects in order.
abbrev pub Run : Type 0
Run = Subscriptions × List Effect

infixl 5 ◌>>>◌
abbrev pub ◌>>>◌ : Run → (Subscriptions → Run) → Run
r >>> f = ((f r.0).0, r.1 ++ (f r.0).1)

abbrev pub initial : Subscriptions
initial = record {
  entries = [];
  armed_entries = [];
  held_entries = [];
  acquiring = [];
  targets = [];
  handles = [];
  timer = absent;
  interval_ms = 250;
  next_id = 1;
}

abbrev pub new_target : Target
new_target = record { restart = automatic; generation = 0; on_status = none }

abbrev pub or_new : Option Target → Target
or_new none = new_target
or_new (some t) = t

-- `m_targets.value(name)`
unfoldable pub target_of : Text → Subscriptions → Target
target_of name p = or_new (lookup name p.targets)

abbrev pub is_manual : RestartPolicy → Bool
is_manual automatic = false
is_manual manual = true

-- The entries of an object, and the others.
unfoldable pub of_object : Text → List Entry → List Entry
of_object name [] = []
of_object name (e ∷ es) =
    let rest = of_object name es in if text_eq e.object_name name then e ∷ rest else rest

unfoldable pub not_of_object : Text → List Entry → List Entry
not_of_object name [] = []
not_of_object name (e ∷ es) =
    let rest = not_of_object name es in if text_eq e.object_name name then rest else e ∷ rest

unfoldable pub has_for : Text → List Entry → Bool
has_for name es = any_of (λ (e : Entry). text_eq e.object_name name) es

abbrev pub is_nil {ℓ} : {A : Type ℓ} → List A → Bool
is_nil [] = true
is_nil (x ∷ xs) = false

unfoldable pub timer_needed : Subscriptions → Bool
timer_needed p = not (is_nil p.entries) || not (is_nil p.armed_entries)

unfoldable pub ensure_timer : Subscriptions → Subscriptions
ensure_timer p = if timer_needed p then record p { timer = running; interval_ms = 250 } else p

abbrev pub halted : Timer → Timer
halted absent = absent
halted _ = stopped

unfoldable pub stop_timer_if_idle : Subscriptions → Subscriptions
stop_timer_if_idle p = if timer_needed p then p else record p { timer = halted p.timer }

-- `takeMatching`: what it leaves; what it returns is `of_object name p.entries`.
unfoldable pub take_matching : Text → Subscriptions → Subscriptions
take_matching name p = stop_timer_if_idle (record p { entries = not_of_object name p.entries })

-- `reportTarget`
abbrev pub status_effect : Option ℕ → SubscriptionEvent → ℕ → Text → List Effect
status_effect none event generation reason = []
status_effect (some f) event generation reason = call_status f event generation reason ∷ []

unfoldable pub report_target : Text → SubscriptionEvent → Text → Subscriptions → List Effect
report_target name event reason p =
    status_effect (target_of name p).on_status event (target_of name p).generation reason

unfoldable pub restarted : World → List Entry → List Entry
restarted w es = map (λ (e : Entry). record e { since = w.now }) es

-- `reviveArmed`
unfoldable pub revive_armed : World → Text → Subscriptions → Subscriptions
revive_armed w name p = record p {
  entries = p.entries ++ restarted w (of_object name p.armed_entries);
  armed_entries = not_of_object name p.armed_entries;
}

-- `holdArmed`
unfoldable pub hold_armed : Text → Subscriptions → Subscriptions
hold_armed name p =
    if is_manual (target_of name p).restart
    then record p {
      held_entries = p.held_entries ++ of_object name p.armed_entries;
      armed_entries = not_of_object name p.armed_entries;
    }
    else p

-- The handle that an object is armed against: the one that is held, if it is the same or still
-- valid, or the new one.
abbrev pub keeps_handle : World → ℕ → ℕ → Bool
keeps_handle w obj handle = (handle == obj) || w.is_valid handle

abbrev pub surplus : ℕ → ℕ → List Effect
surplus obj handle = if handle == obj then [] else release obj ∷ []

unfoldable pub settle_handle : World → Text → ℕ → Subscriptions → ℕ × Run
settle_handle w name obj p = elim (lookup name p.handles) [
  | none ↦ (obj, (record p { handles = put name obj p.handles }, []))
  | some handle ↦
      if keeps_handle w obj handle
      then (handle, (p, surplus obj handle))
      else let revived = revive_armed w name p in
        (obj, (record revived { handles = put name obj p.handles }, release handle ∷ []))
]

abbrev pub armed_effect : Option ℕ → Bool → List Effect
armed_effect none b = []
armed_effect (some f) b = call_on_armed f b ∷ []

-- The callbacks of the matched entries.
unfoldable pub arm_effects : ℕ → List Entry → List Effect
arm_effects handle [] = []
arm_effects handle (e ∷ es) =
    (if e.readiness_only
      then armed_effect e.on_armed true
      else listen handle e.event_name e.callback ∷ armed_effect e.on_armed true)
    ++ arm_effects handle es

-- The matched entries that stay, as armed ones.
unfoldable pub now_armed : List Entry → List Entry
now_armed [] = []
now_armed (e ∷ es) =
    let rest = now_armed es in
    if e.readiness_only then rest else record e { ever_armed = true } ∷ rest

unfoldable pub bump_generation : Text → Subscriptions → Subscriptions
bump_generation name p =
    let t = target_of name p in
    record p {
      targets = put name (record t { generation = (t.generation + 1) % 2 ^ 64 }) p.targets;
    }

-- What `armAgainst` does with the entries that it has matched.
unfoldable pub arm_matched : Text → ℕ → List Entry → Subscriptions → Run
arm_matched name handle matched p =
    let any_real = not (is_nil (now_armed matched)) in
    let bumped = if any_real then bump_generation name p else p in
    let after = record bumped { armed_entries = bumped.armed_entries ++ now_armed matched } in
    (
      ensure_timer after,
      arm_effects handle matched
          ++ (if any_real then report_target name became_armed [] after else []),
    )

-- `armAgainst`
unfoldable pub arm_against : World → Text → ℕ → Subscriptions → Run
arm_against w name obj p =
    let (handle, settled) = settle_handle w name obj p in
    settled >>> λ q. arm_matched name handle (of_object name q.entries) (take_matching name q)
