-- ===== src/Consumer/Pending/Operations.antt =====
-- The operations of `LogosPendingSubscriptions` (cpp/logos_api_consumer.cpp), and histories of them.
use logos_protocol.Base.{
  ℕ, ◌+◌, ◌%◌, ◌^◌, Bool, true, false, not, ◌&&◌, Option, none, some, List, [], ◌∷◌, ◌++◌, map,
  any_of, Text, codes, text_key, lookup, put, contains, include, ◌==◌, if◌then◌else◌,
}
use logos_protocol.Consumer.Pending.{
  RestartPolicy, SubscriptionEvent, became_armed, became_held, SubscriptionState, pending, armed,
  held, unknown, Entry, Subscriptions, World, Effect, asks, release, Run, ◌>>>◌, target_of,
  is_manual, of_object, not_of_object, has_for, ensure_timer, stop_timer_if_idle, report_target,
  arm_against,
}

-- `beginAcquire` once there is no object at hand: ask the transport to call back, or, where it
-- cannot, ask for the object now.
unfoldable pub attempt_acquire : World → Text → Subscriptions → Bool × Run
attempt_acquire w name p =
    if w.supports_async
    then (if contains name p.acquiring
        then (false, (p, []))
        else if w.accepts name
        then (false, (record p { acquiring = include name p.acquiring }, asks name true ∷ []))
        else (false, (p, asks name false ∷ [])))
    else elim (w.request_object name) [
      | none ↦ (false, (p, []))
      | some obj ↦ (true, arm_against w name obj p)
    ]

-- `beginAcquire`: whether it armed, and the state after it.
unfoldable pub begin_acquire : World → Text → Subscriptions → Bool × Run
begin_acquire w name p =
    if w.supports_async && not (contains name p.acquiring)
    then elim (w.try_acquire_now name) [
      | none ↦ attempt_acquire w name p
      | some obj ↦ (true, arm_against w name obj p)
    ]
    else attempt_acquire w name p

-- `liveHandle`
unfoldable pub live_handle : World → Text → Subscriptions → Option ℕ
live_handle w name p = elim (lookup name p.handles) [
  | none ↦ none
  | some handle ↦ if w.is_valid handle then some handle else none
]

abbrev pub with_timer : Run → Run
with_timer r = (ensure_timer r.0, r.1)

unfoldable pub add_entry : World → Text → Text → ℕ → Option ℕ → Bool → Subscriptions → Subscriptions
add_entry w name event callback on_armed readiness_only p = record p {
  entries =
      p.entries
      ++ record {
        id = p.next_id;
        object_name = name;
        event_name = event;
        callback = callback;
        on_armed = on_armed;
        ever_armed = false;
        since = w.now;
        warn_level = 0;
        readiness_only = readiness_only;
      }
        ∷ [];
  next_id = (p.next_id + 1) % 2 ^ 64;
}

-- `add` behind its registration.
unfoldable pub chase : World → Text → Subscriptions → Run
chase w name p = elim (live_handle w name p) [
  | some obj ↦ arm_against w name obj p
  | none ↦ let (armed_now, r) = begin_acquire w name p in if armed_now then r else with_timer r
]

-- `add`; the id that it returns is `next_id` of the state before.
unfoldable pub add : World → Text → Text → ℕ → Option ℕ → Bool → Subscriptions → Run
add w name event callback on_armed readiness_only p =
    chase w name (add_entry w name event callback on_armed readiness_only p)

-- `remove(i)` at the first entry with the id.
unfoldable pub remove_id : ℕ → List Entry → List Entry
remove_id id [] = []
remove_id id (e ∷ es) = let rest = remove_id id es in if e.id == id then es else e ∷ rest

unfoldable pub has_id : ℕ → List Entry → Bool
has_id id es = any_of (λ (e : Entry). e.id == id) es

-- `cancel`
unfoldable pub cancel : ℕ → Subscriptions → Bool × Subscriptions
cancel id p =
    if has_id id p.entries
    then (true, stop_timer_if_idle (record p { entries = remove_id id p.entries }))
    else if has_id id p.armed_entries
    then (true, record p { armed_entries = remove_id id p.armed_entries })
    else if has_id id p.held_entries
    then (true, record p { held_entries = remove_id id p.held_entries })
    else (false, p)

-- `state`
unfoldable pub state : ℕ → Subscriptions → SubscriptionState
state id p =
    if has_id id p.entries
    then pending
    else if has_id id p.armed_entries
    then armed
    else if has_id id p.held_entries
    then held
    else unknown

-- `generation`
unfoldable pub generation_of : Text → Subscriptions → ℕ
generation_of name p = (target_of name p).generation

-- `setStatusCallback`
unfoldable pub set_status_callback : Text → Option ℕ → Subscriptions → Run
set_status_callback name cb p =
    let after = record p {
      targets = put name (record (target_of name p) { on_status = cb }) p.targets;
    } in
    (
      after,
      if has_for name p.armed_entries
          then report_target name became_armed [] after
          else if has_for name p.held_entries
          then report_target name became_held (codes "provider_unavailable") after
          else [],
    )

-- `setRestartPolicy`
unfoldable pub set_restart_policy : Text → RestartPolicy → Subscriptions → Subscriptions
set_restart_policy name policy p = record p {
  targets = put name (record (target_of name p) { restart = policy }) p.targets;
}

-- The held entries of an object, as they wait again.
unfoldable pub unheld : World → Text → List Entry → List Entry
unheld w name es =
    map (λ (e : Entry). record e { since = w.now; warn_level = 0 }) (of_object name es)

-- Arm against the object's live handle, or acquire it.
unfoldable pub acquire_again : World → Text → Subscriptions → Run
acquire_again w name p = elim (live_handle w name p) [
  | some obj ↦ arm_against w name obj p
  | none ↦ (begin_acquire w name p).1
]

-- `rearm`
unfoldable pub rearm : World → Text → Subscriptions → Bool × Run
rearm w name p =
    if has_for name p.held_entries
    then (let q : Subscriptions = record p {
      entries = p.entries ++ unheld w name p.held_entries;
      held_entries = not_of_object name p.held_entries;
    } in
        (true, with_timer (acquire_again w name q)))
    else (false, (p, []))

unfoldable pub release_all : List (Text × ℕ) → List Effect
release_all [] = []
release_all ((name, handle) ∷ hs) = release handle ∷ release_all hs

-- One operation for each name, in turn.
unfoldable pub for_each : (Text → Subscriptions → Run) → List Text → Subscriptions → Run
for_each f [] p = (p, [])
for_each f (name ∷ names) p = f name p >>> for_each f names

-- The entries of `reconnected` that a manual policy holds, and those that wait again.
unfoldable pub to_hold : Subscriptions → List Entry → List Entry
to_hold p [] = []
to_hold p (e ∷ es) =
    let rest = to_hold p es in
    if is_manual (target_of e.object_name p).restart then e ∷ rest else rest

unfoldable pub to_revive : World → Subscriptions → List Entry → List Entry
to_revive w p [] = []
to_revive w p (e ∷ es) =
    let rest = to_revive w p es in
    if is_manual (target_of e.object_name p).restart
    then rest
    else record e { since = w.now; warn_level = 0 } ∷ rest

-- The names of entries, each once.
unfoldable pub names_of : List Entry → List Text
names_of [] = []
names_of (e ∷ es) = include e.object_name (names_of es)

unfoldable pub acquire_one : World → Text → Subscriptions → Run
acquire_one w name p = (begin_acquire w name p).1

unfoldable pub report_one : SubscriptionEvent → Text → Text → Subscriptions → Run
report_one event reason name p = (p, report_target name event reason p)

-- `reconnected`
unfoldable pub reconnected : World → Subscriptions → Run
reconnected w p =
    let revive = p.armed_entries in
    let q = record p {
      handles = [];
      acquiring = [];
      armed_entries = [];
      held_entries = p.held_entries ++ to_hold p revive;
      entries = p.entries ++ to_revive w p revive;
    } in
    with_timer (
      (q, release_all p.handles)
      >>> for_each (report_one became_held (codes "connection_reset")) (names_of (to_hold p revive))
      >>> for_each (acquire_one w) (names_of (to_revive w p revive)))
