-- ===== src/Consumer/Pending/Liveness.antt =====
-- What the transport's late answers and the timer do to the subscriptions, and histories of
-- operations (`LogosPendingSubscriptions` of cpp/logos_api_consumer.cpp).
use logos_protocol.Base.{
  ℕ, ◌-◌, ◌*◌, Bool, true, false, not, ◌&&◌, ◌||◌, Option, none, some, List, [], ◌∷◌, ◌++◌, map,
  any_of, Text, codes, text_key, lookup, erase, contains, include, exclude, ltb, leb, ◌==◌,
  if◌then◌else◌,
}
use logos_protocol.Consumer.Pending.{
  RestartPolicy, SubscriptionEvent, became_held, was_lost, was_abandoned, Entry, absent, stopped,
  running, Subscriptions, World, Effect, release, Run, ◌>>>◌, target_of, is_manual, of_object,
  has_for, is_nil, timer_needed, take_matching, report_target, revive_armed, hold_armed,
  armed_effect, arm_against,
}
use logos_protocol.Consumer.Pending.Operations.{
  with_timer, add, cancel, set_status_callback, set_restart_policy, rearm, for_each, acquire_one,
  reconnected,
}

-- `abandon`
unfoldable pub abandon_effects : List Entry → List Effect
abandon_effects [] = []
abandon_effects (e ∷ es) = armed_effect e.on_armed false ++ abandon_effects es

unfoldable pub abandon : Text → Subscriptions → Run
abandon name p =
    let matched = of_object name p.entries in
    let after = take_matching name p in
    (
      after,
      abandon_effects matched
          ++ (if is_nil matched
              then []
              else report_target name was_abandoned (codes "object_unreachable") after),
    )

-- The transport's late answer to `requestObjectWhenAvailable`.
unfoldable pub answered : World → Text → Option ℕ → Subscriptions → Run
answered w name obj p =
    let q = record p { acquiring = exclude name p.acquiring } in
    elim obj [ none ↦ abandon name q | some handle ↦ arm_against w name handle q ]

-- The names whose handle is no longer valid.
unfoldable pub dead_names : World → List (Text × ℕ) → List Text
dead_names w [] = []
dead_names w ((name, handle) ∷ hs) =
    let rest = dead_names w hs in if w.is_valid handle then rest else name ∷ rest

abbrev pub released : Option ℕ → List Effect
released none = []
released (some handle) = release handle ∷ []

abbrev pub death_event : Bool → SubscriptionEvent
death_event true = became_held
death_event false = was_lost

-- The body of the loop of `checkLiveness` over the dead names.
unfoldable pub bury : World → Text → Subscriptions → Run
bury w name p =
    let is_held = is_manual (target_of name p).restart in
    let q = revive_armed w name (
      hold_armed name
        (record p { handles = erase name p.handles; acquiring = exclude name p.acquiring })) in
    (
      q,
      released (lookup name p.handles)
          ++ (if has_for name p.armed_entries
              then report_target name (death_event is_held) (codes "provider_unavailable") q
              else []),
    )
    >>> λ r. if has_for name r.entries then acquire_one w name r else (r, [])

-- `checkLiveness`
unfoldable pub check_liveness : World → Subscriptions → Run
check_liveness w p =
    if is_nil p.armed_entries
    then (p, [])
    else let dead = dead_names w p.handles in
      if is_nil dead then (p, []) else with_timer (for_each (bury w) dead p)

-- The names of the entries for which no acquire is under way.
unfoldable pub unwatched : List Text → List Entry → List Text
unwatched acquiring [] = []
unwatched acquiring (e ∷ es) =
    let rest = unwatched acquiring es in
    if contains e.object_name acquiring then rest else include e.object_name rest

-- `reportStillPending`
unfoldable pub warn : World → Entry → Entry
warn w e =
    let ms = w.now - e.since in
    if (e.warn_level == 0) && leb 3000 ms
    then record e { warn_level = 1 }
    else if (e.warn_level == 1) && leb 60000 ms
    then record e { warn_level = 2 }
    else e

-- Whether the loop of `rescheduleOrStop` finds an entry to keep polling for.
unfoldable pub worth_polling : List Text → List Entry → Bool
worth_polling acquiring es =
    any_of (λ (e : Entry). not (contains e.object_name acquiring) || ltb e.warn_level 2) es

abbrev pub min_ms : ℕ → ℕ → ℕ
min_ms a b = if ltb b a then b else a

-- `rescheduleOrStop`, with a timer that was made.
unfoldable pub reschedule : Subscriptions → Subscriptions
reschedule p =
    if timer_needed p
    then (if is_nil p.entries
        then record p { interval_ms = 1000; timer = running }
        else if worth_polling p.acquiring p.entries
        then (if ltb p.interval_ms 5000
            then record p { interval_ms = min_ms 5000 (p.interval_ms * 2); timer = running }
            else p)
        else if is_nil p.armed_entries
        then record p { timer = stopped }
        else record p { interval_ms = 1000; timer = running })
    else record p { timer = stopped }

unfoldable pub reschedule_or_stop : Subscriptions → Subscriptions
reschedule_or_stop p = elim p.timer [ absent ↦ p | stopped ↦ reschedule p | running ↦ reschedule p ]

-- `tick`
unfoldable pub tick : World → Subscriptions → Run
tick w p =
    check_liveness w p
    >>> (λ q. for_each (acquire_one w) (unwatched q.acquiring q.entries) q)
    >>> λ q. (reschedule_or_stop (record q { entries = map (warn w) q.entries }), [])

-- What a consumer's clients, its timer and its transport do with the subscriptions.
pub data Command : Type 0 where
  adds : Text → Text → ℕ → Option ℕ → Bool → Command
  cancels : ℕ → Command
  sets_status : Text → Option ℕ → Command
  sets_policy : Text → RestartPolicy → Command
  rearms : Text → Command
  answers : Text → Option ℕ → Command
  ticks : Command
  reconnects : Command

unfoldable pub perform : World → Command → Subscriptions → Run
perform w (adds name event callback on_armed readiness_only) p =
    add w name event callback on_armed readiness_only p
perform w (cancels id) p = ((cancel id p).1, [])
perform w (sets_status name cb) p = set_status_callback name cb p
perform w (sets_policy name policy) p = (set_restart_policy name policy p, [])
perform w (rearms name) p = (rearm w name p).1
perform w (answers name obj) p = answered w name obj p
perform w ticks p = tick w p
perform w reconnects p = reconnected w p

-- A history: each command with the world that it meets.
unfoldable pub perform_all : List (World × Command) → Subscriptions → Run
perform_all [] p = (p, [])
perform_all ((w, c) ∷ cs) p = perform w c p >>> perform_all cs
