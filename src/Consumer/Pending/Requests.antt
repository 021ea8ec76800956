-- ===== src/Consumer/Pending/Requests.antt =====
-- The requests that the transport has taken and not answered, by the calls that were made to it
-- (`LogosPendingSubscriptions` of cpp/logos_api_consumer.cpp).
use logos_protocol.Base.{
  ℕ, codes, not, ◌≡◌, refl, sym, ap, ◌∙◌, Bool, true, false, ◌&&◌, ◌||◌, List, [], ◌∷◌, ◌++◌, Text,
  text_eq, text_key, contains, include, contains-include_ne, lookup, arith, Bool-cases,
  Option-cases, inl, inr,
}
use logos_protocol.Consumer.Pending.{
  became_held, Entry, Subscriptions, World, Effect, asks, release, Run, call_on_armed, listen,
  call_status, ensure_timer, stop_timer_if_idle, take_matching, revive_armed, keeps_handle,
  settle_handle, bump_generation, arm_matched, arm_against,
}
use logos_protocol.Consumer.Pending.Operations.{
  attempt_acquire, begin_acquire, acquire_one, report_one,
}

-- Among the effects is a request for the object, which the transport took.
unfoldable pub asked : Text → List Effect → Bool
asked x [] = false
asked x (asks name taken ∷ es) = (text_eq name x && taken) || asked x es
asked x (call_on_armed f b ∷ es) = asked x es
asked x (listen h e f ∷ es) = asked x es
asked x (release h ∷ es) = asked x es
asked x (call_status f s g r ∷ es) = asked x es

asked-append : (x : Text) (es fs : List Effect) → asked x (es ++ fs) ≡ asked x es || asked x fs
unfolding asked
asked-append x [] fs = refl
asked-append x (asks name taken ∷ es) fs = ground (arith, asked-append x es fs)
asked-append x (call_on_armed f b ∷ es) fs = asked-append x es fs
asked-append x (listen h e f ∷ es) fs = asked-append x es fs
asked-append x (release h ∷ es) fs = asked-append x es fs
asked-append x (call_status f s g r ∷ es) fs = asked-append x es fs

-- What a step acquires was being acquired before, or the step asked for it.
abbrev pub Accounted : Text → Subscriptions → Run → Type 0
Accounted x p r = contains x r.0.acquiring ≡ true → contains x p.acquiring || asked x r.1 ≡ true

pub same-Accounted :
    (x : Text) (p q : Subscriptions) (es : List Effect)
    → (contains x q.acquiring ≡ true → contains x p.acquiring ≡ true)
    → Accounted x p (q, es)
same-Accounted x p q es f h = ground (arith, f h)

pub then-Accounted :
    (x : Text) (p : Subscriptions) (r s : Run)
    → Accounted x p r
    → Accounted x r.0 s
    → Accounted x p (s.0, r.1 ++ s.1)
then-Accounted x p r s f g h = ground (arith, asked-append x r.1 s.1, f, g h)

pub ensure_timer-acquiring : (p : Subscriptions) → (ensure_timer p).acquiring ≡ p.acquiring
unfolding ensure_timer
ensure_timer-acquiring p = ground arith

pub stop_timer_if_idle-acquiring :
    (p : Subscriptions) → (stop_timer_if_idle p).acquiring ≡ p.acquiring
unfolding stop_timer_if_idle
stop_timer_if_idle-acquiring p = ground arith

settle_handle-acquiring :
    (w : World) (name : Text) (obj : ℕ) (p : Subscriptions)
    → (settle_handle w name obj p).1.0.acquiring ≡ p.acquiring
unfolding settle_handle revive_armed
settle_handle-acquiring w name obj p = elim (Option-cases (lookup name p.handles)) [
  | inl e ↦ rw (settle_handle, e) refl
  | inr (handle, e) ↦ elim (Bool-cases (keeps_handle w obj handle)) [
    | inl k ↦ rw (settle_handle, e, k) refl
    | inr k ↦ rw (settle_handle, e, k) refl
  ]
]

arm_matched-acquiring :
    (name : Text) (handle : ℕ) (matched : List Entry) (p : Subscriptions)
    → (arm_matched name handle matched p).0.acquiring ≡ p.acquiring
unfolding arm_matched bump_generation
arm_matched-acquiring name handle matched p = ensure_timer-acquiring _ ∙ ground arith

pub arm_against-acquiring :
    (w : World) (name : Text) (obj : ℕ) (p : Subscriptions)
    → (arm_against w name obj p).0.acquiring ≡ p.acquiring
unfolding arm_against take_matching
arm_against-acquiring w name obj p =
    arm_matched-acquiring name _ _ _
    ∙ stop_timer_if_idle-acquiring _
    ∙ settle_handle-acquiring w name obj p

pub arm_against-Accounted :
    (x : Text) (w : World) (name : Text) (obj : ℕ) (p : Subscriptions)
    → Accounted x p (arm_against w name obj p)
arm_against-Accounted x w name obj p =
    same-Accounted x p (arm_against w name obj p).0 (arm_against w name obj p).1
      (λ h. sym (ap (contains x) (arm_against-acquiring w name obj p)) ∙ h)

-- A request that the transport takes is recorded, and so is no other.
taken-Accounted :
    (x name : Text) (p : Subscriptions)
    → Accounted x p (record p { acquiring = include name p.acquiring }, asks name true ∷ [])
unfolding asked
taken-Accounted x name p h = ground (arith, h, contains-include_ne x name p.acquiring)

attempt_acquire-Accounted :
    (x : Text) (w : World) (name : Text) (p : Subscriptions)
    → Accounted x p (attempt_acquire w name p).1
unfolding attempt_acquire
attempt_acquire-Accounted x w name p = elim (Bool-cases w.supports_async) [
  | inl s ↦ elim (Bool-cases (contains name p.acquiring)) [
    | inl c ↦ rw (attempt_acquire, s, c) (same-Accounted x p p [] (λ h. h))
    | inr c ↦ elim (Bool-cases (w.accepts name)) [
      | inl a ↦ rw (attempt_acquire, s, c, a) (taken-Accounted x name p)
      | inr a ↦ rw (attempt_acquire, s, c, a) (same-Accounted x p p (asks name false ∷ []) (λ h. h))
    ]
  ]
  | inr s ↦ elim (Option-cases (w.request_object name)) [
    | inl e ↦ rw (attempt_acquire, s, e) (same-Accounted x p p [] (λ h. h))
    | inr (obj, e) ↦ rw (attempt_acquire, s, e) (arm_against-Accounted x w name obj p)
  ]
]

pub begin_acquire-Accounted :
    (x : Text) (w : World) (name : Text) (p : Subscriptions)
    → Accounted x p (begin_acquire w name p).1
unfolding begin_acquire
begin_acquire-Accounted x w name p =
    elim (Bool-cases (w.supports_async && not (contains name p.acquiring))) [
      | inl s ↦ elim (Option-cases (w.try_acquire_now name)) [
        | inl e ↦ rw (begin_acquire, s, e) (attempt_acquire-Accounted x w name p)
        | inr (obj, e) ↦ rw (begin_acquire, s, e) (arm_against-Accounted x w name obj p)
      ]
      | inr s ↦ rw (begin_acquire, s) (attempt_acquire-Accounted x w name p)
    ]

pub acquire_one-Accounted :
    (x : Text) (w : World) (name : Text) (p : Subscriptions) → Accounted x p (acquire_one w name p)
unfolding acquire_one
acquire_one-Accounted x w name p = begin_acquire-Accounted x w name p

pub report_one-Accounted :
    (x : Text) (name : Text) (p : Subscriptions)
    → Accounted x p (report_one became_held (codes "connection_reset") name p)
unfolding report_one
report_one-Accounted x name p = same-Accounted x p p _ (λ h. h)
