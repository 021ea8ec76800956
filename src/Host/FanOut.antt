-- ===== src/Host/FanOut.antt =====
-- Which connections an event reaches (cpp/implementations/plain/plain_transport_host.cpp).
use logos_protocol.Base.{
  ℕ, ◌+◌, ◌≤◌, ◌≡◌, refl, sym, ap, subst, ◌∙◌, Bool, true, false, ◌||◌, some, List, [], ◌∷◌, ◌++◌,
  arith, Text, text_eq, text_eq_iff, text_key, text_discrete, nat_eq, lookup, put, erase, insert,
  keys, count, count-append, ltb, ◌==◌, if◌then◌else◌, lookup-put_self, inl, inr, ◌⊎◌, ite,
  count-keys-erase_self, lookup-insert_self, lookup_absent, Bool-cases,
}
use logos_protocol.Host.{
  Host, Events, or_nil, sinks_at, on_subscribe, keep, close_events, close_objects,
  on_connection_closed, gather, offered, fan_out_event,
}
use logos_protocol.Message.{SubscribeMessage, EventMessage}

-- One for a number that is not zero.
abbrev pub at_most_one : ℕ → ℕ
at_most_one n = if ltb 0 n then 1 else 0

gather_old :
    (k s : ℕ) (m : List (ℕ × ℕ)) (seen : List ℕ)
    → ltb 0 (count k seen) ≡ true
    → gather ((k, s) ∷ m) seen ≡ gather m seen
unfolding gather
gather_old k s m seen e = rw (e) refl

gather_new :
    (k s : ℕ) (m : List (ℕ × ℕ)) (seen : List ℕ)
    → ltb 0 (count k seen) ≡ false
    → gather ((k, s) ∷ m) seen ≡ (k, s) ∷ gather m (k ∷ seen)
unfolding gather
gather_new k s m seen e = rw (e) refl

abbrev sent_once : ℕ → List ℕ → List ℕ → ℕ
sent_once c seen ks = if ltb 0 (count c seen) then 0 else at_most_one (count c ks)

sent_once_old :
    (c k : ℕ) (seen ks : List ℕ)
    → ltb 0 (count k seen) ≡ true
    → sent_once c seen ks ≡ sent_once c seen (k ∷ ks)
unfolding count
sent_once_old c k seen ks e = ground (arith, e)

sent_once_new :
    (c k : ℕ) (seen ks : List ℕ)
    → ltb 0 (count k seen) ≡ false
    → (if c == k then 1 + sent_once c (k ∷ seen) ks else sent_once c (k ∷ seen) ks)
      ≡ sent_once c seen (k ∷ ks)
unfolding count
sent_once_new c k seen ks e = ground (arith, e)

count-cons :
    (c k : ℕ) (ks : List ℕ) → count c (k ∷ ks) ≡ (if c == k then 1 + count c ks else count c ks)
unfolding count
count-cons c k ks = refl

gather-count_nil : (c : ℕ) (seen : List ℕ) → count c (keys (gather [] seen)) ≡ sent_once c seen []
unfolding gather keys count
gather-count_nil c seen = ground arith

gather-count :
    (c : ℕ) (m : List (ℕ × ℕ)) (seen : List ℕ)
    → count c (keys (gather m seen)) ≡ sent_once c seen (keys m)
unfolding keys
gather-count c [] seen = gather-count_nil c seen
gather-count c ((k, s) ∷ m) seen = elim (Bool-cases (ltb 0 (count k seen))) [
  | inl e ↦
      ap (λ g. count c (keys g)) (gather_old k s m seen e)
      ∙ gather-count c m seen
      ∙ sent_once_old c k seen (keys m) e
  | inr e ↦
      ap (λ g. count c (keys g)) (gather_new k s m seen e)
      ∙ count-cons c k (keys (gather m (k ∷ seen)))
      ∙ ap (λ n. if c == k then 1 + n else n) (gather-count c m (k ∷ seen))
      ∙ sent_once_new c k seen (keys m) e
]

fan_out_event-offered :
    (name : Text) (m : EventMessage) (h : Host) (connection : ℕ)
    → count connection (keys (fan_out_event name m h))
      ≡ at_most_one (count connection (keys (offered name m h)))
unfolding fan_out_event count
fan_out_event-offered name m h connection = gather-count connection (offered name m h) []

keys-append : (xs ys : List (ℕ × ℕ)) → keys (xs ++ ys) ≡ keys xs ++ keys ys
unfolding keys
keys-append [] ys = refl
keys-append ((k, v) ∷ xs) ys = ap (λ t. k ∷ t) (keys-append xs ys)

-- The connection has a sink in the host's map, under an object and an event's name.
abbrev pub has_sink : ℕ → Text → Text → Host → Bool
has_sink c object event h =
    ltb 0 (count c (keys (or_nil (lookup event (or_nil (lookup object h.sinks))))))

abbrev one_if : Bool → ℕ
one_if b = if b then 1 else 0

one_if_either : (n k : ℕ) → at_most_one (n + k) ≡ one_if (ltb 0 n || ltb 0 k)
one_if_either n k = ground arith

one_if_same : (n : ℕ) → at_most_one (n + 0) ≡ one_if (ltb 0 n || ltb 0 n)
one_if_same n = ground arith

offered-has_sink :
    (c : ℕ) (name : Text) (m : EventMessage) (h : Host)
    → at_most_one (count c (keys (offered name m h)))
      ≡ one_if (has_sink c name m.event_name h || has_sink c name [] h)
unfolding offered sinks_at count keys
offered-has_sink c name m h =
    let named : List (ℕ × ℕ) = or_nil (lookup m.event_name (or_nil (lookup name h.sinks))) in
    let wild : List (ℕ × ℕ) = or_nil (lookup [] (or_nil (lookup name h.sinks))) in
    elim (Bool-cases (text_eq m.event_name [])) [
      | inl e ↦
          let empty : m.event_name ≡ [] = (text_eq_iff m.event_name []).0 e in
          rw (e, keys-append named [])
            (ap at_most_one (count-append c (keys named) [])
              ∙ one_if_same (count c (keys named))
              ∙ ap (λ ev. one_if (has_sink c name m.event_name h || has_sink c name ev h)) empty)
      | inr e ↦
          rw (e, keys-append named wild)
            (ap at_most_one (count-append c (keys named) (keys wild))
              ∙ one_if_either (count c (keys named)) (count c (keys wild)))
    ]

-- An event is sent to a connection once if the connection has a sink in the host's map under the
-- object and the event's name, or under the object and the empty name, which stands for every event,
-- also if it has both, and otherwise not at all.
pub fan_out_event_once :
    (name : Text) (m : EventMessage) (h : Host) (connection : ℕ)
    → count connection (keys (fan_out_event name m h))
      ≡ (if has_sink connection name m.event_name h || has_sink connection name [] h then 1 else 0)
fan_out_event_once name m h connection =
    fan_out_event-offered name m h connection ∙ offered-has_sink connection name m h

lookup-keep :
    {V : Type 0} (k j : Text) (xs : List V) (rest : List (Text × List V))
    → (or_nil (lookup j (keep k xs rest)) ≡ xs) ⊎ (lookup j (keep k xs rest) ≡ lookup j rest)
unfolding keep lookup
lookup-keep k j [] rest = inr refl
lookup-keep k j (x ∷ xs) rest =
    elim (text_discrete k j)
      as (λ d.
        (or_nil (ite d (some (x ∷ xs)) (lookup j rest)) ≡ x ∷ xs)
        ⊎ (ite d (some (x ∷ xs)) (lookup j rest) ≡ lookup j rest)) [
          | yes p ↦ inl refl
          | no n ↦ inr refl
        ]

-- No event of a closed connection is left.
close_events-count :
    (c : ℕ) (event : Text) (m : Events)
    → count c (keys (or_nil (lookup event (close_events c m)))) ≡ 0
unfolding close_events lookup count keys
close_events-count c event [] = refl
close_events-count c event ((k, sinks) ∷ m) =
    elim (lookup-keep k event (erase c sinks) (close_events c m)) [
      | inl p ↦ rw (p) (count-keys-erase_self c sinks)
      | inr p ↦ rw (p) (close_events-count c event m)
    ]

close_objects-count :
    (c : ℕ) (object event : Text) (m : List (Text × Events))
    → count c (keys (or_nil (lookup event (or_nil (lookup object (close_objects c m)))))) ≡ 0
unfolding close_objects lookup count keys
close_objects-count c object event [] = refl
close_objects-count c object event ((k, events) ∷ m) =
    elim (lookup-keep k object (close_events c events) (close_objects c m)) [
      | inl p ↦ rw (p) (close_events-count c event events)
      | inr p ↦ rw (p) (close_objects-count c object event m)
    ]

count_nil : (c : ℕ) → count c [] ≡ 0
unfolding count
count_nil c = refl

offered-closed :
    (c : ℕ) (name : Text) (m : EventMessage) (h : Host)
    → count c (keys (offered name m (on_connection_closed c h))) ≡ 0
unfolding offered on_connection_closed sinks_at keys count
offered-closed c name m h =
    let named = close_objects-count c name m.event_name h.sinks in
    let wild = close_objects-count c name [] h.sinks in
    elim (Bool-cases (text_eq m.event_name [])) [
      | inl e ↦
          rw (e, keys-append)
            (count-append c (keys (sinks_at name m.event_name (on_connection_closed c h))) []
              ∙ omega (arith, named, count_nil c))
      | inr e ↦
          rw (e, keys-append)
            (count-append c (keys (sinks_at name m.event_name (on_connection_closed c h)))
                (keys (sinks_at name [] (on_connection_closed c h)))
              ∙ omega (arith, named, wild))
    ]

-- Once a connection is closed, no event of any object is sent to it.
pub fan_out_event-on_connection_closed :
    (connection : ℕ) (name : Text) (m : EventMessage) (h : Host)
    → count connection (keys (fan_out_event name m (on_connection_closed connection h))) ≡ 0
fan_out_event-on_connection_closed connection name m h =
    fan_out_event-offered name m (on_connection_closed connection h) connection
    ∙ ap at_most_one (offered-closed connection name m h)

-- A key that was inserted occurs.
count-insert : (c sink : ℕ) (m : List (ℕ × ℕ)) → 1 ≤ count c (keys (insert c sink m))
count-insert c sink m =
    let found = lookup-insert_self c sink m in
    ground (arith, found, lookup_absent c (insert c sink m))

sinks_at-on_subscribe :
    (req : SubscribeMessage) (sink c : ℕ) (h : Host)
    → 1 ≤ count c (keys (sinks_at req.object req.event_name (on_subscribe req sink c h)))
unfolding sinks_at on_subscribe
sinks_at-on_subscribe req sink c h =
    let events : Events = or_nil (lookup req.object h.sinks) in
    let sinks : List (ℕ × ℕ) = insert c sink (or_nil (lookup req.event_name events)) in
    rw
      (
        lookup-put_self req.object (put req.event_name sinks events) h.sinks,
        lookup-put_self req.event_name sinks events,
      )
      (count-insert c sink (or_nil (lookup req.event_name events)))

named-le :
    (c : ℕ) (name : Text) (m : EventMessage) (h : Host)
    → count c (keys (sinks_at name m.event_name h)) ≤ count c (keys (offered name m h))
unfolding offered
named-le c name m h =
    let wild : List (ℕ × ℕ) = if text_eq m.event_name [] then [] else sinks_at name [] h in
    rw
      (
        keys-append (sinks_at name m.event_name h) wild,
        count-append c (keys (sinks_at name m.event_name h)) (keys wild),
      )
      (omega arith)

offered-le :
    (c : ℕ) (name event : Text) (m : EventMessage) (h : Host)
    → (event ≡ m.event_name) ⊎ (event ≡ [])
    → count c (keys (sinks_at name event h)) ≤ count c (keys (offered name m h))
unfolding offered
offered-le c name event m h e = elim e [
  | inl p ↦ rw (p) (named-le c name m h)
  | inr p ↦ elim (Bool-cases (text_eq m.event_name [])) [
    | inl t ↦
        subst (λ ev. count c (keys (sinks_at name ev h)) ≤ count c (keys (offered name m h)))
          ((text_eq_iff m.event_name []).0 t ∙ sym p) (named-le c name m h)
    | inr t ↦
        rw (p, t, keys-append)
          (rw (count-append c (keys (sinks_at name m.event_name h)) (keys (sinks_at name [] h)))
            (omega arith))
  ]
]

-- A connection that subscribes to an event, or to every event of an object, is sent each such event
-- of the object once.
pub fan_out_event-on_subscribe :
    (req : SubscribeMessage) (sink connection : ℕ) (m : EventMessage) (h : Host)
    → (req.event_name ≡ m.event_name) ⊎ (req.event_name ≡ [])
    → count connection (keys (fan_out_event req.object m (on_subscribe req sink connection h))) ≡ 1
fan_out_event-on_subscribe req sink connection m h e =
    fan_out_event-offered req.object m (on_subscribe req sink connection h) connection
    ∙ positive _ (
        omega (
          arith,
          sinks_at-on_subscribe req sink connection h,
          offered-le connection req.object req.event_name m (on_subscribe req sink connection h) e,
        ))
  where
    positive : (n : ℕ) → 1 ≤ n → at_most_one n ≡ 1
    positive n p = ground arith

-- A connection that subscribes to an event, or to every event of an object, is sent each such event
-- of the object once, and once it is closed it is sent no event of any object.
pub fan_out_event_sinks :
    (req : SubscribeMessage) (sink connection : ℕ) (m other : EventMessage) (name : Text) (h : Host)
    → (req.event_name ≡ m.event_name) ⊎ (req.event_name ≡ [])
    → let subscribed = on_subscribe req sink connection h in
      (count connection (keys (fan_out_event req.object m subscribed)) ≡ 1)
      × (count connection
            (keys (fan_out_event name other (on_connection_closed connection subscribed)))
          ≡ 0)
fan_out_event_sinks req sink connection m other name h e = (
  fan_out_event-on_subscribe req sink connection m h e,
  fan_out_event-on_connection_closed connection name other (on_subscribe req sink connection h),
)
