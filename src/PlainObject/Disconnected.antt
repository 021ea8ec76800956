-- ===== src/PlainObject/Disconnected.antt =====
-- What events reach after a client object has withdrawn its subscriptions
-- (cpp/implementations/plain/plain_logos_object.cpp), on a connection that it shares.
use logos_protocol.Base.{
  ℕ, ◌+◌, ◌%◌, ◌^◌, ◌<◌, ◌≡◌, refl, sym, ap, ◌∙◌, Bool, true, Option, none, some, nat_eq, ◌*◌, ◌≤◌,
  List, [], ◌∷◌, ◌++◌, append_assoc, append-nil, map, length, length-append, Text, arith,
}
use logos_protocol.Message.{AnyMessage, EventMessage}
use logos_protocol.Peer.{
  Peer, Effect, deliver, init, send_subscribe, send_unsubscribe, withdraw, dispatch_incoming,
}
use logos_protocol.Peer.Subscriptions.{
  Command, subscribe, unsubscribe, perform, perform_all, Live, removed, live_after,
}
use logos_protocol.Peer.Refinement.{subscribers, dispatch_incoming-event}
use logos_protocol.PlainObject.Events.{EventHandle, on_event, unsubscribe_each, disconnect_events}

-- What happens on an open connection: the object subscribes, or somebody else uses the connection.
pub data Act : Type 0 where
  own : Text → ℕ → Act
  foreign : Command → Act

-- The state of both: after an act, the object and the peer.
unfoldable pub act : Act → EventHandle × Option Peer → EventHandle × Option Peer
act (own event_name callback) (h, conn) =
    let (g, c, effects) = on_event true event_name (some callback) h conn in (g, c)
act (foreign c) (h, none) = (h, none)
act (foreign c) (h, some p) = (h, some (perform c p).0)

unfoldable pub act_all : List Act → EventHandle × Option Peer → EventHandle × Option Peer
act_all [] s = s
act_all (a ∷ acts) s = act_all acts (act a s)

-- The commands that the peer is given, and the ids of the object's own subscriptions, if ids are
-- given out from `next`.
unfoldable pub commands_of : Text → List Act → List Command
commands_of object [] = []
commands_of object (own event_name callback ∷ acts) =
    subscribe (record { object = object; event_name = event_name }) callback
    ∷ commands_of object acts
commands_of object (foreign c ∷ acts) = c ∷ commands_of object acts

unfoldable pub own_ids : List Act → ℕ → List ℕ
own_ids [] next = []
own_ids (own event_name callback ∷ acts) next = next ∷ own_ids acts (next + 1)
own_ids (foreign (subscribe msg callback) ∷ acts) next = own_ids acts (next + 1)
own_ids (foreign (unsubscribe id) ∷ acts) next = own_ids acts next

-- The live subscriptions without those of the given ids.
unfoldable pub without_each : List ℕ → List Live → List Live
without_each [] ls = ls
without_each (id ∷ ids) ls = without_each ids (removed id ls)

unsubscribe_all : List ℕ → List Command
unsubscribe_all ids = map (λ id. unsubscribe id) ids

unsubscribe_each-perform_all :
    (ids : List ℕ) (p : Peer) → unsubscribe_each ids p ≡ perform_all (unsubscribe_all ids) p
unfolding unsubscribe_each perform_all perform unsubscribe_all
unsubscribe_each-perform_all [] p = refl
unsubscribe_each-perform_all (id ∷ ids) p =
    rw (unsubscribe_each-perform_all ids (send_unsubscribe id p).0) refl

perform_all-append :
    (cs ds : List Command) (p : Peer)
    → (perform_all (cs ++ ds) p).0 ≡ (perform_all ds (perform_all cs p).0).0
unfolding perform_all
perform_all-append [] ds p = refl
perform_all-append (c ∷ cs) ds p = perform_all-append cs ds (perform c p).0

live_after-unsubscribe_all :
    (cs : List Command) (ids : List ℕ) (next : ℕ) (ls : List Live)
    → live_after (cs ++ unsubscribe_all ids) next ls ≡ without_each ids (live_after cs next ls)
unfolding live_after unsubscribe_all without_each
live_after-unsubscribe_all [] [] next ls = refl
live_after-unsubscribe_all [] (id ∷ ids) next ls =
    live_after-unsubscribe_all [] ids next (removed id ls)
live_after-unsubscribe_all (subscribe msg cb ∷ cs) ids next ls =
    live_after-unsubscribe_all cs ids (next + 1) _
live_after-unsubscribe_all (unsubscribe id ∷ cs) ids next ls =
    live_after-unsubscribe_all cs ids next (removed id ls)

-- The next id after a command.
next_id-unsubscribe : (id : ℕ) (p : Peer) → (send_unsubscribe id p).0.next_sub_id ≡ p.next_sub_id
unfolding send_unsubscribe withdraw
next_id-unsubscribe id p = ground arith

act_all-perform_all :
    (acts : List Act) (h : EventHandle) (p : Peer) (n : ℕ)
    → p.next_sub_id ≡ n
    → n + length acts < 2 ^ 64
    → act_all acts (h, some p) ≡ (
      record h { subs = h.subs ++ own_ids acts n },
      some (perform_all (commands_of h.object_name acts) p).0,
    )
unfolding act_all act on_event commands_of own_ids perform_all perform send_subscribe
act_all-perform_all [] h p n e bound =
    ap (λ ids. (record h { subs = ids }, some p)) (sym (append-nil h.subs))
act_all-perform_all (own name cb ∷ acts) h p n e bound =
    let later : (p.next_sub_id + 1) % 2 ^ 64 ≡ n + 1 = omega (arith, e, bound) in
    act_all-perform_all acts (record h { subs = h.subs ++ p.next_sub_id ∷ [] }) _ (n + 1) later
      (omega (arith, bound))
    ∙ ap
        (λ ids. (
          record h { subs = ids },
          some (perform_all (commands_of h.object_name (own name cb ∷ acts)) p).0,
        ))
        (append_assoc h.subs (p.next_sub_id ∷ []) (own_ids acts (n + 1))
          ∙ ap (λ i. h.subs ++ i ∷ own_ids acts (n + 1)) e)
act_all-perform_all (foreign (subscribe msg cb) ∷ acts) h p n e bound =
    let later : (p.next_sub_id + 1) % 2 ^ 64 ≡ n + 1 = omega (arith, e, bound) in
    act_all-perform_all acts h _ (n + 1) later (omega (arith, bound))
act_all-perform_all (foreign (unsubscribe id) ∷ acts) h p n e bound =
    act_all-perform_all acts h _ n (next_id-unsubscribe id p ∙ e) (omega (arith, bound))

length-commands_of :
    (object : Text) (acts : List Act) → length (commands_of object acts) ≡ length acts
unfolding commands_of
length-commands_of object [] = refl
length-commands_of object (own name cb ∷ acts) = omega (arith, length-commands_of object acts)
length-commands_of object (foreign c ∷ acts) = omega (arith, length-commands_of object acts)

length-own_ids : (acts : List Act) (n : ℕ) → length (own_ids acts n) ≤ length acts
unfolding own_ids
length-own_ids [] n = omega arith
length-own_ids (own name cb ∷ acts) n = omega (arith, length-own_ids acts (n + 1))
length-own_ids (foreign (subscribe msg cb) ∷ acts) n = omega (arith, length-own_ids acts (n + 1))
length-own_ids (foreign (unsubscribe id) ∷ acts) n = omega (arith, length-own_ids acts n)

length-unsubscribe_all : (ids : List ℕ) → length (unsubscribe_all ids) ≡ length ids
unfolding unsubscribe_all
length-unsubscribe_all [] = refl
length-unsubscribe_all (id ∷ ids) = omega (arith, length-unsubscribe_all ids)

-- The effects of an event on the connection, if there is one.
abbrev pub reached : EventMessage → Option Peer → List Effect
reached m none = []
reached m (some p) = (dispatch_incoming (AnyMessage.event m) p).1

-- After any history of a new connection that an object shares, and then its `disconnectEvents`, an
-- event reaches exactly the live subscriptions that are not the object's own, in their order. The
-- history has fewer than 2^63 - 1 steps.
pub disconnect_events-reached :
    (has_handler : Bool) (object : Text) (acts : List Act) (m : EventMessage)
    → 1 + 2 * length acts < 2 ^ 64
    → let (h, conn) =
        act_all acts (record { object_name = object; subs = [] }, some (init has_handler)) in
      reached m (disconnect_events h conn).1
      ≡ map
          (λ s. deliver s.callback m)
          (subscribers m
            (without_each (own_ids acts 1) (live_after (commands_of object acts) 1 [])))
unfolding disconnect_events
disconnect_events-reached has_handler object acts m bound =
    let cs = commands_of object acts in
    let ids = own_ids acts 1 in
    let short : 1 + length (cs ++ unsubscribe_all ids) < 2 ^ 64 = omega (
      arith,
      bound,
      length-append cs (unsubscribe_all ids),
      length-commands_of object acts,
      length-unsubscribe_all ids,
      length-own_ids acts 1,
    ) in
    rw
      (
        act_all-perform_all acts (record { object_name = object; subs = [] }) (init has_handler) 1
            refl (omega (arith, bound)),
        unsubscribe_each-perform_all ids (perform_all cs (init has_handler)).0,
        ← perform_all-append cs (unsubscribe_all ids) (init has_handler),
      )
      (ap (λ (r : Peer × List Effect). r.1)
          (dispatch_incoming-event has_handler (cs ++ unsubscribe_all ids) m short)
        ∙ ap (λ ls. map (λ s. deliver s.callback m) (subscribers m ls))
            (live_after-unsubscribe_all cs ids 1 []))
