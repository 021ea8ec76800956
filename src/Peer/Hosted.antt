-- ===== src/Peer/Hosted.antt =====
-- What a peer has told the host about its subscriptions, against those it holds
-- (`sendSubscribe` and `sendUnsubscribe` of cpp/implementations/plain/rpc_peer.cpp).
use logos_protocol.Base.{
  ℕ, ◌+◌, ◌^◌, ◌<◌, ◌≡◌, refl, sym, ap, ◌∙◌, Bool, true, false, List, [], ◌∷◌, ◌++◌, arith, length,
  nat_eq, lookup, erase, ite, lookup-put_self, lookup-put_ne, lookup-erase_self, lookup-erase_ne,
  Option-cases, inl, inr,
}
use logos_protocol.Peer.{
  Peer, EventKey, event_key, event_key_discrete, EventSubscription, Effect, emit, subs_at, without,
  withdraw, send_subscribe, send_unsubscribe, init,
}
use logos_protocol.Peer.Subscriptions.{
  Command, subscribe, unsubscribe, perform, perform_all, live_after, of_key,
}
use logos_protocol.Peer.Refinement.{init-Refines, perform_all-Refines}
use logos_protocol.Message.{AnyMessage, SubscribeMessage}

-- The host keeps one sink for a key of a connection: whether it has one after the messages that
-- the peer emits.
unfoldable pub hosted : EventKey → List Effect → Bool → Bool
hosted key [] b = b
hosted key (emit (AnyMessage.subscribe m) ∷ es) b =
    hosted key es (ite (event_key_discrete (m.object, m.event_name) key) true b)
hosted key (emit (AnyMessage.unsubscribe m) ∷ es) b =
    hosted key es (ite (event_key_discrete (m.object, m.event_name) key) false b)
hosted key (e ∷ es) b = hosted key es b

-- Whether some subscription to the key is held.
unfoldable pub wanted : List EventSubscription → Bool
wanted [] = false
wanted (s ∷ subs) = true

hosted-append :
    (key : EventKey) (es fs : List Effect) (b : Bool)
    → hosted key (es ++ fs) b ≡ hosted key fs (hosted key es b)
unfolding hosted
hosted-append key [] fs b = refl
hosted-append key (emit (AnyMessage.subscribe m) ∷ es) fs b = hosted-append key es fs _
hosted-append key (emit (AnyMessage.unsubscribe m) ∷ es) fs b = hosted-append key es fs _
hosted-append key (e ∷ es) fs b = simp (hosted-append key es fs b)

wanted-append : (xs : List EventSubscription) (s : EventSubscription) → wanted (xs ++ s ∷ []) ≡ true
unfolding wanted
wanted-append [] s = refl
wanted-append (x ∷ xs) s = refl

hosted-subscribe :
    (key : EventKey) (msg : SubscribeMessage) (cb : ℕ) (p : Peer)
    → hosted key (send_subscribe msg cb p).1 (wanted (subs_at key p))
      ≡ wanted (subs_at key (send_subscribe msg cb p).0)
unfolding hosted send_subscribe subs_at
hosted-subscribe key msg cb p = grind (arith, lookup-put_self, lookup-put_ne, wanted-append)

hosted-withdraw :
    (key other : EventKey) (id : ℕ) (p : Peer)
    → hosted key (withdraw id other p).1 (wanted (subs_at key p))
      ≡ wanted (subs_at key (withdraw id other p).0)
unfolding hosted withdraw wanted without subs_at
hosted-withdraw key other id p =
    grind (arith, lookup-put_self, lookup-put_ne, lookup-erase_self, lookup-erase_ne)

hosted-unsubscribe :
    (key : EventKey) (id : ℕ) (p : Peer)
    → hosted key (send_unsubscribe id p).1 (wanted (subs_at key p))
      ≡ wanted (subs_at key (send_unsubscribe id p).0)
unfolding hosted send_unsubscribe subs_at
hosted-unsubscribe key id p = elim (Option-cases (lookup id p.sub_keys)) [
  | inl e ↦ rw (e, hosted, send_unsubscribe) refl
  | inr (other, e) ↦
      rw (e, send_unsubscribe)
        (hosted-withdraw key other id (record p { sub_keys = erase id p.sub_keys }))
]

hosted-perform :
    (key : EventKey) (c : Command) (p : Peer)
    → hosted key (perform c p).1 (wanted (subs_at key p)) ≡ wanted (subs_at key (perform c p).0)
unfolding perform
hosted-perform key (subscribe msg cb) p = hosted-subscribe key msg cb p
hosted-perform key (unsubscribe id) p = hosted-unsubscribe key id p

hosted-perform_all :
    (key : EventKey) (cs : List Command) (p : Peer)
    → hosted key (perform_all cs p).1 (wanted (subs_at key p))
      ≡ wanted (subs_at key (perform_all cs p).0)
unfolding perform_all hosted
hosted-perform_all key [] p = refl
hosted-perform_all key (c ∷ cs) p =
    hosted-append key (perform c p).1 (perform_all cs (perform c p).0).1 (wanted (subs_at key p))
    ∙ ap (hosted key (perform_all cs (perform c p).0).1) (hosted-perform key c p)
    ∙ hosted-perform_all key cs (perform c p).0

-- After any history of fewer than 2^64 - 1 calls of `sendSubscribe` and `sendUnsubscribe` on a new
-- peer, the last message that the host was sent for a key asks for its events exactly if a
-- subscription to the key is live: withdrawing one of several says nothing, withdrawing the last
-- one ends the host's sink.
pub hosted_iff_live :
    (has_handler : Bool) (cs : List Command) (key : EventKey)
    → 1 + length cs < 2 ^ 64
    → hosted key (perform_all cs (init has_handler)).1 false
      ≡ wanted (of_key key (live_after cs 1 []))
unfolding wanted of_key
hosted_iff_live has_handler cs key h =
    let r = perform_all-Refines cs (init has_handler) [] h (init-Refines has_handler) in
    ap (hosted key (perform_all cs (init has_handler)).1)
      (sym (ap wanted ((init-Refines has_handler).subs key)))
    ∙ hosted-perform_all key cs (init has_handler)
    ∙ ap wanted (r.subs key)
