-- ===== src/Peer/Refinement.antt =====
-- The subscriptions of a peer (cpp/implementations/plain/rpc_peer.cpp) as an implementation of the
-- list of the live ones (Peer/Subscriptions).
use logos_protocol.Base.{
  ℕ, ◌+◌, ◌%◌, ◌^◌, ◌<◌, ◌≡◌, ◌≢◌, refl, sym, ap, subst, ◌∙◌, Bool, some, List, [], ◌∷◌, ◌++◌, map,
  arith, length, All-append, text_eq, text_eq_iff, nat_eq, lookup, put, erase, if◌then◌else◌, ite,
  if_pos, if_neg, lookup-put, lookup-erase, lookup-put_self, lookup-put_ne, lookup-erase_self,
  lookup-erase_ne, append-nil, Option-cases, inl, inr,
}
use logos_protocol.Peer.{
  Peer, EventKey, event_key, event_key_discrete, EventSubscription, deliver, subs_at, without,
  withdraw, send_subscribe, send_unsubscribe, collect, dispatch_incoming, init,
}
use logos_protocol.Peer.Subscriptions.{
  Command, subscribe, unsubscribe, perform, perform_all, Live, removed, live_after, of_key,
  of_key-append, of_key-removed, Below, Below-suc, Below-removed, Indexed, Indexed-put,
  Indexed-erase, removed_unknown, without_other,
}
use logos_protocol.Message.{AnyMessage, SubscribeMessage, EventMessage}

-- How a peer stands for a list of live subscriptions.
pub record Refines (p : Peer) (ls : List Live) : Type 0 where
  pub subs : (key : EventKey) → subs_at key p ≡ of_key key ls
  pub fresh : Below p.next_sub_id ls
  pub indexed : Indexed p.sub_keys ls

pub init-Refines : (b : Bool) → Refines (init b) []
unfolding subs_at lookup of_key
init-Refines b = record { subs = λ key. refl; fresh = tt; indexed = tt }

-- `put` and `erase` on the keys of `event_subs`.
pub subs_at-put :
    (key other : EventKey) (subs : List EventSubscription) (p : Peer)
    → subs_at other (record p { event_subs = put key subs p.event_subs })
      ≡ ite (event_key_discrete key other) subs (subs_at other p)
unfolding subs_at
subs_at-put key other subs p = ground (arith, lookup-put key other subs p.event_subs)

subs_at-erase :
    (key other : EventKey) (p : Peer)
    → subs_at other (record p { event_subs = erase key p.event_subs })
      ≡ ite (event_key_discrete key other) [] (subs_at other p)
unfolding subs_at
subs_at-erase key other p = ground (arith, lookup-erase key other p.event_subs)

-- Withdrawing an id from a key.
pub subs_at-withdraw_self :
    (id : ℕ) (key : EventKey) (p : Peer)
    → subs_at key (withdraw id key p).0 ≡ without id (subs_at key p)
unfolding withdraw subs_at without
subs_at-withdraw_self id key p = grind (arith, lookup-erase_self, lookup-put_self)

pub subs_at-withdraw_ne :
    (id : ℕ) (key other : EventKey) (p : Peer)
    → key ≢ other
    → subs_at other (withdraw id key p).0 ≡ subs_at other p
unfolding withdraw subs_at
subs_at-withdraw_ne id key other p n =
    grind (arith, lookup-erase_ne key other p.event_subs n, lookup-put_ne)

withdraw_keeps :
    (id : ℕ) (key : EventKey) (p : Peer)
    → ((withdraw id key p).0.sub_keys ≡ p.sub_keys)
      × ((withdraw id key p).0.next_sub_id ≡ p.next_sub_id)
unfolding withdraw
withdraw_keeps id key p = ground arith

withdraw-subs :
    (id : ℕ) (key : EventKey) (p : Peer) (keys : List (ℕ × EventKey)) (ls : List Live)
    → ((k : EventKey) → subs_at k p ≡ of_key k ls)
    → Indexed keys ls
    → lookup id keys ≡ some key
    → (other : EventKey) → subs_at other (withdraw id key p).0 ≡ of_key other (removed id ls)
withdraw-subs id key p keys ls subs indexed e other = elim (event_key_discrete key other) [
  | yes q ↦
      ap (λ k. subs_at k (withdraw id key p).0) (sym q)
      ∙ subs_at-withdraw_self id key p
      ∙ ap (without id) (subs key)
      ∙ sym (of_key-removed key id ls)
      ∙ ap (λ k. of_key k (removed id ls)) q
  | no n ↦
      subs_at-withdraw_ne id key other p n
      ∙ subs other
      ∙ sym (without_other id key other keys ls indexed e n)
      ∙ sym (of_key-removed other id ls)
]

-- Withdrawing an id that the index knows removes it from the live ones.
withdraw-Refines :
    (id : ℕ) (key : EventKey) (p : Peer) (ls : List Live)
    → lookup id p.sub_keys ≡ some key
    → Refines p ls
    → Refines (withdraw id key (record p { sub_keys = erase id p.sub_keys })).0 (removed id ls)
unfolding subs_at
withdraw-Refines id key p ls e r =
    let q : Peer = record p { sub_keys = erase id p.sub_keys } in
    record {
      subs = withdraw-subs id key q p.sub_keys ls r.subs r.indexed e;
      fresh = rw ((withdraw_keeps id key q).1) (Below-removed p.next_sub_id id ls r.fresh);
      indexed = rw ((withdraw_keeps id key q).0) (Indexed-erase id p.sub_keys ls r.indexed);
    }

unsubscribe-Refines :
    (id : ℕ) (p : Peer) (ls : List Live)
    → Refines p ls
    → Refines (send_unsubscribe id p).0 (removed id ls)
unfolding send_unsubscribe
unsubscribe-Refines id p ls r = elim (Option-cases (lookup id p.sub_keys)) [
  | inl e ↦ rw (e, send_unsubscribe, removed_unknown id p.sub_keys ls r.indexed e) r
  | inr (key, e) ↦ rw (e, send_unsubscribe) (withdraw-Refines id key p ls e r)
]

subscribe-subs :
    (key : EventKey) (sub : EventSubscription) (p : Peer) (ls : List Live)
    → ((k : EventKey) → subs_at k p ≡ of_key k ls)
    → (other : EventKey)
    → subs_at other (record p { event_subs = put key (subs_at key p ++ sub ∷ []) p.event_subs })
      ≡ of_key other (ls ++ record { key = key; sub = sub } ∷ [])
unfolding of_key
subscribe-subs key sub p ls subs other = elim (event_key_discrete key other) [
  | yes q ↦
      subs_at-put key other (subs_at key p ++ sub ∷ []) p
      ∙ if_pos (event_key_discrete key other) q (subs_at key p ++ sub ∷ []) (subs_at other p)
      ∙ ap (λ t. t ++ sub ∷ []) (subs key ∙ ap (λ k. of_key k ls) q)
      ∙ ap (λ t. of_key other ls ++ t) (sym (if_pos (event_key_discrete key other) q (sub ∷ []) []))
      ∙ sym (of_key-append other ls (record { key = key; sub = sub } ∷ []))
  | no n ↦
      subs_at-put key other (subs_at key p ++ sub ∷ []) p
      ∙ if_neg (event_key_discrete key other) n (subs_at key p ++ sub ∷ []) (subs_at other p)
      ∙ subs other
      ∙ sym (append-nil _)
      ∙ ap (λ t. of_key other ls ++ t) (sym (if_neg (event_key_discrete key other) n (sub ∷ []) []))
      ∙ sym (of_key-append other ls (record { key = key; sub = sub } ∷ []))
]

subscribe-Refines :
    (msg : SubscribeMessage) (cb : ℕ) (p : Peer) (ls : List Live)
    → p.next_sub_id + 1 < 2 ^ 64
    → Refines p ls
    → Refines (send_subscribe msg cb p).0 (
        ls
        ++ record {
          key = (msg.object, msg.event_name);
          sub = record { id = p.next_sub_id; callback = cb };
        }
          ∷ [])
unfolding send_subscribe subs_at
subscribe-Refines msg cb p ls h r =
    let next : ((p.next_sub_id + 1) % 2 ^ 64 ≡ p.next_sub_id + 1) = omega (arith, h) in
    let key : EventKey = (msg.object, msg.event_name) in
    record {
      subs = subscribe-subs key (record { id = p.next_sub_id; callback = cb }) p ls r.subs;
      fresh = rw (next) (All-append _ ls _ (Below-suc p.next_sub_id ls r.fresh) (omega arith, tt));
      indexed =
          All-append _ ls _ (Indexed-put p.next_sub_id key p.sub_keys ls r.fresh r.indexed)
            (lookup-put_self p.next_sub_id key p.sub_keys, tt);
    }

subscribe-next :
    (msg : SubscribeMessage) (cb : ℕ) (p : Peer)
    → p.next_sub_id + 1 < 2 ^ 64
    → (send_subscribe msg cb p).0.next_sub_id ≡ p.next_sub_id + 1
unfolding send_subscribe
subscribe-next msg cb p h = omega (arith, h)

unsubscribe-next : (id : ℕ) (p : Peer) → (send_unsubscribe id p).0.next_sub_id ≡ p.next_sub_id
unfolding send_unsubscribe withdraw
unsubscribe-next id p = ground arith

pub perform_all-Refines :
    (cs : List Command) (p : Peer) (ls : List Live)
    → p.next_sub_id + length cs < 2 ^ 64
    → Refines p ls
    → Refines (perform_all cs p).0 (live_after cs p.next_sub_id ls)
unfolding perform_all perform live_after
perform_all-Refines [] p ls h r = r
perform_all-Refines (subscribe msg cb ∷ cs) p ls h r =
    let started : List Live =
      ls
      ++ record {
        key = (msg.object, msg.event_name);
        sub = record { id = p.next_sub_id; callback = cb };
      }
        ∷ [] in
    let next : ((send_subscribe msg cb p).0.next_sub_id ≡ p.next_sub_id + 1) =
      subscribe-next msg cb p (omega (arith, h)) in
    subst (λ n. Refines (perform_all cs (send_subscribe msg cb p).0).0 (live_after cs n started))
      next
      (perform_all-Refines cs _ _ (omega (arith, next, h))
        (subscribe-Refines msg cb p ls (omega (arith, h)) r))
perform_all-Refines (unsubscribe id ∷ cs) p ls h r =
    let next : ((send_unsubscribe id p).0.next_sub_id ≡ p.next_sub_id) = unsubscribe-next id p in
    subst
      (λ n. Refines (perform_all cs (send_unsubscribe id p).0).0 (live_after cs n (removed id ls)))
      next (perform_all-Refines cs _ _ (omega (arith, next, h)) (unsubscribe-Refines id p ls r))

-- The live subscriptions that an event is for: those of its name, and then those of every event of
-- the object, where these are others.
unfoldable pub subscribers : EventMessage → List Live → List EventSubscription
subscribers m ls =
    if text_eq m.event_name []
    then of_key (m.object, []) ls
    else of_key (m.object, m.event_name) ls ++ of_key (m.object, []) ls

-- After any history of fewer than 2^64 - 1 calls of `sendSubscribe` and `sendUnsubscribe` on a new
-- peer, an event invokes the callbacks of the live subscriptions to its name and of those to every
-- event of its object, each once and in the order of registration, and changes no state.
pub dispatch_incoming-event :
    (has_handler : Bool) (cs : List Command) (m : EventMessage)
    → 1 + length cs < 2 ^ 64
    → let p = (perform_all cs (init has_handler)).0 in
      dispatch_incoming (AnyMessage.event m) p
      ≡ (p, map (λ s. deliver s.callback m) (subscribers m (live_after cs 1 [])))
unfolding dispatch_incoming subscribers collect
dispatch_incoming-event has_handler cs m h =
    let r = perform_all-Refines cs (init has_handler) [] h (init-Refines has_handler) in
    grind (arith, r.subs, text_eq_iff m.event_name [])
