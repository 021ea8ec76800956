-- ===== src/Peer/Subscriptions.antt =====
-- The subscriptions of a peer against a plain list of those that are live: which callbacks an event
-- reaches, and what the host is told (cpp/implementations/plain/rpc_peer.cpp).
use logos_protocol.Base.{
  ℕ, ◌+◌, ◌<◌, ◌≡◌, ◌≢◌, refl, ◌∙◌, none, some, List, [], ◌∷◌, ◌++◌, arith, All, nat_eq, lookup,
  put, erase, ◌==◌, if◌then◌else◌, ite, ℕ_discrete, lookup-put_ne, lookup-erase_ne,
}
use logos_protocol.Peer.{
  Peer, EventKey, event_key, event_key_discrete, EventSubscription, Effect, without, send_subscribe,
  send_unsubscribe,
}
use logos_protocol.Message.{SubscribeMessage}

-- What the clients of a connection do with subscriptions.
pub data Command : Type 0 where
  subscribe : SubscribeMessage → ℕ → Command
  unsubscribe : ℕ → Command

unfoldable pub perform : Command → Peer → Peer × List Effect
perform (subscribe msg cb) p = send_subscribe msg cb p
perform (unsubscribe id) p = send_unsubscribe id p

unfoldable pub perform_all : List Command → Peer → Peer × List Effect
perform_all [] p = (p, [])
perform_all (c ∷ cs) p =
    let (q, es) = perform c p in let (r, fs) = perform_all cs q in (r, es ++ fs)

-- The abstract view: the live subscriptions in the order of registration, each with its id, its key
-- and its callback.
pub record Live : Type 0 where
  pub key : EventKey
  pub sub : EventSubscription

unfoldable pub removed : ℕ → List Live → List Live
removed id [] = []
removed id (l ∷ ls) = let rest = removed id ls in if l.sub.id == id then rest else l ∷ rest

-- The live subscriptions after a history, with ids given out from `next`.
unfoldable pub live_after : List Command → ℕ → List Live → List Live
live_after [] next ls = ls
live_after (subscribe msg cb ∷ cs) next ls = live_after cs (next + 1) (
    ls
    ++ record { key = (msg.object, msg.event_name); sub = record { id = next; callback = cb } }
      ∷ [])
live_after (unsubscribe id ∷ cs) next ls = live_after cs next (removed id ls)

-- Those of one key.
unfoldable pub of_key : EventKey → List Live → List EventSubscription
of_key key [] = []
of_key key (l ∷ ls) = ite (event_key_discrete l.key key) (l.sub ∷ of_key key ls) (of_key key ls)

pub of_key-append :
    (key : EventKey) (xs ys : List Live) → of_key key (xs ++ ys) ≡ of_key key xs ++ of_key key ys
unfolding of_key
of_key-append key [] ys = refl
of_key-append key (x ∷ xs) ys = ground (arith, of_key-append key xs ys)

pub of_key-removed :
    (key : EventKey) (id : ℕ) (ls : List Live)
    → of_key key (removed id ls) ≡ without id (of_key key ls)
unfolding of_key removed without
of_key-removed key id [] = refl
of_key-removed key id (l ∷ ls) = ground (arith, of_key-removed key id ls)

-- Every live id was given out before `next`.
abbrev pub Below : ℕ → List Live → Type 0
Below next ls = All (λ l. l.sub.id < next) ls

pub Below-suc : (next : ℕ) (ls : List Live) → Below next ls → Below (next + 1) ls
Below-suc next [] b = tt
Below-suc next (l ∷ ls) b = (omega (arith, b.0), Below-suc next ls b.1)

pub Below-removed : (next id : ℕ) (ls : List Live) → Below next ls → Below next (removed id ls)
unfolding removed
Below-removed next id [] b = tt
Below-removed next id (l ∷ ls) b = ground (arith, Below-removed next id ls b.1)

-- Every live subscription has its key in the reverse index.
abbrev pub Indexed : List (ℕ × EventKey) → List Live → Type 0
Indexed keys ls = All (λ l. lookup l.sub.id keys ≡ some l.key) ls

pub Indexed-put :
    (next : ℕ) (key : EventKey) (keys : List (ℕ × EventKey)) (ls : List Live)
    → Below next ls
    → Indexed keys ls
    → Indexed (put next key keys) ls
Indexed-put next key keys [] b h = tt
Indexed-put next key keys (l ∷ ls) b h = (
  lookup-put_ne next l.sub.id key keys (λ e. omega (arith, e, b.0)) ∙ h.0,
  Indexed-put next key keys ls b.1 h.1,
)

pub Indexed-erase :
    (id : ℕ) (keys : List (ℕ × EventKey)) (ls : List Live)
    → Indexed keys ls
    → Indexed (erase id keys) (removed id ls)
unfolding removed
Indexed-erase id keys [] h = tt
Indexed-erase id keys (l ∷ ls) h = elim (ℕ_discrete id l.sub.id) [
  | yes p ↦ ground (arith, Indexed-erase id keys ls h.1)
  | no p ↦ ground (arith, lookup-erase_ne id l.sub.id keys p, Indexed-erase id keys ls h.1)
]

-- An id that is not in the index is not live, and removing it changes nothing.
pub removed_unknown :
    (id : ℕ) (keys : List (ℕ × EventKey)) (ls : List Live)
    → Indexed keys ls
    → lookup id keys ≡ none
    → removed id ls ≡ ls
unfolding removed
removed_unknown id keys [] h e = refl
removed_unknown id keys (l ∷ ls) h e = ground (arith, removed_unknown id keys ls h.1 e)

-- Removing an id of one key leaves the subscriptions of the other keys.
pub without_other :
    (id : ℕ) (key other : EventKey) (keys : List (ℕ × EventKey)) (ls : List Live)
    → Indexed keys ls
    → lookup id keys ≡ some key
    → key ≢ other
    → without id (of_key other ls) ≡ of_key other ls
unfolding without of_key
without_other id key other keys [] h e n = refl
without_other id key other keys (l ∷ ls) h e n =
    ground (arith, without_other id key other keys ls h.1 e n)
