-- ===== src/Peer/AnsweredOnce.antt =====
-- The invariant of the interleavings of Peer/Race: where the handler of each call is, and how often
-- it is taken (cpp/implementations/plain/rpc_peer.cpp).
use logos_protocol.Base.{
  ℕ, ◌+◌, ◌≤◌, ◌≡◌, ◌≢◌, refl, sym, ap, subst, ◌∙◌, Bool, true, false, none, List, ◌++◌, arith,
  nat_eq, lookup, erase, keys, count, count-append, count-keys-insert_self, count-keys-insert_ne,
  count-keys-erase_self, count-keys-erase_ne, lookup_absent, count_absent, lookup-put_self,
  lookup-put_ne, ℕ_discrete, inl, inr, ◌⊎◌,
}
use logos_protocol.Peer.{register_call, take_call, cancel_pending, sweep}
use logos_protocol.Peer.Race.{
  Phase, fresh, registered, saw_stopped, saw_running, reclaimed, emitted, Failing, running, flagged,
  swept, System, or_fresh, phase_of, settles, move_to, extract, Step, register, reread_stopped,
  reread_running, reclaim, emit, flag, sweep_all, reply, cancel, Reach, here, next, start, begun,
}

abbrev is_failing : Failing → Bool
is_failing running = false
is_failing flagged = true
is_failing swept = true

-- The phases behind the second reading of `m_stopped` in which the call no longer looks after its
-- registration.
abbrev is_past : Phase → Bool
is_past fresh = false
is_past registered = false
is_past saw_stopped = false
is_past saw_running = true
is_past reclaimed = true
is_past emitted = true

-- Among the pending calls, and among the settled ones.
abbrev waiting : ℕ → System → ℕ
waiting id s = count id (keys s.peer.pending_calls)

record Inv (id : ℕ) (s : System) : Type 0 where
  pub accounted : waiting id s + count id s.settled ≡ begun (phase_of id s)
  pub marked : s.peer.stopped ≡ is_failing s.failing
  pub past : is_past (phase_of id s) ≡ true → s.failing ≡ swept → waiting id s ≡ 0

begun-le : (f : Phase) → begun f ≤ 1
begun-le fresh = omega arith
begun-le registered = omega arith
begun-le saw_stopped = omega arith
begun-le saw_running = omega arith
begun-le reclaimed = omega arith
begun-le emitted = omega arith

phase_of-move_to_self : (id : ℕ) (f : Phase) (s : System) → phase_of id (move_to id f s) ≡ f
unfolding phase_of move_to
phase_of-move_to_self id f s = ap or_fresh (lookup-put_self id f s.phases)

phase_of-move_to_ne :
    (id j : ℕ) (f : Phase) (s : System) → id ≢ j → phase_of j (move_to id f s) ≡ phase_of j s
unfolding phase_of move_to
phase_of-move_to_ne id j f s n = ap or_fresh (lookup-put_ne id j f s.phases n)

-- Extracting a handler moves its id from the pending calls to the settled ones.
settle-count_self :
    (k : ℕ) (m : List (ℕ × ℕ)) (settled : List ℕ)
    → count k (keys m) ≤ 1
    → count k (keys (erase k m)) + count k (settles k (lookup k m) ++ settled)
      ≡ count k (keys m) + count k settled
unfolding count
settle-count_self k m settled b =
    ground (arith, count-keys-erase_self k m, lookup_absent k m, count_absent k m)

settle-count :
    (k j : ℕ) (m : List (ℕ × ℕ)) (settled : List ℕ)
    → count j (keys m) ≤ 1
    → count j (keys (erase k m)) + count j (settles k (lookup k m) ++ settled)
      ≡ count j (keys m) + count j settled
unfolding count
settle-count k j m settled b = elim (ℕ_discrete k j) [
  | yes e ↦
      subst
        (λ i.
          count i (keys (erase k m)) + count i (settles k (lookup k m) ++ settled)
          ≡ count i (keys m) + count i settled)
        e (settle-count_self k m settled (rw e b))
  | no n ↦ grind (arith, count-keys-erase_ne k j m n)
]

erase-count-le : (k j : ℕ) (m : List (ℕ × ℕ)) → count j (keys (erase k m)) ≤ count j (keys m)
erase-count-le k j m = elim (ℕ_discrete k j) [
  | yes e ↦ rw (← e) (omega (arith, count-keys-erase_self k m))
  | no n ↦ omega (arith, count-keys-erase_ne k j m n)
]

-- An extraction, also by `cancelPending`, keeps the invariant of every id.
settle-Inv :
    (k j : ℕ) (s : System)
    → Inv j s
    → Inv j (record s {
      peer = record s.peer { pending_calls = erase k s.peer.pending_calls };
      settled = settles k (lookup k s.peer.pending_calls) ++ s.settled;
    })
unfolding phase_of
settle-Inv k j s v = record {
  accounted =
      settle-count k j s.peer.pending_calls s.settled
        (omega (arith, v.accounted, begun-le (phase_of j s)))
      ∙ v.accounted;
  marked = v.marked;
  past = λ p q. omega (arith, v.past p q, erase-count-le k j s.peer.pending_calls);
}

-- A change of the phase that keeps the count, and is past only where that is right.
move_to-Inv :
    (id j : ℕ) (f : Phase) (s : System)
    → begun f ≡ begun (phase_of id s)
    → (is_past f ≡ true → s.failing ≡ swept → waiting id s ≡ 0)
    → Inv j s
    → Inv j (move_to id f s)
unfolding move_to
move_to-Inv id j f s e h v = elim (ℕ_discrete id j) [
  | yes i ↦
      subst (λ k. Inv k s → Inv k (move_to id f s)) i
        (λ w. record {
          accounted = w.accounted ∙ sym (ap begun (phase_of-move_to_self id f s) ∙ e);
          marked = w.marked;
          past = λ p q. h (sym (ap is_past (phase_of-move_to_self id f s)) ∙ p) q;
        })
        v
  | no n ↦ record {
    accounted = v.accounted ∙ sym (ap begun (phase_of-move_to_ne id j f s n));
    marked = v.marked;
    past = λ p q. v.past (sym (ap is_past (phase_of-move_to_ne id j f s n)) ∙ p) q;
  }
]

-- Registering a call that has not begun.
register-Inv :
    (id h j : ℕ) (s : System)
    → phase_of id s ≡ fresh
    → Inv id s
    → Inv j s
    → Inv j (move_to id registered (record s { peer = register_call id h s.peer }))
unfolding move_to register_call count phase_of
register-Inv id h j s e w v =
    let t : System = record s { peer = register_call id h s.peer } in
    let none_yet : (waiting id s + count id s.settled ≡ 0) = w.accounted ∙ ap begun e in
    elim (ℕ_discrete id j) [
      | yes i ↦
          subst (λ k. Inv k (move_to id registered (record s { peer = register_call id h s.peer })))
            i
            (record {
              accounted = omega (
                arith,
                none_yet,
                ap begun (phase_of-move_to_self id registered t),
                count-keys-insert_self id h s.peer.pending_calls (omega (arith, none_yet)),
              );
              marked = w.marked;
              past = λ p q. cc (p, ap is_past (phase_of-move_to_self id registered t));
            })
      | no n ↦ record {
        accounted = omega (
          arith,
          v.accounted,
          ap begun (phase_of-move_to_ne id j registered t n),
          count-keys-insert_ne id j h s.peer.pending_calls n,
        );
        marked = v.marked;
        past = λ p q.
            count-keys-insert_ne id j h s.peer.pending_calls n
            ∙ v.past (sym (ap is_past (phase_of-move_to_ne id j registered t n)) ∙ p) q;
      }
    ]

Step-Inv : {s t : System} → Step s t → ((j : ℕ) → Inv j s) → (j : ℕ) → Inv j t
unfolding extract take_call cancel_pending sweep phase_of count keys
Step-Inv (register s id h e) v j = register-Inv id h j s e (v id) (v j)
Step-Inv (reread_stopped s id e m) v j =
    move_to-Inv id j saw_stopped s (sym (ap begun e)) (λ p. cc) (v j)
Step-Inv (reread_running s id e m) v j =
    move_to-Inv id j saw_running s (sym (ap begun e))
      (λ p q. cc (m, (v id).marked, ap is_failing q)) (v j)
Step-Inv (reclaim s id e) v j =
    move_to-Inv id j reclaimed (extract id s) (sym (ap begun e))
      (λ p q. count-keys-erase_self id s.peer.pending_calls) (settle-Inv id j s (v j))
Step-Inv (emit s id e) v j =
    move_to-Inv id j emitted s (sym (ap begun e)) (λ p q. (v id).past (ap is_past e) q) (v j)
Step-Inv (flag s m) v j = record { accounted = (v j).accounted; marked = refl; past = λ p. cc }
Step-Inv (sweep_all s e) v j = record {
  accounted = omega (arith, count-append j (keys s.peer.pending_calls) s.settled, (v j).accounted);
  marked = (v j).marked ∙ ap is_failing e;
  past = λ p q. refl;
}
Step-Inv (reply s id) v j = settle-Inv id j s (v j)
Step-Inv (cancel s id) v j = record {
  accounted = (settle-Inv id j s (v j)).accounted;
  marked = (v j).marked;
  past = (settle-Inv id j s (v j)).past;
}

start-Inv : (j : ℕ) → Inv j start
unfolding phase_of count keys lookup
start-Inv j = record { accounted = refl; marked = refl; past = λ p. cc }

Reach-Inv : {s : System} → Reach start s → (j : ℕ) → Inv j s
Reach-Inv here = start-Inv
Reach-Inv (next r step) = Step-Inv step (Reach-Inv r)

-- In every state that the threads can reach, a call that has registered is in exactly one place,
-- once: either its handler waits, or it was extracted by the one thread that answers it (or whose
-- caller has its answer). No handler is invoked twice, and none is lost.
pub handler_once :
    (s : System) (id : ℕ)
    → Reach start s
    → count id (keys s.peer.pending_calls) + count id s.settled ≡ begun (phase_of id s)
handler_once s id r = (Reach-Inv r id).accounted

-- Once `fail` has swept, a call whose `sendCallAsync` has returned is settled, exactly once, and no
-- longer waits: whatever the order of registration, sweep and second reading of `m_stopped` was, no
-- call is left to its deadline.
pub answered_after_sweep :
    (s : System) (id : ℕ)
    → Reach start s
    → s.failing ≡ swept
    → (phase_of id s ≡ reclaimed) ⊎ (phase_of id s ≡ emitted)
    → (count id s.settled ≡ 1) × (lookup id s.peer.pending_calls ≡ none)
answered_after_sweep s id r f h =
    let v = Reach-Inv r id in
    let e : (waiting id s ≡ 0) =
      v.past (elim h [ inl p ↦ ap is_past p | inr p ↦ ap is_past p ]) f in
    let one : (begun (phase_of id s) ≡ 1) = elim h [ inl p ↦ ap begun p | inr p ↦ ap begun p ] in
    (omega (arith, v.accounted, e, one), lookup_absent id s.peer.pending_calls e)
