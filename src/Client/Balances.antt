-- ===== src/Client/Balances.antt =====
-- Each operation of a client keeps the books on what it owes (cpp/logos_api_client.cpp).
use logos_protocol.Base.{
  KeysOnce, weigh-erase, KeysOnce-erase, ℕ, ◌+◌, ◌≤◌, ◌≡◌, ◌∙◌, Bool, true, false, some,
  Option-cases, inl, inr, List, [], ◌∷◌, ◌++◌, Text, text_key, lookup, erase, arith, All-append,
}
use logos_protocol.Client.{Call, Client}
use logos_protocol.Client.Status.{Variants, is_unauthorized_sentinel_invalid}
use logos_protocol.Client.Handshake.{
  Run, dispatch, continue_call, continue_all, drain_pending_handshakes, start_capability_handshake,
}
use logos_protocol.Client.Underway.{drain_nothing, drain_queue}
use logos_protocol.Client.Ledger.{
  weight, weight-append, mine, may_retry, may_send, owed, sendable, delivered, sent,
  delivered-append, sent-append, Clean, Balance,
}

module _ {V : Type 0} (q : Variants V) (id : ℕ) where
  -- Nothing happens.
  pub rest-Balance :
      (c : Client)
      → KeysOnce c.pending_handshakes
      → Balance q id (owed id c) (sendable id c) (c, [])
  unfolding delivered sent
  rest-Balance c o = record { owes = omega arith; sends = omega arith; once = o; clean = tt }

  pub dispatch-Balance :
      (token : Text) (call : Call) (c : Client)
      → KeysOnce c.pending_handshakes
      → Balance q id
          (owed id c + mine id call)
          (sendable id c + may_send id call)
          (dispatch q token call c)
  unfolding dispatch owed sendable delivered sent may_send may_retry mine
  dispatch-Balance token call c o = record {
    owes = omega (arith, weight-append (mine id) c.flights call);
    sends = ground (arith, weight-append (may_retry id) c.flights call);
    once = o;
    clean = (tt, tt);
  }

  -- A queued call is sent or answered.
  continue-Balance :
      (token : Text) (reachable : Bool) (call : Call) (c : Client)
      → KeysOnce c.pending_handshakes
      → Balance q id
          (owed id c + mine id call)
          (sendable id c + may_send id call)
          (continue_call q token reachable call c)
  unfolding continue_call delivered sent mine
  continue-Balance token true call c o = dispatch-Balance token call c o
  continue-Balance token false call c o = record {
    owes = omega arith;
    sends = omega arith;
    once = o;
    clean = (is_unauthorized_sentinel_invalid q, tt);
  }

  -- One operation after another.
  pub append-Balance :
      (a s b t : ℕ) (r r' : Run V)
      → Balance q id a s r
      → Balance q id (owed id r.0 + b) (sendable id r.0 + t) r'
      → Balance q id (a + b) (s + t) (r'.0, r.1 ++ r'.1)
  append-Balance a s b t r r' h k = record {
    owes = omega (arith, h.owes, k.owes, delivered-append id r.1 r'.1);
    sends = omega (arith, h.sends, k.sends, sent-append id r.1 r'.1);
    once = k.once;
    clean = All-append (Clean q) _ _ h.clean k.clean;
  }

  -- The same books under other names.
  pub equal-Balance :
      (a s b t : ℕ) (r : Run V) → Balance q id a s r → a ≡ b → s ≤ t → Balance q id b t r
  equal-Balance a s b t r h e l = record {
    owes = h.owes ∙ e;
    sends = omega (arith, h.sends);
    once = h.once;
    clean = h.clean;
  }

  continue_all-Balance :
      (token : Text) (reachable : Bool) (calls : List Call) (c : Client)
      → KeysOnce c.pending_handshakes
      → Balance q id
          (owed id c + weight (mine id) calls)
          (sendable id c + weight (may_send id) calls)
          (continue_all q token reachable calls c)
  unfolding continue_all weight
  continue_all-Balance token reachable [] c o =
      equal-Balance _ _ _ _ _ (rest-Balance c o) (omega arith) (omega arith)
  continue_all-Balance token reachable (call ∷ calls) c o =
      let h = continue-Balance token reachable call c o in
      equal-Balance _ _ _ _ _
        (append-Balance _ _ _ _ _ _ h (
          continue_all-Balance token reachable calls (continue_call q token reachable call c).0
            h.once))
        (omega arith) (omega arith)

  erased :
      (name : Text) (calls : List Call) (c : Client)
      → KeysOnce c.pending_handshakes
      → lookup name c.pending_handshakes ≡ some calls
      → let d : Client = record c { pending_handshakes = erase name c.pending_handshakes } in
        (owed id d + weight (mine id) calls ≡ owed id c)
        × (sendable id d + weight (may_send id) calls ≡ sendable id c)
  unfolding owed sendable
  erased name calls c o e = (
    omega (arith, weigh-erase (weight (mine id)) name calls c.pending_handshakes o e),
    omega (arith, weigh-erase (weight (may_send id)) name calls c.pending_handshakes o e),
  )

  pub drain-Balance :
      (name token : Text) (reachable : Bool) (c : Client)
      → KeysOnce c.pending_handshakes
      → Balance q id (owed id c) (sendable id c) (drain_pending_handshakes q name token reachable c)
  drain-Balance name token reachable c o = elim (Option-cases (lookup name c.pending_handshakes)) [
    | inl e ↦ rw (drain_nothing q name token reachable c e) (rest-Balance c o)
    | inr (calls, e) ↦
        let h = erased name calls c o e in
        rw (drain_queue q name token reachable c calls e) (
          equal-Balance _ _ _ _ _
            (continue_all-Balance token reachable calls _
              (KeysOnce-erase name c.pending_handshakes o))
            h.0 (omega (arith, h.1)))
  ]

  -- An effect that neither sends nor answers a call.
  pub start-Balance :
      (name : Text) (timeout : ℕ) (c : Client)
      → KeysOnce c.pending_handshakes
      → Balance q id (owed id c) (sendable id c) (start_capability_handshake q name timeout c)
  unfolding start_capability_handshake owed sendable delivered sent
  start-Balance name timeout c o = record {
    owes = omega arith;
    sends = omega arith;
    once = o;
    clean = (tt, tt);
  }
