-- ===== src/Client/Outcomes.antt =====
-- What a blocking call can come to (cpp/logos_api_client.cpp).
use logos_protocol.Base.{
  ℕ, ◌+◌, ◌≤◌, ◌≡◌, refl, Bool, true, false, ◌&&◌, Bool-cases, inl, inr, List, [], ◌∷◌, ◌++◌, Text,
  arith, if◌then◌else◌,
}
use logos_protocol.Tokens.{TokenManager, is_empty, get_token, remove_token}
use logos_protocol.Client.{Call, Client, is_eligible}
use logos_protocol.Client.Status.{
  Variants, is_unauthorized_sentinel, is_unauthorized_sentinel_invalid,
}
use logos_protocol.Client.Blocking.{
  Exchange, Act, asks, calls, Outcome, minted, send_first, exchange_again, collapse, settle,
  send_acquired, after_acquire, invoke_remote_method,
}

-- How many sendings, and how many requests for a token.
unfoldable pub sendings : List Act → ℕ
sendings [] = 0
sendings (asks ms ∷ acts) = sendings acts
sendings (calls token ∷ acts) = 1 + sendings acts

unfoldable pub requests : List Act → ℕ
requests [] = 0
requests (asks ms ∷ acts) = 1 + requests acts
requests (calls token ∷ acts) = requests acts

sendings-append : (xs ys : List Act) → sendings (xs ++ ys) ≡ sendings xs + sendings ys
unfolding sendings
sendings-append [] ys = omega arith
sendings-append (asks ms ∷ xs) ys = sendings-append xs ys
sendings-append (calls t ∷ xs) ys = omega (arith, sendings-append xs ys)

requests-append : (xs ys : List Act) → requests (xs ++ ys) ≡ requests xs + requests ys
unfolding requests
requests-append [] ys = omega arith
requests-append (asks ms ∷ xs) ys = omega (arith, requests-append xs ys)
requests-append (calls t ∷ xs) ys = requests-append xs ys

module _ {V : Type 0} (q : Variants V) (w : Exchange V) where
  collapse_hides :
      (call : Call) (o : Outcome V) → is_unauthorized_sentinel q (collapse q w call o).value ≡ false
  unfolding collapse
  collapse_hides call o = elim (Bool-cases (is_unauthorized_sentinel q o.value)) [
    | inl e ↦ rw (collapse, e) (is_unauthorized_sentinel_invalid q)
    | inr e ↦ rw (collapse, e) e
  ]

  collapse_acts : (call : Call) (o : Outcome V) → (collapse q w call o).acts ≡ o.acts
  unfolding collapse
  collapse_acts call o = elim (Bool-cases (is_unauthorized_sentinel q o.value)) [
    | inl e ↦ rw (collapse, e) refl
    | inr e ↦ rw (collapse, e) refl
  ]

  -- The token of the second request, the first one dropped.
  abbrev fresh_token : Call → Outcome V → Text
  fresh_token call o = minted w.second_token (remove_token call.object_name o.tokens).1

  exchange_acts :
      (call : Call) (o : Outcome V)
      → (sendings (exchange_again q w call o).acts ≤ 1 + sendings o.acts)
        × (requests (exchange_again q w call o).acts ≡ 1 + requests o.acts)
  unfolding exchange_again sendings requests
  exchange_acts call o =
      let s = sendings-append o.acts (asks call.timeout_ms ∷ []) in
      let r = requests-append o.acts (asks call.timeout_ms ∷ []) in
      let end = calls (fresh_token call o) ∷ [] in
      elim (Bool-cases (is_empty (fresh_token call o))) [
        | inl e ↦ rw (exchange_again, e) (omega (arith, s), omega (arith, r))
        | inr e ↦
            rw (exchange_again, e)
              (
                omega (arith, s, sendings-append (o.acts ++ asks call.timeout_ms ∷ []) end),
                omega (arith, r, requests-append (o.acts ++ asks call.timeout_ms ∷ []) end),
              )
      ]

  -- At most one more sending and one more request than before, and no refusal.
  settle_bounded :
      (eligible : Bool) (call : Call) (o : Outcome V)
      → sendings o.acts ≤ 1
      → requests o.acts ≤ 1
      → (is_unauthorized_sentinel q (settle q w eligible call o).value ≡ false)
        × (sendings (settle q w eligible call o).acts ≤ 2)
        × (requests (settle q w eligible call o).acts ≤ 2)
  unfolding settle
  settle_bounded eligible call o s r =
      let k = exchange_acts call o in
      let retried = eligible && is_unauthorized_sentinel q o.value in
      let final : Outcome V = if retried then exchange_again q w call o else o in
      let a = collapse_acts call final in
      (
        collapse_hides call final,
        rw a (elim (Bool-cases retried) [
          | inl e ↦ rw e (omega (arith, s, k.0))
          | inr e ↦ rw e (omega (arith, s))
        ]),
        rw a (elim (Bool-cases retried) [
          | inl e ↦ rw e (omega (arith, r, k.1))
          | inr e ↦ rw e (omega (arith, r))
        ]),
      )

  send_acquired_acts :
      (call : Call) (tokens : TokenManager)
      → (sendings (send_acquired q w call tokens).acts ≤ 1)
        × (requests (send_acquired q w call tokens).acts ≤ 1)
  unfolding send_acquired send_first sendings requests
  send_acquired_acts call tokens =
      elim (Bool-cases (is_empty (get_token call.object_name tokens))) [
        | inl e ↦ rw (send_acquired, e) (omega arith, omega arith)
        | inr e ↦ rw (send_acquired, e) (omega arith, omega arith)
      ]

  after_acquire_bounded :
      (there : Bool) (call : Call) (c : Client)
      → let o = after_acquire q w there call c in
        (is_unauthorized_sentinel q o.value ≡ false) × (sendings o.acts ≤ 2) × (requests o.acts ≤ 2)
  unfolding after_acquire sendings requests
  after_acquire_bounded true call c =
      let k = send_acquired_acts call (w.after_wait c.token_manager) in
      settle_bounded (is_eligible call.object_name c) call _ k.0 k.1
  after_acquire_bounded false call c =
      (is_unauthorized_sentinel_invalid q, omega arith, omega arith)

  -- Whatever the modules answer, a blocking call never returns the value with which a module refuses
  -- a token, sends at most twice and asks for a token at most twice.
  pub invoke_remote_method_bounded :
      (call : Call) (c : Client)
      → let o = invoke_remote_method q w call c in
        (is_unauthorized_sentinel q o.value ≡ false) × (sendings o.acts ≤ 2) × (requests o.acts ≤ 2)
  unfolding invoke_remote_method send_first sendings requests
  invoke_remote_method_bounded call c =
      let token = get_token call.object_name c.token_manager in
      elim (Bool-cases (is_empty token && is_eligible call.object_name c)) [
        | inl e ↦ rw (invoke_remote_method, e) (after_acquire_bounded w.acquirable call c)
        | inr e ↦
            rw (invoke_remote_method, e)
              (settle_bounded (is_eligible call.object_name c) call
                (send_first q w token c.token_manager []) (omega arith) (omega arith))
      ]
