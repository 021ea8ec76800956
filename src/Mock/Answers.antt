-- ===== src/Mock/Answers.antt =====
-- What a mock answers, and what it has recorded (cpp/implementations/mock/mock_store.cpp).
use logos_protocol.Base.{
  ℕ, zero, suc, ◌+◌, ◌-◌, ◌≤◌, ◌≡◌, refl, sym, ap, ap₂, ◌∙◌, Bool, true, false, ◌&&◌, ◌||◌, some,
  List, [], ◌∷◌, ◌++◌, length, length-append, any_of, Text, text_eq, if◌then◌else◌, arith,
  Bool-cases, inl, inr, ltb,
}
use logos_protocol.Mock.{
  MockCallRecord, MockExpectation, MockStore, entry_at, update_at, with_args, then_return,
  is_call_of, was_called, count_calls, call_count, args_below, last_args, when, answers, value_or,
  args_or, answer_below, record_and_return,
}

entry_at-append :
    {A : Type 0} (xs ys : List A) (i : ℕ)
    → suc i ≤ length xs
    → entry_at i (xs ++ ys) ≡ entry_at i xs
entry_at-append [] ys i h = absurd (omega (arith, h))
entry_at-append (x ∷ xs) ys zero h = refl
entry_at-append (x ∷ xs) ys (suc i) h = entry_at-append xs ys i (omega (arith, h))

entry_at_end : {A : Type 0} (xs : List A) (x : A) → entry_at (length xs) (xs ++ x ∷ []) ≡ some x
entry_at_end [] x = refl
entry_at_end (y ∷ xs) x = entry_at_end xs x

update_at_end :
    {A : Type 0} (xs : List A) (x : A) (f : A → A)
    → update_at (length xs) f (xs ++ x ∷ []) ≡ xs ++ f x ∷ []
update_at_end [] x f = refl
update_at_end (y ∷ xs) x f = ap (λ (t : List _). y ∷ t) (update_at_end xs x f)

-- The index of the last entry of a list is that of the last entry of any list as long.
update_last :
    {A : Type 0} (xs : List A) (x y : A) (f : A → A)
    → update_at (length (xs ++ x ∷ []) - 1) f (xs ++ y ∷ []) ≡ xs ++ f y ∷ []
update_last xs x y f =
    ap (λ n. update_at n f (xs ++ y ∷ [])) (omega (arith, length-append xs (x ∷ [])))
    ∙ update_at_end xs y f

positive : (n : ℕ) (b : Bool) → ltb 0 (n + 1) || b ≡ ltb 0 n || true
positive n b = ground arith

and_true_right : (b : Bool) → b && true ≡ b
and_true_right b = ground arith

one_more : (n : ℕ) → n + 1 ≡ suc n
one_more n = omega arith

module _ {V : Type 0} (same_args : List V → List V → Bool) (invalid : V) where
  -- Entries above the index do not count.
  answer_below-append :
      (i : ℕ) (m method : Text) (args : List V) (es fs : List (MockExpectation V))
      → i ≤ length es
      → answer_below same_args invalid i m method args (es ++ fs)
        ≡ answer_below same_args invalid i m method args es
  unfolding answer_below
  answer_below-append zero m method args es fs h = refl
  answer_below-append (suc i) m method args es fs h =
      ap₂ (value_or same_args m method args) (entry_at-append es fs i h)
        (answer_below-append i m method args es fs (omega (arith, h)))

  -- The last registered expectation answers, if it matches, and else the others.
  answer_last :
      (m method : Text) (args : List V) (es : List (MockExpectation V)) (e : MockExpectation V)
      → answer_below same_args invalid (length (es ++ e ∷ [])) m method args (es ++ e ∷ []) ≡ (
          if answers same_args m method args e
          then e.return_value
          else answer_below same_args invalid (length es) m method args es)
  unfolding answer_below
  answer_last m method args es e =
      ap (λ n. answer_below same_args invalid n m method args (es ++ e ∷ []))
        (length-append es (e ∷ []) ∙ one_more (length es))
      ∙ ap₂ (value_or same_args m method args) (entry_at_end es e)
          (answer_below-append (length es) m method args es (e ∷ []) (omega arith))

  -- `when(m, f).thenReturn(v)`, and with arguments.
  unfoldable pub returning : Text → Text → V → MockStore V → MockStore V
  returning m method v s = let (u, i) = when invalid m method s in then_return i v u

  unfoldable pub returning_for : Text → Text → List V → V → MockStore V → MockStore V
  returning_for m method args v s =
      let (u, i) = when invalid m method s in then_return i v (with_args i args u)

  abbrev pub answer : Text → Text → List V → MockStore V → V
  answer m method args s = (record_and_return same_args invalid m method args s).0

  -- The last registered answer counts: after an answer has been registered for a method, the method is
  -- answered by it, also for arguments that are registered with it and equal themselves; and every
  -- other method is answered as before.
  pub record_and_return-returning :
      (m method : Text) (v : V) (s : MockStore V) (n other : Text) (args : List V)
      → answer n other args (returning m method v s)
        ≡ (if text_eq m n && text_eq method other then v else answer n other args s)
  unfolding returning when then_return record_and_return answers
  record_and_return-returning m method v s n other args =
      ap (λ es. answer_below same_args invalid (length es) n other args es)
        (update_last s.expectations _ _ (λ e. record e { return_value = v }))
      ∙ answer_last n other args s.expectations _
      ∙ ap (λ b. if b then v else answer n other args s)
          (and_true_right (text_eq m n && text_eq method other))

  -- An answer that is registered for arguments counts for the calls of its method with equal
  -- arguments, and all other calls are answered as before.
  pub record_and_return-returning_for :
      (m method : Text) (expected : List V) (v : V) (s : MockStore V) (n other : Text)
      (args : List V)
      → answer n other args (returning_for m method expected v s) ≡ (
          if (text_eq m n && text_eq method other) && same_args expected args
          then v
          else answer n other args s)
  unfolding returning_for when with_args then_return record_and_return answers
  record_and_return-returning_for m method expected v s n other args =
      ap (λ es. answer_below same_args invalid (length es) n other args es)
        (ap (update_at _ (λ e. record e { return_value = v })) (
            update_last s.expectations _ _
              (λ e. record e { expected_args = expected; match_any_args = false }))
          ∙ update_last s.expectations _ _ (λ e. record e { return_value = v }))
      ∙ answer_last n other args s.expectations _

module _ {V : Type 0} where
  args_below-append :
      (i : ℕ) (m method : Text) (xs ys : List (MockCallRecord V))
      → i ≤ length xs
      → args_below i m method (xs ++ ys) ≡ args_below i m method xs
  unfolding args_below
  args_below-append zero m method xs ys h = refl
  args_below-append (suc i) m method xs ys h =
      ap₂ (args_or m method) (entry_at-append xs ys i h)
        (args_below-append i m method xs ys (omega (arith, h)))

  last_call :
      (m method : Text) (xs : List (MockCallRecord V)) (r : MockCallRecord V)
      → args_below (length (xs ++ r ∷ [])) m method (xs ++ r ∷ [])
        ≡ (if is_call_of m method r then r.args else args_below (length xs) m method xs)
  unfolding args_below
  last_call m method xs r =
      ap (λ n. args_below n m method (xs ++ r ∷ []))
        (length-append xs (r ∷ []) ∙ one_more (length xs))
      ∙ ap₂ (args_or m method) (entry_at_end xs r)
          (args_below-append (length xs) m method xs (r ∷ []) (omega arith))

  count_calls-append :
      (m method : Text) (xs : List (MockCallRecord V)) (r : MockCallRecord V) (count : ℕ)
      → count_calls m method (xs ++ r ∷ []) count
        ≡ count_calls m method xs count + (if is_call_of m method r then 1 else 0)
  unfolding count_calls
  count_calls-append m method [] r count = ground arith
  count_calls-append m method (x ∷ xs) r count = count_calls-append m method xs r _

  counted :
      (m method : Text) (xs : List (MockCallRecord V)) (count : ℕ)
      → ltb 0 (count_calls m method xs count) ≡ ltb 0 count || any_of (is_call_of m method) xs
  unfolding count_calls
  counted m method [] count = ground arith
  counted m method (x ∷ xs) count = elim (Bool-cases (is_call_of m method x)) [
    | inl e ↦ rw e (counted m method xs (count + 1) ∙ positive count _)
    | inr e ↦ rw e (counted m method xs count)
  ]

  -- A call is recorded once: the count of its method is one more and its arguments are the last ones,
  -- the other methods are as before, and a method counts as called exactly if its count is not zero.
  pub record_and_return-call_count :
      (same_args : List V → List V → Bool) (invalid : V) (m method : Text) (args : List V)
      (s : MockStore V) (n other : Text)
      → let u = (record_and_return same_args invalid m method args s).1 in
        (call_count n other u
          ≡ call_count n other s + (if text_eq m n && text_eq method other then 1 else 0))
        × (last_args n other u
            ≡ (if text_eq m n && text_eq method other then args else last_args n other s))
        × (was_called n other u ≡ ltb 0 (call_count n other u))
  unfolding record_and_return call_count last_args was_called is_call_of
  record_and_return-call_count same_args invalid m method args s n other = (
    count_calls-append n other s.calls _ 0,
    last_call n other s.calls _,
    sym (counted n other _ 0),
  )

  -- The answer that was registered last counts: a method is answered by it, for all arguments or for
  -- those that it was registered for, and every other call is answered as before. A call is
  -- recorded once: the count of its method is one more and its arguments are the last ones, the other
  -- methods are as before, and a method counts as called exactly if its count is not zero.
  pub record_and_return_mocks :
      (same_args : List V → List V → Bool) (invalid : V) (m method : Text) (expected : List V)
      (v : V) (s : MockStore V) (n other : Text) (args : List V)
      → let u = (record_and_return same_args invalid m method args s).1 in
        (answer same_args invalid n other args (returning same_args invalid m method v s) ≡ (
          if text_eq m n && text_eq method other
          then v
          else answer same_args invalid n other args s))
        × (answer same_args invalid n other args
              (returning_for same_args invalid m method expected v s)
            ≡ (if (text_eq m n && text_eq method other) && same_args expected args
                then v
                else answer same_args invalid n other args s))
        × (call_count n other u
            ≡ call_count n other s + (if text_eq m n && text_eq method other then 1 else 0))
        × (last_args n other u
            ≡ (if text_eq m n && text_eq method other then args else last_args n other s))
        × (was_called n other u ≡ ltb 0 (call_count n other u))
  record_and_return_mocks same_args invalid m method expected v s n other args =
      let (counts, last, called) =
        record_and_return-call_count same_args invalid m method args s n other in
      (
        record_and_return-returning same_args invalid m method v s n other args,
        record_and_return-returning_for same_args invalid m method expected v s n other args,
        counts,
        last,
        called,
      )
