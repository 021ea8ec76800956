-- ===== src/Mock.antt =====
-- The mock of a transport: registered answers and recorded calls
-- (cpp/implementations/mock/mock_store.{h,cpp}).
--
-- Each operation is one step under the store's mutex. `same_args` is the comparison of argument
-- lists, of values `V` with the invalid one `invalid`.
pub mod Answers
use logos_protocol.Base.{
  ℕ, zero, suc, ◌+◌, ◌-◌, Bool, true, false, not, ◌&&◌, ◌||◌, Option, none, some, List, [], ◌∷◌,
  ◌++◌, length, any_of, Text, text_eq, if◌then◌else◌,
}

pub record MockCallRecord (V : Type 0) : Type 0 where
  pub module_name : Text
  pub method : Text
  pub args : List V

pub record MockExpectation (V : Type 0) : Type 0 where
  pub module_name : Text
  pub method : Text
  pub expected_args : List V
  pub return_value : V
  pub match_any_args : Bool

-- The probe is a counter that may be set.
pub record MockStore (V : Type 0) : Type 0 where
  pub expectations : List (MockExpectation V)
  pub calls : List (MockCallRecord V)
  pub release_probe : Option ℕ

-- `at(i)`, where there is such an entry, and the change of that entry.
abbrev pub entry_at : {A : Type 0} → ℕ → List A → Option A
entry_at i [] = none
entry_at zero (x ∷ xs) = some x
entry_at (suc i) (x ∷ xs) = entry_at i xs

abbrev pub update_at : {A : Type 0} → ℕ → (A → A) → List A → List A
update_at i f [] = []
update_at zero f (x ∷ xs) = f x ∷ xs
update_at (suc i) f (x ∷ xs) = x ∷ update_at i f xs

abbrev pub increment : Option ℕ → Option ℕ
increment none = none
increment (some n) = some (n + 1)

module _ {V : Type 0} where
  unfoldable pub reset : MockStore V → MockStore V
  reset s = record { expectations = []; calls = []; release_probe = none }

  unfoldable pub set_mock_object_release_probe : Option ℕ → MockStore V → MockStore V
  set_mock_object_release_probe counter s = record s { release_probe = counter }

  unfoldable pub increment_mock_object_release_probe_if_set : MockStore V → MockStore V
  increment_mock_object_release_probe_if_set s = record s {
    release_probe = increment s.release_probe;
  }

  -- `ExpectationBuilder::withArgs` and `thenReturn`, of the builder at `index`.
  unfoldable pub with_args : ℕ → List V → MockStore V → MockStore V
  with_args index args s = record s {
    expectations =
        update_at index (λ e. record e { expected_args = args; match_any_args = false })
          s.expectations;
  }

  unfoldable pub then_return : ℕ → V → MockStore V → MockStore V
  then_return index value s = record s {
    expectations = update_at index (λ e. record e { return_value = value }) s.expectations;
  }

  -- Whether a recorded call is one of that method.
  unfoldable pub is_call_of : Text → Text → MockCallRecord V → Bool
  is_call_of m method r = text_eq r.module_name m && text_eq r.method method

  unfoldable pub was_called : Text → Text → MockStore V → Bool
  was_called m method s = any_of (is_call_of m method) s.calls

  unfoldable pub count_calls : Text → Text → List (MockCallRecord V) → ℕ → ℕ
  count_calls m method [] count = count
  count_calls m method (r ∷ rs) count =
      count_calls m method rs (if is_call_of m method r then count + 1 else count)

  unfoldable pub call_count : Text → Text → MockStore V → ℕ
  call_count m method s = count_calls m method s.calls 0

  abbrev pub args_or : Text → Text → Option (MockCallRecord V) → List V → List V
  args_or m method none rest = rest
  args_or m method (some r) rest = if is_call_of m method r then r.args else rest

  -- The loop of `lastArgs`, below index `i`.
  unfoldable pub args_below : ℕ → Text → Text → List (MockCallRecord V) → List V
  args_below zero m method calls = []
  args_below (suc i) m method calls =
      args_or m method (entry_at i calls) (args_below i m method calls)

  unfoldable pub last_args : Text → Text → MockStore V → List V
  last_args m method s = args_below (length s.calls) m method s.calls

  module _ (invalid : V) where
    -- `when`: the store with the new expectation, and the builder's index.
    unfoldable pub when : Text → Text → MockStore V → MockStore V × ℕ
    when m method s =
        let expectations =
          s.expectations
          ++ record {
            module_name = m;
            method = method;
            expected_args = [];
            return_value = invalid;
            match_any_args = true;
          }
            ∷ [] in
        (record s { expectations = expectations }, length expectations - 1)

  module _ (same_args : List V → List V → Bool) where
    unfoldable pub was_called_with : Text → Text → List V → MockStore V → Bool
    was_called_with m method args s =
        any_of (λ (r : MockCallRecord V). is_call_of m method r && same_args r.args args) s.calls

    -- The two `continue` of the search.
    unfoldable pub answers : Text → Text → List V → MockExpectation V → Bool
    answers m method args e =
        (text_eq e.module_name m && text_eq e.method method)
        && (e.match_any_args || same_args e.expected_args args)

    abbrev pub value_or : Text → Text → List V → Option (MockExpectation V) → V → V
    value_or m method args none rest = rest
    value_or m method args (some e) rest = if answers m method args e then e.return_value else rest

    -- The search, below index `i`.
    unfoldable pub answer_below : V → ℕ → Text → Text → List V → List (MockExpectation V) → V
    answer_below invalid zero m method args es = invalid
    answer_below invalid (suc i) m method args es =
        value_or m method args (entry_at i es) (answer_below invalid i m method args es)

    -- `recordAndReturn`
    unfoldable pub record_and_return : V → Text → Text → List V → MockStore V → V × MockStore V
    record_and_return invalid m method args s = (
      answer_below invalid (length s.expectations) m method args s.expectations,
      record s { calls = s.calls ++ record { module_name = m; method = method; args = args } ∷ [] },
    )
