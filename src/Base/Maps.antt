-- ===== src/Base/Maps.antt =====
-- `std::map` with an integer key, where the program visits it in the order of its keys: an
-- association list that insertion keeps in order. Base/Assoc has the maps whose order is never seen.
use Prim.Native.Nat.{ℕ, ◌+◌}
use mathlib.Core.Path.{◌≡◌, refl}
use mathlib.Core.Logic.{◌≢◌}
use mathlib.Core.List.{List, [], ◌∷◌, ◌++◌}
use mathlib.Core.Option.{none, some}
use native.Mathlib.Omega.{arith}
use logos_protocol.Base.Tests.{ltb, ◌==◌, if◌then◌else◌}
unfoldable use logos_protocol.Base.Assoc.{lookup, erase, nat_eq}

module _ {V : Type 0} where
  -- `m[k] = v`
  unfoldable pub insert : ℕ → V → List (ℕ × V) → List (ℕ × V)
  insert k v [] = (k, v) ∷ []
  insert k v ((j, w) ∷ m) =
      let rest = insert k v m in
      if ltb k j then (k, v) ∷ (j, w) ∷ m else if k == j then (k, v) ∷ m else (j, w) ∷ rest

  pub lookup-insert_self : (k : ℕ) (v : V) (m : List (ℕ × V)) → lookup k (insert k v m) ≡ some v
  unfolding lookup insert
  lookup-insert_self k v [] = ground arith
  lookup-insert_self k v ((j, w) ∷ m) = ground (arith, lookup-insert_self k v m)

  pub lookup-insert_ne :
      (k i : ℕ) (v : V) (m : List (ℕ × V)) → k ≢ i → lookup i (insert k v m) ≡ lookup i m
  unfolding lookup insert
  lookup-insert_ne k i v [] h = ground arith
  lookup-insert_ne k i v ((j, w) ∷ m) h = ground (arith, lookup-insert_ne k i v m)

  unfoldable pub keys : List (ℕ × V) → List ℕ
  keys [] = []
  keys ((k, v) ∷ m) = k ∷ keys m

  unfoldable pub values : List (ℕ × V) → List V
  values [] = []
  values ((k, v) ∷ m) = v ∷ values m

-- How often `k` occurs.
unfoldable pub count : ℕ → List ℕ → ℕ
count k [] = 0
count k (j ∷ js) = if k == j then 1 + count k js else count k js

pub count-append : (k : ℕ) (xs ys : List ℕ) → count k (xs ++ ys) ≡ count k xs + count k ys
unfolding count
count-append k [] ys = omega arith
count-append k (x ∷ xs) ys = ground (arith, count-append k xs ys)

module _ {V : Type 0} where
  pub count-keys-insert_self :
      (k : ℕ) (v : V) (m : List (ℕ × V)) → count k (keys m) ≡ 0 → count k (keys (insert k v m)) ≡ 1
  unfolding count keys insert
  count-keys-insert_self k v [] h = ground arith
  count-keys-insert_self k v ((j, w) ∷ m) h = ground (arith, count-keys-insert_self k v m)

  pub count-keys-insert_ne :
      (k i : ℕ) (v : V) (m : List (ℕ × V))
      → k ≢ i
      → count i (keys (insert k v m)) ≡ count i (keys m)
  unfolding count keys insert
  count-keys-insert_ne k i v [] h = ground arith
  count-keys-insert_ne k i v ((j, w) ∷ m) h = ground (arith, count-keys-insert_ne k i v m)

  pub count-keys-erase_self : (k : ℕ) (m : List (ℕ × V)) → count k (keys (erase k m)) ≡ 0
  unfolding count keys erase
  count-keys-erase_self k [] = refl
  count-keys-erase_self k ((j, w) ∷ m) = ground (arith, count-keys-erase_self k m)

  pub count-keys-erase_ne :
      (k i : ℕ) (m : List (ℕ × V)) → k ≢ i → count i (keys (erase k m)) ≡ count i (keys m)
  unfolding count keys erase
  count-keys-erase_ne k i [] h = refl
  count-keys-erase_ne k i ((j, w) ∷ m) h = ground (arith, count-keys-erase_ne k i m)

  -- A key that is found occurs.
  pub lookup_absent : (k : ℕ) (m : List (ℕ × V)) → count k (keys m) ≡ 0 → lookup k m ≡ none
  unfolding count keys lookup
  lookup_absent k [] h = refl
  lookup_absent k ((j, w) ∷ m) h = ground (arith, lookup_absent k m)

  pub count_absent : (k : ℕ) (m : List (ℕ × V)) → lookup k m ≡ none → count k (keys m) ≡ 0
  unfolding count keys lookup
  count_absent k [] h = refl
  count_absent k ((j, w) ∷ m) h = ground (arith, count_absent k m)
