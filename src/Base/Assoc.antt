-- ===== src/Base/Assoc.antt =====
-- Maps as association lists: the entries of a `std::map`, `QHash` or `QSet`, in some order. `put`
-- writes in place or at the end, `erase` drops every entry of the key.
use Prim.Native.Nat.{ℕ}
use mathlib.Core.Path.{◌≡◌, refl}
use mathlib.Core.Logic.{◌≢◌, ite, if_pos, if_neg}
use mathlib.Core.List.{List, [], ◌∷◌}
use mathlib.Core.Option.{Option, none, some}
use native.Mathlib.Omega.{arith}
use native.Mathlib.Decide.{ℕ_discrete}
use logos_protocol.Base.Strings.{Text, text_discrete}

-- Keys are compared by a decision.
pub record Eq {ℓ} (K : Type ℓ) : Type ℓ where
  pub dec : Discrete K

instance abbrev pub nat_eq : Eq ℕ
nat_eq = record { dec = ℕ_discrete }

instance abbrev pub text_key : Eq Text
text_key = record { dec = text_discrete }

module _ {ℓ} {K V : Type ℓ} ⦃e : Eq K⦄ where
  unfoldable pub lookup : K → List (K × V) → Option V
  lookup k [] = none
  lookup k ((j, v) ∷ m) = ite (e.dec j k) (some v) (lookup k m)

  unfoldable pub put : K → V → List (K × V) → List (K × V)
  put k v [] = (k, v) ∷ []
  put k v ((j, w) ∷ m) = ite (e.dec j k) ((k, v) ∷ m) ((j, w) ∷ put k v m)

  unfoldable pub erase : K → List (K × V) → List (K × V)
  erase k [] = []
  erase k ((j, w) ∷ m) = ite (e.dec j k) (erase k m) ((j, w) ∷ erase k m)

  pub lookup-put_self : (k : K) (v : V) (m : List (K × V)) → lookup k (put k v m) ≡ some v
  unfolding lookup put
  lookup-put_self k v [] = ground arith
  lookup-put_self k v ((j, w) ∷ m) = ground (arith, lookup-put_self k v m)

  pub lookup-put_ne :
      (k j : K) (v : V) (m : List (K × V)) → k ≢ j → lookup j (put k v m) ≡ lookup j m
  unfolding lookup put
  lookup-put_ne k j v [] h = ground arith
  lookup-put_ne k j v ((i, w) ∷ m) h = ground (arith, lookup-put_ne k j v m)

  pub lookup-erase_self : (k : K) (m : List (K × V)) → lookup k (erase k m) ≡ none
  unfolding lookup erase
  lookup-erase_self k [] = refl
  lookup-erase_self k ((j, w) ∷ m) = ground (arith, lookup-erase_self k m)

  pub lookup-erase_ne : (k j : K) (m : List (K × V)) → k ≢ j → lookup j (erase k m) ≡ lookup j m
  unfolding lookup erase
  lookup-erase_ne k j [] h = refl
  lookup-erase_ne k j ((i, w) ∷ m) h = ground (arith, lookup-erase_ne k j m)

  pub lookup-put :
      (k j : K) (v : V) (m : List (K × V))
      → lookup j (put k v m) ≡ ite (e.dec k j) (some v) (lookup j m)
  lookup-put k j v m = elim (e.dec k j) [
    | yes p ↦ rw (if_pos _ p) (rw (← p) (lookup-put_self k v m))
    | no p ↦ rw (if_neg _ p) (lookup-put_ne k j v m p)
  ]

  pub lookup-erase :
      (k j : K) (m : List (K × V)) → lookup j (erase k m) ≡ ite (e.dec k j) none (lookup j m)
  lookup-erase k j m = elim (e.dec k j) [
    | yes p ↦ rw (if_pos _ p) (rw (← p) (lookup-erase_self k m))
    | no p ↦ rw (if_neg _ p) (lookup-erase_ne k j m p)
  ]
