-- ===== src/Base/Weights.antt =====
-- Maps whose keys stand once, and the sum of a weight of their values.
use Prim.Native.Nat.{ℕ, ◌+◌}
use mathlib.Core.Path.{◌≡◌, refl, sym, ◌∙◌}
use mathlib.Core.Logic.{if_pos, if_neg}
use mathlib.Core.List.{List, [], ◌∷◌}
use mathlib.Core.Option.{Option, none, some}
use native.Mathlib.Omega.{arith}
unfoldable use logos_protocol.Base.Strings.{Text, text_discrete}
unfoldable use logos_protocol.Base.Assoc.{lookup, put, erase, text_key}
use logos_protocol.Base.Assoc.{lookup-put_ne}

module _ {V : Type 0} where
  -- The sum of `f` over the values.
  unfoldable pub weigh : (V → ℕ) → List (Text × V) → ℕ
  weigh f [] = 0
  weigh f ((k, v) ∷ m) = f v + weigh f m

  unfoldable pub weigh_found : (V → ℕ) → Option V → ℕ
  weigh_found f none = 0
  weigh_found f (some v) = f v

  unfoldable pub KeysOnce : List (Text × V) → Type 0
  KeysOnce [] = Unit
  KeysOnce ((k, v) ∷ m) = (lookup k m ≡ none) × KeysOnce m

  pub weigh-put :
      (f : V → ℕ) (k : Text) (v : V) (m : List (Text × V))
      → weigh f (put k v m) + weigh_found f (lookup k m) ≡ weigh f m + f v
  unfolding weigh weigh_found put lookup
  weigh-put f k v [] = omega arith
  weigh-put f k v ((j, w) ∷ m) = ground (arith, weigh-put f k v m)

  weigh-erase_absent :
      (f : V → ℕ) (k : Text) (m : List (Text × V))
      → lookup k m ≡ none
      → weigh f (erase k m) ≡ weigh f m
  unfolding weigh erase lookup
  weigh-erase_absent f k [] h = refl
  weigh-erase_absent f k ((j, w) ∷ m) h = ground (arith, h, weigh-erase_absent f k m)

  pub weigh-erase :
      (f : V → ℕ) (k : Text) (v : V) (m : List (Text × V))
      → KeysOnce m
      → lookup k m ≡ some v
      → weigh f (erase k m) + f v ≡ weigh f m
  unfolding weigh erase lookup KeysOnce
  weigh-erase f k v [] o h = cc
  weigh-erase f k v ((j, w) ∷ m) o h =
      ground (arith, h, weigh-erase f k v m o.1, weigh-erase_absent f j m o.0)

  lookup-erase_absent :
      (j k : Text) (m : List (Text × V)) → lookup j m ≡ none → lookup j (erase k m) ≡ none
  unfolding lookup erase
  lookup-erase_absent j k [] h = h
  lookup-erase_absent j k ((i, w) ∷ m) h = ground (arith, h, lookup-erase_absent j k m)

  pub KeysOnce-put : (k : Text) (v : V) (m : List (Text × V)) → KeysOnce m → KeysOnce (put k v m)
  unfolding KeysOnce put lookup
  KeysOnce-put k v [] o = (refl, o)
  KeysOnce-put k v ((j, w) ∷ m) o = elim (text_discrete j k) [
    | yes p ↦ rw (if_pos _ p) (rw (← p) o.0, o.1)
    | no p ↦ rw (if_neg _ p) (lookup-put_ne k j v m (λ e. p (sym e)) ∙ o.0, KeysOnce-put k v m o.1)
  ]

  pub KeysOnce-erase : (k : Text) (m : List (Text × V)) → KeysOnce m → KeysOnce (erase k m)
  unfolding KeysOnce erase
  KeysOnce-erase k [] o = o
  KeysOnce-erase k ((j, w) ∷ m) o = elim (text_discrete j k) [
    | yes p ↦ rw (if_pos _ p) (KeysOnce-erase k m o.1)
    | no p ↦ rw (if_neg _ p) (lookup-erase_absent j k m o.0, KeysOnce-erase k m o.1)
  ]
