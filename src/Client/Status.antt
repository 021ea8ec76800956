-- ===== src/Client/Status.antt =====
-- The value with which a module refuses a call for its token, and its recognition
-- (cpp/logos_rpc_status.h).
use logos_protocol.Base.{
  ◌≡◌, ◌≢◌, refl, Bool, true, false, ◌&&◌, Option, none, some, List, [], ◌∷◌, length, Text, codes,
  text_eq, text_eq_refl, text_key, lookup, text_discrete, text_eq→eq, if_pos, if_neg, sym, ◌∙◌, ◌↔◌,
  arith, Option-cases, inl, inr, ◌==◌, ap,
}

-- What the code uses of `QVariant`: the invalid one, strings, and the maps that it may hold (a
-- `QVariantMap` or a `QJsonObject`); `as_string` is the text of a value that is a string. `toString` of
-- an invalid value is empty.
pub record Variants (V : Type 0) : Type 0 where
  pub invalid : V
  pub of_string : Text → V
  pub to_string : V → Text
  pub as_string : V → Option Text
  pub of_map : List (Text × V) → V
  pub to_map : V → Option (List (Text × V))
  pub to_string-of_string : (t : Text) → to_string (of_string t) ≡ t
  pub to_string-invalid : to_string invalid ≡ []
  pub to_map-of_map : (m : List (Text × V)) → to_map (of_map m) ≡ some m
  pub to_map-invalid : to_map invalid ≡ none

abbrev pub status_key : Text
status_key = codes "__logos_rpc_status__"

abbrev pub status_unauthorized : Text
status_unauthorized = codes "unauthorized"

module _ {V : Type 0} (q : Variants V) where
  unfoldable pub make_unauthorized_sentinel : V
  make_unauthorized_sentinel = q.of_map ((status_key, q.of_string status_unauthorized) ∷ [])

  -- `m.value(key)`
  abbrev pub or_invalid : Option V → V
  or_invalid none = q.invalid
  or_invalid (some v) = v

  abbrev pub is_sentinel_map : Option (List (Text × V)) → Bool
  is_sentinel_map none = false
  is_sentinel_map (some m) =
      (length m == 1)
      && text_eq (q.to_string (or_invalid (lookup status_key m))) status_unauthorized

  unfoldable pub is_unauthorized_sentinel : V → Bool
  is_unauthorized_sentinel v = is_sentinel_map (q.to_map v)

  pub is_unauthorized_sentinel_invalid : is_unauthorized_sentinel q.invalid ≡ false
  unfolding is_unauthorized_sentinel
  is_unauthorized_sentinel_invalid = ap is_sentinel_map q.to_map-invalid

  entry_found :
      (k : Text) (v : V)
      → k ≡ status_key
      → is_sentinel_map (some ((k, v) ∷ [])) ≡ text_eq (q.to_string v) status_unauthorized
  unfolding lookup
  entry_found k v p = rw (if_pos _ p) refl

  entry_missed : (k : Text) (v : V) → k ≢ status_key → is_sentinel_map (some ((k, v) ∷ [])) ≡ false
  unfolding lookup text_eq
  entry_missed k v p = rw (if_neg _ p, q.to_string-invalid) refl

  only_entry :
      (m : List (Text × V))
      → is_sentinel_map (some m) ≡ true
      → (v : V) × (m ≡ (status_key, v) ∷ []) × (q.to_string v ≡ status_unauthorized)
  only_entry [] h = absurd (ground (arith, h))
  only_entry ((k, v) ∷ []) h = elim (text_discrete k status_key) [
    | yes p ↦ (v, ap (λ (j : Text). (j, v) ∷ []) p, text_eq→eq _ _ (sym (entry_found k v p) ∙ h))
    | no p ↦ absurd (ground (arith, h, entry_missed k v p))
  ]
  only_entry ((k, v) ∷ (j, w) ∷ m) h = absurd (ground (arith, h))

  -- A value is taken for a refusal exactly if it is a map whose only entry is the status with the
  -- text "unauthorized".
  pub is_unauthorized_sentinel_iff :
      (v : V)
      → (is_unauthorized_sentinel v ≡ true) ↔ (
          (x : V) × (q.to_map v ≡ some ((status_key, x) ∷ []))
          × (q.to_string x ≡ status_unauthorized))
  unfolding is_unauthorized_sentinel
  is_unauthorized_sentinel_iff v = (
    λ h. elim (Option-cases (q.to_map v)) [
      | inl e ↦ absurd (cc ((ap is_sentinel_map (sym e) ∙ h)))
      | inr (m, e) ↦
          let (x, p, t) = only_entry m (ap is_sentinel_map (sym e) ∙ h) in
          (x, e ∙ ap (λ (n : List (Text × V)). some n) p, t)
    ],
    λ (x, p, t).
        ap is_sentinel_map p
        ∙ entry_found status_key x refl
        ∙ rw t (text_eq_refl status_unauthorized),
  )
