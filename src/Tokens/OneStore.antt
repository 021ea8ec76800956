-- ===== src/Tokens/OneStore.antt =====
-- Which store an identity is answered with over a history of the registry, and what a new one holds
-- (cpp/token_manager.cpp).
use logos_protocol.Base.{
  ℕ, refl, nat_eq, Option, some, contains, contains-include, contains-include_self,
  contains-include_ne, ◌≡◌, sym, ap, ◌∙◌, true, false, none, List, [], ◌∷◌, Text, text_eq_iff,
  text_key, lookup, arith, lookup-put_self, Bool-cases, inl, inr, ◌⊎◌,
}
use logos_protocol.Tokens.{is_empty, adopt_credential, clear_all_tokens, save_token}
use logos_protocol.Tokens.Registry.{
  Registry, found_or_new, shared, private_store, for_identity, isolate_identity,
  adopt_credential_for, reset_identity,
}
use logos_protocol.Tokens.Kept.{
  IsVended, IsPrivate, for_identity-stores, for_identity-isolated, for_identity-vended,
  found_or_new-isolated, change_private-IsPrivate, change_private-IsVended,
}

-- What a host and its clients do with the registry.
pub data Operation : Type 0 where
  ask : Text → Operation
  isolate : Text → Operation
  adopt : Text → Text → Operation
  reset : Text → Operation
  save_shared : Text → Text → Operation

unfoldable pub perform : Operation → Registry → Registry
perform (ask identity) r = (for_identity identity r).1
perform (isolate identity) r = (isolate_identity identity r).1
perform (adopt identity value) r = (adopt_credential_for identity value r).1
perform (reset identity) r = (reset_identity identity r).1
perform (save_shared key token) r = record r {
  instance_store = save_token key token r.instance_store;
}

unfoldable pub perform_all : List Operation → Registry → Registry
perform_all [] r = r
perform_all (o ∷ os) r = perform_all os (perform o r)

perform-IsPrivate :
    (x : Text) (a : ℕ) (o : Operation) (r : Registry)
    → IsPrivate x a r
    → IsPrivate x a (perform o r)
unfolding perform isolate_identity adopt_credential_for reset_identity
perform-IsPrivate x a (ask y) r h =
    (ap (contains x) (for_identity-isolated y r) ∙ h.0, for_identity-stores x y a r h.1)
perform-IsPrivate x a (isolate y) r h = ground (arith, h, contains-include x y r.isolated h.0)
perform-IsPrivate x a (adopt y v) r h =
    let c = change_private-IsPrivate (adopt_credential v) x y a r h in ground (arith, h, c)
perform-IsPrivate x a (reset y) r h =
    let c = change_private-IsPrivate clear_all_tokens x y a r h in ground (arith, h, c)
perform-IsPrivate x a (save_shared key token) r h = h

perform-IsVended :
    (x : Text) (o : Operation) (r : Registry) → IsVended x r → IsVended x (perform o r)
unfolding perform isolate_identity adopt_credential_for reset_identity
perform-IsVended x (ask y) r h =
    (for_identity-vended x y r h.0, ap (contains x) (for_identity-isolated y r) ∙ h.1)
perform-IsVended x (isolate y) r h =
    ground (arith, h, contains-include_ne x y r.isolated, text_eq_iff y x)
perform-IsVended x (adopt y v) r h =
    let c = change_private-IsVended (adopt_credential v) x y r h in ground (arith, h, c)
perform-IsVended x (reset y) r h =
    let c = change_private-IsVended clear_all_tokens x y r h in ground (arith, h, c)
perform-IsVended x (save_shared key token) r h = h

perform_all-IsPrivate :
    (x : Text) (a : ℕ) (os : List Operation) (r : Registry)
    → IsPrivate x a r
    → IsPrivate x a (perform_all os r)
unfolding perform_all
perform_all-IsPrivate x a [] r h = h
perform_all-IsPrivate x a (o ∷ os) r h =
    perform_all-IsPrivate x a os (perform o r) (perform-IsPrivate x a o r h)

perform_all-IsVended :
    (x : Text) (os : List Operation) (r : Registry) → IsVended x r → IsVended x (perform_all os r)
unfolding perform_all
perform_all-IsVended x [] r h = h
perform_all-IsVended x (o ∷ os) r h =
    perform_all-IsVended x os (perform o r) (perform-IsVended x o r h)

-- The object that the map holds is returned.
for_identity-private :
    (x : Text) (a : ℕ) (r : Registry)
    → is_empty x ≡ false
    → IsPrivate x a r
    → (for_identity x r).0 ≡ private_store a
unfolding for_identity found_or_new
for_identity-private x a r n h = rw (n, h.0, h.1) refl

found_or_new-address :
    (x : Text) (o : Option ℕ) (r : Registry)
    → lookup x r.stores ≡ o
    → (a : ℕ) × ((found_or_new x o r).0 ≡ private_store a)
      × (lookup x (found_or_new x o r).1.stores ≡ some a)
unfolding found_or_new
found_or_new-address x none r e = (r.next_store, refl, lookup-put_self x r.next_store r.stores)
found_or_new-address x (some a) r e = (a, refl, e)

-- An isolated name is answered with the object at an address that is its own from then on.
for_identity-IsPrivate :
    (x : Text) (r : Registry)
    → is_empty x ≡ false
    → contains x r.isolated ≡ true
    → (a : ℕ) × ((for_identity x r).0 ≡ private_store a) × IsPrivate x a (for_identity x r).1
unfolding for_identity
for_identity-IsPrivate x r n h =
    let (a, answer, found) = found_or_new-address x (lookup x r.stores) r refl in
    rw (n, h)
      (a, answer, (ap (contains x) (found_or_new-isolated x (lookup x r.stores) r) ∙ h, found))

for_identity-shared :
    (x : Text) (r : Registry)
    → (is_empty x ≡ true) ⊎ (contains x r.isolated ≡ false)
    → (for_identity x r).0 ≡ shared
unfolding for_identity
for_identity-shared x r h = ground (arith, h)

-- Asking for a name that was not isolated marks it as answered with the shared store.
for_identity-IsVended :
    (x : Text) (r : Registry) → contains x r.isolated ≡ false → IsVended x (for_identity x r).1
unfolding for_identity
for_identity-IsVended x r h = ground (arith, h, contains-include_self x r.vended_shared)

-- Whatever happens in between (isolations, adoptions, resets, requests for this name and others), a
-- name is answered with the same object as the first time it was asked for: the shared store, or
-- the private store at the same address.
pub for_identity_stable :
    (x : Text) (os : List Operation) (r : Registry)
    → (for_identity x (perform_all os (for_identity x r).1)).0 ≡ (for_identity x r).0
for_identity_stable x os r =
    let asked : Registry = (for_identity x r).1 in
    elim (Bool-cases (is_empty x)) [
      | inl e ↦ for_identity-shared x _ (inl e) ∙ sym (for_identity-shared x r (inl e))
      | inr n ↦ elim (Bool-cases (contains x r.isolated)) [
        | inl h ↦
            let (a, answer, own) = for_identity-IsPrivate x r n h in
            for_identity-private x a _ n (perform_all-IsPrivate x a os asked own) ∙ sym answer
        | inr h ↦
            for_identity-shared x _
              (inr (perform_all-IsVended x os asked (for_identity-IsVended x r h)).1)
            ∙ sym (for_identity-shared x r (inr h))
      ]
    ]
