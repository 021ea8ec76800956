-- ===== src/Tokens/Kept.antt =====
-- What the registry keeps of a name while other names are asked for and stores change
-- (cpp/token_manager.cpp).
use logos_protocol.Base.{
  ℕ, refl, nat_eq, put, Option, some, lookup-put_ne, contains, contains-include, ◌≡◌, ap, ◌∙◌, true,
  false, none, List, Text, text_key, lookup, arith,
}
use logos_protocol.Tokens.{TokenManager}
use logos_protocol.Tokens.Registry.{
  Registry, StoreRef, found_or_new, shared, private_store, for_identity, change_private,
}

-- A name answered with the shared store, and one answered with the private store at an address.
abbrev pub IsVended : Text → Registry → Type 0
IsVended x r = (contains x r.vended_shared ≡ true) × (contains x r.isolated ≡ false)

abbrev pub IsPrivate : Text → ℕ → Registry → Type 0
IsPrivate x a r = (contains x r.isolated ≡ true) × (lookup x r.stores ≡ some a)

-- A name that is not in the map yet is put beside the ones that are.
lookup-put_new :
    (x y : Text) (a b : ℕ) (m : List (Text × ℕ))
    → lookup x m ≡ some a
    → lookup y m ≡ none
    → lookup x (put y b m) ≡ some a
lookup-put_new x y a b m h n =
    lookup-put_ne y x b m (λ same. absent (ap (λ k. lookup k m) same ∙ h)) ∙ h
  where
    absent : lookup y m ≡ some a → ⊥
    absent p = cc

found_or_new-stores :
    (x y : Text) (a : ℕ) (o : Option ℕ) (r : Registry)
    → lookup y r.stores ≡ o
    → lookup x r.stores ≡ some a
    → lookup x (found_or_new y o r).1.stores ≡ some a
unfolding found_or_new
found_or_new-stores x y a none r e h = lookup-put_new x y a r.next_store r.stores h e
found_or_new-stores x y a (some b) r e h = h

-- Whatever name is asked for, a name that has a store keeps it.
pub for_identity-stores :
    (x y : Text) (a : ℕ) (r : Registry)
    → lookup x r.stores ≡ some a
    → lookup x (for_identity y r).1.stores ≡ some a
unfolding for_identity
for_identity-stores x y a r h =
    let kept = found_or_new-stores x y a (lookup y r.stores) r refl h in ground (arith, h, kept)

pub found_or_new-isolated :
    (y : Text) (o : Option ℕ) (r : Registry) → (found_or_new y o r).1.isolated ≡ r.isolated
unfolding found_or_new
found_or_new-isolated y none r = refl
found_or_new-isolated y (some a) r = refl

pub for_identity-isolated : (x : Text) (r : Registry) → (for_identity x r).1.isolated ≡ r.isolated
unfolding for_identity
for_identity-isolated x r =
    let same = found_or_new-isolated x (lookup x r.stores) r in ground (arith, same)

found_or_new-vended :
    (y : Text) (o : Option ℕ) (r : Registry)
    → (found_or_new y o r).1.vended_shared ≡ r.vended_shared
unfolding found_or_new
found_or_new-vended y none r = refl
found_or_new-vended y (some a) r = refl

pub for_identity-vended :
    (x y : Text) (r : Registry)
    → contains x r.vended_shared ≡ true
    → contains x (for_identity y r).1.vended_shared ≡ true
unfolding for_identity
for_identity-vended x y r h =
    let same = ap (contains x) (found_or_new-vended y (lookup y r.stores) r) ∙ h in
    ground (arith, same, contains-include x y r.vended_shared h)

-- A change of a private store leaves the sets and the addresses as they are.
change_private_same :
    (f : TokenManager → TokenManager) (s : StoreRef) (r : Registry)
    → let q = (change_private f (s, r)).1 in
      (q.isolated ≡ r.isolated) × (q.vended_shared ≡ r.vended_shared) × (q.stores ≡ r.stores)
unfolding change_private
change_private_same f shared r = (refl, refl, refl)
change_private_same f (private_store a) r = (refl, refl, refl)

-- So it is like asking for the name.
pub change_private-IsPrivate :
    (f : TokenManager → TokenManager) (x y : Text) (a : ℕ) (r : Registry)
    → IsPrivate x a r
    → IsPrivate x a (change_private f (for_identity y r)).1
change_private-IsPrivate f x y a r h =
    let c = change_private_same f (for_identity y r).0 (for_identity y r).1 in
    (
      ap (contains x) (c.0 ∙ for_identity-isolated y r) ∙ h.0,
      ap (λ m. lookup x m) c.2 ∙ for_identity-stores x y a r h.1,
    )

pub change_private-IsVended :
    (f : TokenManager → TokenManager) (x y : Text) (r : Registry)
    → IsVended x r
    → IsVended x (change_private f (for_identity y r)).1
change_private-IsVended f x y r h =
    let c = change_private_same f (for_identity y r).0 (for_identity y r).1 in
    (
      ap (contains x) c.1 ∙ for_identity-vended x y r h.0,
      ap (contains x) (c.0 ∙ for_identity-isolated y r) ∙ h.1,
    )
