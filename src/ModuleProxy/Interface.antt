-- ===== src/ModuleProxy/Interface.antt =====
-- What the proxy tells of a module's interface (cpp/module_proxy.cpp).
use logos_protocol.Base.{
  ◌≡◌, refl, sym, ap, ◌∙◌, ◌&&◌, if◌then◌else◌, Bool, true, false, ◌||◌, some, List, [], ◌∷◌, ◌++◌,
  append_assoc, append-nil, Text, codes, text_eq, text_eq_refl, text_key, arith, Bool-cases, inl,
  inr,
}
use logos_protocol.ModuleProxy.Dispatch.{
  JsonValues, Provider, is_event, filter_interface, lists, identity_entry, advertise,
  provider_interface, get_plugin_interface, get_plugin_methods, get_plugin_events,
}

module _ {J : Type 0} (js : JsonValues J) where
  filter_interface-append :
      (b : Bool) (xs ys : List J)
      → filter_interface js b (xs ++ ys) ≡ filter_interface js b xs ++ filter_interface js b ys
  unfolding filter_interface
  filter_interface-append b [] ys = refl
  filter_interface-append b (x ∷ xs) ys = ground (arith, filter_interface-append b xs ys)

  -- An object of the list has the name, read off its entry "name".
  pub named : Text → List J → Bool
  named name [] = false
  named name (v ∷ vs) =
      js.is_object v && text_eq (js.text_of (js.value (codes "name") v)) name || named name vs

  lists-eq-named : (xs : List J) (name : Text) → lists js xs name ≡ named name xs
  unfolding lists named
  lists-eq-named [] name = refl
  lists-eq-named (x ∷ xs) name =
      ap (λ b. js.is_object x && text_eq (js.text_of (js.value (codes "name") x)) name || b)
        (lists-eq-named xs name)

  named-append :
      (xs ys : List J) (name : Text) → named name (xs ++ ys) ≡ named name xs || named name ys
  unfolding named
  named-append [] ys name = refl
  named-append (x ∷ xs) ys name = ground (arith, named-append xs ys name)

  entry_named :
      (name desc other : Text) → named other (identity_entry js name desc ∷ []) ≡ text_eq name other
  unfolding named text_eq
  entry_named name desc other =
      rw
        (
          js.is_object-of_entries _,
          js.value-of_entries (codes "name") (js.of_text name) [] _ refl,
          js.text_of-of_text name,
        )
        (or_false (text_eq name other))
    where
      or_false : (b : Bool) → b || false ≡ b
      or_false b = ground arith

  entry_method : (name desc : Text) → is_event js (identity_entry js name desc) ≡ false
  unfolding is_event text_eq
  entry_method name desc =
      rw
        (
          js.value-of_entries (codes "type") (js.of_text (codes "method"))
              ((codes "name", js.of_text name) ∷ []) _ refl,
          js.text_of-of_text (codes "method"),
        )
        refl

  -- The method that an identity adds, unless one of that name is there.
  abbrev pub missing : Text → Text → List J → List J
  missing name desc xs = if named name xs then [] else identity_entry js name desc ∷ []

  advertise-missing :
      (name desc : Text) (xs : List J) → advertise js name desc xs ≡ xs ++ missing name desc xs
  unfolding advertise
  advertise-missing name desc xs = elim (Bool-cases (named name xs)) [
    | inl e ↦ rw (lists-eq-named xs name, e) (sym (append-nil xs))
    | inr e ↦ rw (lists-eq-named xs name, e) refl
  ]

  named-missing : (name desc : Text) (xs : List J) → named name (xs ++ missing name desc xs) ≡ true
  named-missing name desc xs = elim (Bool-cases (named name xs)) [
    | inl e ↦ rw (e, append-nil xs) e
    | inr e ↦ rw (e, named-append, entry_named, text_eq_refl name) (ground arith)
  ]

  -- A method of another name does not add to the ones of this name.
  named-missing_other :
      (name other desc : Text) (xs : List J)
      → text_eq name other ≡ false
      → named other (xs ++ missing name desc xs) ≡ named other xs
  named-missing_other name other desc xs h = elim (Bool-cases (named name xs)) [
    | inl e ↦ rw (e, append-nil xs) refl
    | inr e ↦ rw (e, named-append, entry_named, h) (ground arith)
  ]

  missing_methods :
      (name desc : Text) (xs : List J)
      → (filter_interface js true (missing name desc xs) ≡ [])
        × (filter_interface js false (missing name desc xs) ≡ missing name desc xs)
  unfolding filter_interface
  missing_methods name desc xs = elim (Bool-cases (named name xs)) [
    | inl e ↦ rw (e) (refl, refl)
    | inr e ↦ rw (e, entry_method name desc) (refl, refl)
  ]

  abbrev pub name_described : Text
  name_described = codes "The module's name, as declared in its metadata."

  abbrev pub version_described : Text
  version_described = codes "The module's version, as declared in its metadata."

  -- What the provider's list lacks of the two methods that tell a module's identity.
  abbrev pub missing_identity : List J → List J
  missing_identity xs =
      missing (codes "name") name_described xs ++ missing (codes "version") version_described xs

  provider_interface-missing :
      {V S : Type 0} (p : Provider V J S) (s : S)
      → provider_interface js p s ≡ p.methods s ++ missing_identity (p.methods s)
  unfolding provider_interface text_eq
  provider_interface-missing p s =
      let given : List J = p.methods s in
      rw
        (
          advertise-missing (codes "name") name_described given,
          advertise-missing (codes "version") version_described,
          named-missing_other (codes "name") (codes "version") name_described given refl,
        )
        (append_assoc given (missing (codes "name") name_described given) _)

  -- The interface that the proxy shows is the provider's list, and after it an entry for "name" if
  -- no object of the list has that name, and one for "version" if none has that; so both are named
  -- in it. The events that it shows are the provider's, and the methods are the other entries of the
  -- provider's list and the ones added.
  pub get_plugin_interface-identity :
      {V S : Type 0} (p : Provider V J S) (s : S)
      → let given = p.methods s in
        let iface = get_plugin_interface js (some p) s in
        (iface ≡ given ++ missing_identity given)
        × (named (codes "name") iface ≡ true)
        × (named (codes "version") iface ≡ true)
        × (get_plugin_events js (some p) s ≡ filter_interface js true given)
        × (get_plugin_methods js (some p) s
            ≡ filter_interface js false given ++ missing_identity given)
  unfolding get_plugin_interface get_plugin_events get_plugin_methods text_eq
  get_plugin_interface-identity p s =
      let given : List J = p.methods s in
      let a : List J = missing (codes "name") name_described given in
      let b : List J = missing (codes "version") version_described given in
      let shown = provider_interface-missing p s in
      let first = missing_methods (codes "name") name_described given in
      let second = missing_methods (codes "version") version_described given in
      (
        shown,
        ap (named (codes "name")) (shown ∙ sym (append_assoc given a b))
            ∙ named-append (given ++ a) b (codes "name")
            ∙ ap (λ t. t || named (codes "name") b)
                (named-missing (codes "name") name_described given),
        ap (named (codes "version")) shown
            ∙ named-append given (a ++ b) (codes "version")
            ∙ ap (λ t. named (codes "version") given || t) (named-append a b (codes "version"))
            ∙ or_swap (named (codes "version") given) (named (codes "version") a)
                (named (codes "version") b)
            ∙ ap (λ t. named (codes "version") a || t)
                (sym (named-append given b (codes "version"))
                  ∙ named-missing (codes "version") version_described given)
            ∙ or_true (named (codes "version") a),
        ap (filter_interface js true) shown
            ∙ filter_interface-append true given (a ++ b)
            ∙ rw (filter_interface-append true a b, first.0, second.0)
                (append-nil (filter_interface js true given)),
        ap (filter_interface js false) shown
            ∙ filter_interface-append false given (a ++ b)
            ∙ rw (filter_interface-append false a b, first.1, second.1) refl,
      )
    where
      or_swap : (x y z : Bool) → x || (y || z) ≡ y || (x || z)
      or_swap x y z = ground arith

      or_true : (x : Bool) → x || true ≡ true
      or_true x = ground arith
