-- ===== src/Base/Sets.antt =====
-- `QSet<QString>` as a list of texts: `contains`, `insert` and `remove`.
use mathlib.Core.Path.{◌≡◌}
use mathlib.Core.Bool.{Bool, true, false}
use mathlib.Core.List.{List, [], ◌∷◌}
use native.Mathlib.Omega.{arith}
use logos_protocol.Base.Tests.{if◌then◌else◌}
use logos_protocol.Base.Lists.{any_of}
use logos_protocol.Base.Strings.{Text, text_eq, text_eq_refl}

unfoldable pub contains : Text → List Text → Bool
contains x xs = any_of (λ y. text_eq y x) xs

unfoldable pub include : Text → List Text → List Text
include x xs = if contains x xs then xs else x ∷ xs

unfoldable pub exclude : Text → List Text → List Text
exclude x [] = []
exclude x (y ∷ ys) = let rest = exclude x ys in if text_eq y x then rest else y ∷ rest

pub contains-include :
    (x y : Text) (xs : List Text) → contains x xs ≡ true → contains x (include y xs) ≡ true
unfolding contains include
contains-include x y xs h = ground (arith, h)

pub contains-include_self : (x : Text) (xs : List Text) → contains x (include x xs) ≡ true
unfolding contains include
contains-include_self x xs = ground (arith, text_eq_refl x)

-- A name that was not added is not in.
pub contains-include_ne :
    (x y : Text) (xs : List Text) → text_eq y x ≡ false → contains x (include y xs) ≡ contains x xs
unfolding contains include
contains-include_ne x y xs h = ground (arith, h)
