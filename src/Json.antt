-- ===== src/Json.antt =====
-- The values of `nlohmann::json` that the source tests with `is_null`, `is_string` and so on: the
-- kinds of its documented value type, with an object as a `std::map`, sorted by key. A double is
-- the 64 bits of its pattern, since the code only carries it. Texts and CBOR are no part of this:
-- `dump` and `parse` are parameters where they are used.
pub mod Objects
use logos_protocol.Base.{ℕ, Bool, true, false, List, [], ◌∷◌, Option, none, some, Text}

-- `negsuc n` is -(n + 1).
pub data ℤ : Type 0 where
  pos : ℕ → ℤ
  negsuc : ℕ → ℤ

mutual
  pub data Json : Type 0 where
    null : Json
    boolean : Bool → Json
    number_integer : ℤ → Json
    number_unsigned : ℕ → Json
    number_float : ℕ → Json
    string : Text → Json
    array : Items → Json
    object : Fields → Json
    binary : List ℕ → Json

  pub data Items : Type 0 where
    nil : Items
    cons : Json → Items → Items

  pub data Fields : Type 0 where
    end : Fields
    field : Text → Json → Fields → Fields

-- What reading a dumped value gives where the writer accepts the value, which is to say that its
-- doubles are finite and its strings UTF-8: the same value, but a whole number that is not negative
-- comes back as `number_unsigned`, whichever of the two kinds was dumped.
unfoldable mutual
  pub as_parsed : Json → Json
  as_parsed null = null
  as_parsed (boolean b) = boolean b
  as_parsed (number_integer (pos n)) = number_unsigned n
  as_parsed (number_integer (negsuc n)) = number_integer (negsuc n)
  as_parsed (number_unsigned n) = number_unsigned n
  as_parsed (number_float d) = number_float d
  as_parsed (string s) = string s
  as_parsed (array xs) = array (items_as_parsed xs)
  as_parsed (object fs) = object (fields_as_parsed fs)
  as_parsed (binary b) = binary b

  pub items_as_parsed : Items → Items
  items_as_parsed nil = nil
  items_as_parsed (cons x xs) = cons (as_parsed x) (items_as_parsed xs)

  pub fields_as_parsed : Fields → Fields
  fields_as_parsed end = end
  fields_as_parsed (field k x fs) = field k (as_parsed x) (fields_as_parsed fs)
