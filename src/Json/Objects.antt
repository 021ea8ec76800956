-- ===== src/Json/Objects.antt =====
-- Objects of `nlohmann::json` as `std::map`: `j[k] = v`, `contains` and `find`, by key.
use logos_protocol.Base.{
  ◌≡◌, refl, ◌≢◌, true, false, Option, none, some, Text, text_lt, text_lt_irrefl, text_lt_trans,
  text_discrete, ite, if_neg, ap, if◌then◌else◌, arith, Bool-cases, inl, inr,
}
use logos_protocol.Json.{Json, Fields, end, field, fields_as_parsed, as_parsed}

-- `j[k] = v`
unfoldable pub set_key : Text → Json → Fields → Fields
set_key k v end = field k v end
set_key k v (field j w fs) =
    ite (text_discrete j k) (field k v fs)
      (if text_lt k j then field k v (field j w fs) else field j w (set_key k v fs))

-- `j.find(k)`, for `contains`, `value` and `j[k]` of a constant.
unfoldable pub find_key : Text → Fields → Option Json
find_key k end = none
find_key k (field j w fs) = ite (text_discrete j k) (some w) (find_key k fs)

pub find_key-set_key_self :
    (k : Text) (v : Json) (fs : Fields) → find_key k (set_key k v fs) ≡ some v
unfolding find_key set_key
find_key-set_key_self k v end = ground arith
find_key-set_key_self k v (field j w fs) = ground (arith, find_key-set_key_self k v fs)

pub find_key-set_key_ne :
    (k j : Text) (v : Json) (fs : Fields) → k ≢ j → find_key j (set_key k v fs) ≡ find_key j fs
unfolding find_key set_key
find_key-set_key_ne k j v end h = ground arith
find_key-set_key_ne k j v (field i w fs) h = ground (arith, find_key-set_key_ne k j v fs)

-- Strictly sorted by key, as the entries of a `std::map` are.
abbrev pub Above : Text → Fields → Type 0
Above k end = Unit
Above k (field j w fs) = text_lt k j ≡ true

abbrev pub IsSorted : Fields → Type 0
IsSorted end = Unit
IsSorted (field k w fs) = Above k fs × IsSorted fs

abbrev pub append_fields : Fields → Fields → Fields
append_fields end gs = gs
append_fields (field k w fs) gs = field k w (append_fields fs gs)

first_below_last :
    (j k : Text) (v : Json) (fs : Fields)
    → Above j (append_fields fs (field k v end))
    → IsSorted (append_fields fs (field k v end))
    → text_lt j k ≡ true
first_below_last j k v end h s = h
first_below_last j k v (field i w fs) h s =
    text_lt_trans j i k h (first_below_last i k v fs s.0 s.1)

not_above : (j k : Text) → text_lt j k ≡ true → text_lt k j ≡ false
not_above j k h = elim (Bool-cases (text_lt k j)) [
  | inl e ↦ cc (text_lt_trans j k j h e, text_lt_irrefl j)
  | inr e ↦ e
]

-- A key above all others goes to the end.
pub set_key-last :
    (k : Text) (v : Json) (fs : Fields)
    → IsSorted (append_fields fs (field k v end))
    → set_key k v fs ≡ append_fields fs (field k v end)
unfolding set_key
set_key-last k v end h = refl
set_key-last k v (field j w fs) h =
    let below = first_below_last j k v fs h.0 h.1 in
    rw (if_neg (text_discrete j k) (λ e. cc (text_lt_irrefl k, rw e at below)), not_above j k below)
      (ap (field j w) (set_key-last k v fs h.1))

pub find_key-as_parsed-some :
    (k : Text) (v : Json) (fs : Fields)
    → find_key k fs ≡ some v
    → find_key k (fields_as_parsed fs) ≡ some (as_parsed v)
unfolding find_key as_parsed
find_key-as_parsed-some k v end e = cc
find_key-as_parsed-some k v (field j w fs) e = ground (arith, find_key-as_parsed-some k v fs)

pub find_key-as_parsed-none :
    (k : Text) (fs : Fields) → find_key k fs ≡ none → find_key k (fields_as_parsed fs) ≡ none
unfolding find_key as_parsed
find_key-as_parsed-none k end e = refl
find_key-as_parsed-none k (field j w fs) e = ground (arith, find_key-as_parsed-none k fs)
