-- ===== src/Message/Parsed.antt =====
-- Decoding a message of cpp/implementations/plain/json_mapping.cpp after `dump` and `parse`.
use logos_protocol.Base.{
  ℕ, Bool, true, false, Option, some, List, [], ◌∷◌, Text, codes, ◌≡◌, refl, subst, All,
  Option-cases, inl, inr, arith, text_discrete, text_eq, text_lt, if_pos, if_neg, Bool-cases,
}
use logos_protocol.Json.{
  Json, Items, Fields, pos, negsuc, as_parsed, items_as_parsed, fields_as_parsed,
}
use logos_protocol.Json.Objects.{
  set_key, find_key, find_key-as_parsed-some, find_key-as_parsed-none,
}
use logos_protocol.Value.Mapping.{list_to_json}
use logos_protocol.Value.Canonical.{IsCanonicalList}
use logos_protocol.Value.RoundTrip.{
  InRange, InRangeItems, InRangeFields, json_to_value-as_parsed, items_to_list-as_parsed,
  value_to_json-InRange, list_to_json-InRange,
}
use logos_protocol.Wire.Framing.{MessageType}
use logos_protocol.Message.{MethodMetadata, AnyMessage, ResultMessage, MethodsResultMessage}
use logos_protocol.Message.Mapping.{
  message_fields, args_to_json, method_to_json, methods_to_json, value_string, value_bool,
  value_uint64, method_from_json, methods_from_json, fields_to_message, as_string, as_bool,
  as_uint64, as_args, as_value, as_methods, result_rest, methods_result_rest, with_caller,
  result_fields, methods_result_fields,
}
use logos_protocol.Message.RoundTrip.{IsCanonicalMessage, IsCanonicalResult, IsCanonicalMethods}

InRange-find_key :
    (k : Text) (fs : Fields) (j : Json) → InRangeFields fs → find_key k fs ≡ some j → InRange j
unfolding find_key
InRange-find_key k Fields.end j h e = cc
InRange-find_key k (Fields.field i x fs) j h e = elim (text_discrete i k) [
  | yes p ↦ let same : x ≡ j = ground arith in subst InRange same h.0
  | no p ↦ InRange-find_key k fs j h.1 (ground arith)
]

-- Reading a key whose reader cannot tell a value from its parsed form.
find_key-reads :
    {A : Type 0} (k : Text) (fs : Fields) (read : Option Json → A)
    → InRangeFields fs
    → ((j : Json) → InRange j → read (some (as_parsed j)) ≡ read (some j))
    → read (find_key k (fields_as_parsed fs)) ≡ read (find_key k fs)
find_key-reads k fs read h same = elim (Option-cases (find_key k fs)) [
  | inl e ↦ rw (e, find_key-as_parsed-none k fs e)
  | inr (j, e) ↦ rw (e, find_key-as_parsed-some k j fs e) (same j (InRange-find_key k fs j h e))
]

as_string-as_parsed : (j : Json) → as_string (some (as_parsed j)) ≡ as_string (some j)
unfolding as_parsed
as_string-as_parsed (Json.number_integer (pos n)) = refl
as_string-as_parsed (Json.number_integer (negsuc n)) = refl
as_string-as_parsed _ = refl

as_bool-as_parsed : (b : Bool) (j : Json) → as_bool b (some (as_parsed j)) ≡ as_bool b (some j)
unfolding as_parsed
as_bool-as_parsed b (Json.number_integer (pos n)) = refl
as_bool-as_parsed b (Json.number_integer (negsuc n)) = refl
as_bool-as_parsed b _ = refl

as_uint64-as_parsed :
    (f : ℕ → ℕ) (j : Json) → as_uint64 f (some (as_parsed j)) ≡ as_uint64 f (some j)
unfolding as_parsed
as_uint64-as_parsed f (Json.number_integer (pos n)) = refl
as_uint64-as_parsed f (Json.number_integer (negsuc n)) = refl
as_uint64-as_parsed f _ = refl

as_args-as_parsed : (j : Json) → InRange j → as_args (some (as_parsed j)) ≡ as_args (some j)
unfolding as_parsed
as_args-as_parsed (Json.array xs) h = items_to_list-as_parsed xs h
as_args-as_parsed (Json.number_integer (pos n)) h = refl
as_args-as_parsed (Json.number_integer (negsuc n)) h = refl
as_args-as_parsed _ h = refl

as_value-as_parsed : (j : Json) → InRange j → as_value (some (as_parsed j)) ≡ as_value (some j)
as_value-as_parsed j h = json_to_value-as_parsed j h

module _ (fs : Fields) (h : InRangeFields fs) where
  value_string-as_parsed : (k : Text) → value_string k (fields_as_parsed fs) ≡ value_string k fs
  unfolding value_string
  value_string-as_parsed k = find_key-reads k fs as_string h (λ j _. as_string-as_parsed j)

  value_bool-as_parsed :
      (k : Text) (b : Bool) → value_bool k b (fields_as_parsed fs) ≡ value_bool k b fs
  unfolding value_bool
  value_bool-as_parsed k b = find_key-reads k fs (as_bool b) h (λ j _. as_bool-as_parsed b j)

  value_uint64-as_parsed :
      (f : ℕ → ℕ) (k : Text) → value_uint64 f k (fields_as_parsed fs) ≡ value_uint64 f k fs
  unfolding value_uint64
  value_uint64-as_parsed f k = find_key-reads k fs (as_uint64 f) h (λ j _. as_uint64-as_parsed f j)

  args-as_parsed : (k : Text) → as_args (find_key k (fields_as_parsed fs)) ≡ as_args (find_key k fs)
  args-as_parsed k = find_key-reads k fs as_args h as_args-as_parsed

  value-as_parsed :
      (k : Text) → as_value (find_key k (fields_as_parsed fs)) ≡ as_value (find_key k fs)
  value-as_parsed k = find_key-reads k fs as_value h as_value-as_parsed

  method_from_json-as_fields :
      method_from_json (Json.object (fields_as_parsed fs)) ≡ method_from_json (Json.object fs)
  unfolding method_from_json
  method_from_json-as_fields = simp (value_string-as_parsed, value_bool-as_parsed, args-as_parsed)

method_from_json-as_parsed :
    (j : Json) → InRange j → method_from_json (as_parsed j) ≡ method_from_json j
unfolding as_parsed method_from_json
method_from_json-as_parsed (Json.object fs) h = method_from_json-as_fields fs h
method_from_json-as_parsed (Json.number_integer (pos n)) h = refl
method_from_json-as_parsed (Json.number_integer (negsuc n)) h = refl
method_from_json-as_parsed _ h = refl

methods_from_json-as_parsed :
    (xs : Items) → InRangeItems xs → methods_from_json (items_as_parsed xs) ≡ methods_from_json xs
unfolding methods_from_json as_parsed
methods_from_json-as_parsed Items.nil h = refl
methods_from_json-as_parsed (Items.cons j js) h =
    rw (method_from_json-as_parsed j h.0, methods_from_json-as_parsed js h.1)

as_methods-as_parsed :
    (j : Json) → InRange j → as_methods (some (as_parsed j)) ≡ as_methods (some j)
unfolding as_parsed
as_methods-as_parsed (Json.array xs) h = methods_from_json-as_parsed xs h
as_methods-as_parsed (Json.number_integer (pos n)) h = refl
as_methods-as_parsed (Json.number_integer (negsuc n)) h = refl
as_methods-as_parsed _ h = refl

module _ (f : ℕ → ℕ) (fs : Fields) (h : InRangeFields fs) where
  ok_flag :
      (t : Bool) → value_bool (codes "ok") t (fields_as_parsed fs) ≡ value_bool (codes "ok") t fs
  ok_flag t = value_bool-as_parsed fs h (codes "ok") t

  result_rest-as_parsed :
      (id : ℕ) (good : Bool)
      → result_rest f id good (fields_as_parsed fs) ≡ result_rest f id good fs
  result_rest-as_parsed id true = rw (value-as_parsed fs h (codes "value"))
  result_rest-as_parsed id false = simp (value_string-as_parsed fs h)

  methods_result_rest-as_parsed :
      (id : ℕ) (good : Bool)
      → methods_result_rest f id good (fields_as_parsed fs) ≡ methods_result_rest f id good fs
  methods_result_rest-as_parsed id true =
      rw (find_key-reads (codes "methods") fs as_methods h as_methods-as_parsed)
  methods_result_rest-as_parsed id false = simp (value_string-as_parsed fs h)

  pub fields_to_message-as_parsed :
      (t : MessageType) → fields_to_message f t (fields_as_parsed fs) ≡ fields_to_message f t fs
  unfolding fields_to_message
  fields_to_message-as_parsed MessageType.result =
      simp (value_bool-as_parsed fs h, value_uint64-as_parsed fs h, result_rest-as_parsed)
  fields_to_message-as_parsed MessageType.methods_result =
      simp (value_bool-as_parsed fs h, value_uint64-as_parsed fs h, methods_result_rest-as_parsed)
  fields_to_message-as_parsed _ =
      simp (value_string-as_parsed fs h, value_uint64-as_parsed fs h, args-as_parsed fs h)

set_key-InRange :
    (k : Text) (j : Json) (fs : Fields)
    → InRange j
    → InRangeFields fs
    → InRangeFields (set_key k j fs)
unfolding set_key
set_key-InRange k j Fields.end h hs = (h, tt)
set_key-InRange k j (Fields.field i x fs) h hs = elim (text_discrete i k) [
  | yes p ↦ rw (if_pos (text_discrete i k) p) (h, hs.1)
  | no p ↦ rw (if_neg (text_discrete i k) p) (elim (Bool-cases (text_lt k i)) [
    | inl e ↦ rw e (h, hs)
    | inr e ↦ rw e (hs.0, set_key-InRange k j fs h hs.1)
  ])
]

with_caller-InRange :
    (caller : Text) (fs : Fields) → InRangeFields fs → InRangeFields (with_caller caller fs)
with_caller-InRange [] fs h = h
with_caller-InRange (c ∷ cs) fs h = set_key-InRange (codes "caller") (Json.string (c ∷ cs)) fs tt h

result_fields-InRange :
    (good : Bool) (m : ResultMessage) (fs : Fields)
    → IsCanonicalResult good m
    → InRangeFields fs
    → InRangeFields (result_fields good m fs)
result_fields-InRange true m fs c h =
    set_key-InRange (codes "value") _ fs (value_to_json-InRange m.value c.0) h
result_fields-InRange false m fs c h =
    set_key-InRange (codes "errCode") (Json.string m.err_code) _ tt
      (set_key-InRange (codes "err") (Json.string m.err) fs tt h)

method_to_json-InRange :
    (m : MethodMetadata) → IsCanonicalList m.parameters → InRange (method_to_json m)
unfolding method_to_json
method_to_json-InRange m c =
    set_key-InRange (codes "parameters") (Json.array (list_to_json m.parameters)) _
      (list_to_json-InRange m.parameters c)
      (set_key-InRange (codes "isInvokable") (Json.boolean m.is_invokable) _ tt (
        set_key-InRange (codes "returnType") (Json.string m.return_type) _ tt (
          set_key-InRange (codes "signature") (Json.string m.signature) _ tt
            (set_key-InRange (codes "name") (Json.string m.name) Fields.end tt tt))))

methods_to_json-InRange :
    (ms : List MethodMetadata)
    → All (λ (d : MethodMetadata). IsCanonicalList d.parameters) ms
    → InRangeItems (methods_to_json ms)
unfolding methods_to_json
methods_to_json-InRange [] c = tt
methods_to_json-InRange (m ∷ ms) c = (method_to_json-InRange m c.0, methods_to_json-InRange ms c.1)

methods_result_fields-InRange :
    (good : Bool) (m : MethodsResultMessage) (fs : Fields)
    → IsCanonicalMethods good m
    → InRangeFields fs
    → InRangeFields (methods_result_fields good m fs)
methods_result_fields-InRange true m fs c h =
    set_key-InRange (codes "methods") (Json.array (methods_to_json m.methods)) fs
      (methods_to_json-InRange m.methods c.0) h
methods_result_fields-InRange false m fs c h =
    set_key-InRange (codes "err") (Json.string m.err) fs tt h

-- The fields of a canonical message have no number that parsing would change the meaning of.
pub message_fields-InRange :
    (m : AnyMessage) → IsCanonicalMessage m → InRangeFields (message_fields m)
unfolding message_fields args_to_json set_key text_discrete text_eq text_lt
message_fields-InRange (AnyMessage.call m) c =
    with_caller-InRange m.caller _ (list_to_json-InRange m.args c, (tt, (tt, (tt, (tt, tt)))))
message_fields-InRange (AnyMessage.result m) c = result_fields-InRange m.ok m _ c (tt, (tt, tt))
message_fields-InRange (AnyMessage.event m) c = (list_to_json-InRange m.args c, (tt, (tt, tt)))
message_fields-InRange (AnyMessage.methods_result m) c =
    methods_result_fields-InRange m.ok m _ c (tt, (tt, tt))
message_fields-InRange (AnyMessage.subscribe m) c = (tt, (tt, tt))
message_fields-InRange (AnyMessage.unsubscribe m) c = (tt, (tt, tt))
message_fields-InRange (AnyMessage.token m) c = (tt, (tt, (tt, tt)))
message_fields-InRange (AnyMessage.methods m) c = (tt, (tt, (tt, tt)))
