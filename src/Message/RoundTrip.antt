-- ===== src/Message/RoundTrip.antt =====
-- The round trip of every message through the JSON of cpp/implementations/plain/json_mapping.cpp.
use logos_protocol.Base.{
  ℕ, Bool, true, false, List, [], ◌∷◌, Text, ◌≡◌, refl, All, text_eq, text_lt, text_discrete,
}
use logos_protocol.Json.{Json, Fields}
use logos_protocol.Json.Objects.{set_key, find_key}
use logos_protocol.Value.{RpcValue, RpcList}
use logos_protocol.Value.Mapping.{ok}
use logos_protocol.Value.Canonical.{IsCanonical, IsCanonicalList}
use logos_protocol.Value.RoundTrip.{json_to_value-value_to_json, items_to_list-list_to_json}
use logos_protocol.Wire.Framing.{MessageType, tag_byte}
use logos_protocol.Message.{
  MethodMetadata, CallMessage, ResultMessage, MethodsResultMessage, AnyMessage, message_type_of,
}
use logos_protocol.Message.Mapping.{
  message_fields, args_to_json, method_to_json, methods_to_json, value_string, value_bool,
  value_uint64, method_from_json, methods_from_json, fields_to_message, json_to_message,
}

-- The parts that a message's own kind does not send are empty, and its values are canonical.
abbrev pub IsCanonicalResult : Bool → ResultMessage → Type 0
IsCanonicalResult true m = IsCanonical m.value × (m.err ≡ []) × (m.err_code ≡ [])
IsCanonicalResult false m = m.value ≡ RpcValue.null

abbrev pub IsCanonicalMethods : Bool → MethodsResultMessage → Type 0
IsCanonicalMethods true m =
    All (λ (d : MethodMetadata). IsCanonicalList d.parameters) m.methods × (m.err ≡ [])
IsCanonicalMethods false m = m.methods ≡ []

abbrev pub IsCanonicalMessage : AnyMessage → Type 0
IsCanonicalMessage (AnyMessage.call m) = IsCanonicalList m.args
IsCanonicalMessage (AnyMessage.result m) = IsCanonicalResult m.ok m
IsCanonicalMessage (AnyMessage.event m) = IsCanonicalList m.args
IsCanonicalMessage (AnyMessage.methods_result m) = IsCanonicalMethods m.ok m
IsCanonicalMessage _ = Unit

module _ (float_to_uint64 : ℕ → ℕ) where
  call_round_trip :
      (id : ℕ) (auth_token object method : Text) (args : RpcList) (caller : Text)
      → IsCanonicalList args
      → let m : CallMessage = record {
        id = id;
        auth_token = auth_token;
        object = object;
        method = method;
        args = args;
        caller = caller;
      } in
        fields_to_message float_to_uint64 MessageType.call (message_fields (AnyMessage.call m))
        ≡ ok (AnyMessage.call m)
  unfolding fields_to_message message_fields args_to_json value_string value_uint64 set_key find_key
      text_discrete text_eq text_lt
  call_round_trip id auth_token object method args [] h = rw (items_to_list-list_to_json args h)
  call_round_trip id auth_token object method args (c ∷ cs) h =
      rw (items_to_list-list_to_json args h)

  result_round_trip :
      (id : ℕ) (good : Bool) (value : RpcValue) (e code : Text)
      → let m : ResultMessage = record {
        id = id;
        ok = good;
        value = value;
        err = e;
        err_code = code;
      } in
        IsCanonicalResult good m
        → fields_to_message float_to_uint64 MessageType.result
            (message_fields (AnyMessage.result m))
          ≡ ok (AnyMessage.result m)
  unfolding fields_to_message message_fields value_string value_bool value_uint64 set_key find_key
      text_discrete text_eq text_lt
  result_round_trip id true value e code (h, he, hc) =
      rw (json_to_value-value_to_json value h, he, hc)
  result_round_trip id false value e code h = rw h

  method_round_trip :
      (m : MethodMetadata)
      → IsCanonicalList m.parameters
      → method_from_json (method_to_json m) ≡ ok m
  unfolding method_from_json method_to_json value_string value_bool set_key find_key text_discrete
      text_eq text_lt
  method_round_trip m h = rw (items_to_list-list_to_json m.parameters h)

  methods_round_trip :
      (ms : List MethodMetadata)
      → All (λ (d : MethodMetadata). IsCanonicalList d.parameters) ms
      → methods_from_json (methods_to_json ms) ≡ ok ms
  unfolding methods_from_json methods_to_json
  methods_round_trip [] h = refl
  methods_round_trip (m ∷ ms) h = rw (method_round_trip m h.0, methods_round_trip ms h.1)

  methods_result_round_trip :
      (id : ℕ) (good : Bool) (ms : List MethodMetadata) (e : Text)
      → let m : MethodsResultMessage = record { id = id; ok = good; methods = ms; err = e } in
        IsCanonicalMethods good m
        → fields_to_message float_to_uint64 MessageType.methods_result
            (message_fields (AnyMessage.methods_result m))
          ≡ ok (AnyMessage.methods_result m)
  unfolding fields_to_message message_fields value_string value_bool value_uint64 set_key find_key
      text_discrete text_eq text_lt
  methods_result_round_trip id true ms e (h, he) = rw (methods_round_trip ms h, he)
  methods_result_round_trip id false ms e h = rw h

  pub fields_to_message-message_fields :
      (m : AnyMessage)
      → IsCanonicalMessage m
      → fields_to_message float_to_uint64 (message_type_of m) (message_fields m) ≡ ok m
  unfolding fields_to_message message_fields message_type_of args_to_json value_string value_uint64
      set_key find_key text_discrete text_eq text_lt
  fields_to_message-message_fields (AnyMessage.call m) h =
      call_round_trip m.id m.auth_token m.object m.method m.args m.caller h
  fields_to_message-message_fields (AnyMessage.result m) h =
      result_round_trip m.id m.ok m.value m.err m.err_code h
  fields_to_message-message_fields (AnyMessage.subscribe m) h = refl
  fields_to_message-message_fields (AnyMessage.unsubscribe m) h = refl
  fields_to_message-message_fields (AnyMessage.event m) h = rw (items_to_list-list_to_json m.args h)
  fields_to_message-message_fields (AnyMessage.token m) h = refl
  fields_to_message-message_fields (AnyMessage.methods m) h = refl
  fields_to_message-message_fields (AnyMessage.methods_result m) h =
      methods_result_round_trip m.id m.ok m.methods m.err h

  -- The tag byte picks the case of the `switch` that reads this kind.
  pub json_to_message-tag_byte :
      (t : MessageType) (fs : Fields)
      → json_to_message float_to_uint64 (tag_byte t) (Json.object fs)
        ≡ fields_to_message float_to_uint64 t fs
  unfolding json_to_message tag_byte
  json_to_message-tag_byte MessageType.call fs = refl
  json_to_message-tag_byte _ fs = refl
