-- ===== src/Message/Mapping.antt =====
-- Messages to JSON and back: cpp/implementations/plain/json_mapping.cpp. `o[k] = v` is `set_key`,
-- the later assignment outside; `j.value(k, d)` gives the default for a missing key and throws on a
-- value of another type.
use logos_protocol.Base.{
  ℕ, ◌-◌, ◌^◌, Bool, true, false, Option, none, some, List, [], ◌∷◌, Text, codes, if◌then◌else◌,
  ◌==◌,
}
use logos_protocol.Json.{Json, Items, Fields, pos, negsuc}
use logos_protocol.Json.Objects.{set_key, find_key}
use logos_protocol.Value.{RpcValue, RpcList}
use logos_protocol.Value.Mapping.{
  CodecError, Result, ok, err, ◌>>=◌, value_to_json, list_to_json, json_to_value, items_to_list,
}
use logos_protocol.Wire.Framing.{MessageType}
use logos_protocol.Message.{MethodMetadata, ResultMessage, MethodsResultMessage, AnyMessage}

-- `methodToJson`
unfoldable pub method_to_json : MethodMetadata → Json
method_to_json m = Json.object (
    set_key (codes "parameters") (Json.array (list_to_json m.parameters)) (
      set_key (codes "isInvokable") (Json.boolean m.is_invokable) (
        set_key (codes "returnType") (Json.string m.return_type) (
          set_key (codes "signature") (Json.string m.signature)
            (set_key (codes "name") (Json.string m.name) Fields.end)))))

unfoldable pub methods_to_json : List MethodMetadata → Items
methods_to_json [] = Items.nil
methods_to_json (m ∷ ms) = Items.cons (method_to_json m) (methods_to_json ms)

-- `argsToJson`
unfoldable pub args_to_json : RpcList → Json
args_to_json args = Json.array (list_to_json args)

abbrev pub with_caller : Text → Fields → Fields
with_caller [] o = o
with_caller (c ∷ cs) o = set_key (codes "caller") (Json.string (c ∷ cs)) o

abbrev pub result_fields : Bool → ResultMessage → Fields → Fields
result_fields true m o = set_key (codes "value") (value_to_json m.value) o
result_fields false m o =
    set_key (codes "errCode") (Json.string m.err_code) (set_key (codes "err") (Json.string m.err) o)

abbrev pub methods_result_fields : Bool → MethodsResultMessage → Fields → Fields
methods_result_fields true m o =
    set_key (codes "methods") (Json.array (methods_to_json m.methods)) o
methods_result_fields false m o = set_key (codes "err") (Json.string m.err) o

unfoldable pub message_fields : AnyMessage → Fields
message_fields (AnyMessage.call m) = with_caller m.caller (
    set_key (codes "args") (args_to_json m.args) (
      set_key (codes "method") (Json.string m.method) (
        set_key (codes "object") (Json.string m.object) (
          set_key (codes "authToken") (Json.string m.auth_token)
            (set_key (codes "id") (Json.number_unsigned m.id) Fields.end)))))
message_fields (AnyMessage.result m) = result_fields m.ok m (
    set_key (codes "ok") (Json.boolean m.ok)
      (set_key (codes "id") (Json.number_unsigned m.id) Fields.end))
message_fields (AnyMessage.subscribe m) =
    set_key (codes "event") (Json.string m.event_name)
      (set_key (codes "object") (Json.string m.object) Fields.end)
message_fields (AnyMessage.unsubscribe m) =
    set_key (codes "event") (Json.string m.event_name)
      (set_key (codes "object") (Json.string m.object) Fields.end)
message_fields (AnyMessage.event m) = set_key (codes "data") (args_to_json m.args) (
    set_key (codes "event") (Json.string m.event_name)
      (set_key (codes "object") (Json.string m.object) Fields.end))
message_fields (AnyMessage.token m) = set_key (codes "token") (Json.string m.token) (
    set_key (codes "moduleName") (Json.string m.module_name)
      (set_key (codes "authToken") (Json.string m.auth_token) Fields.end))
message_fields (AnyMessage.methods m) = set_key (codes "object") (Json.string m.object) (
    set_key (codes "authToken") (Json.string m.auth_token)
      (set_key (codes "id") (Json.number_unsigned m.id) Fields.end))
message_fields (AnyMessage.methods_result m) = methods_result_fields m.ok m (
    set_key (codes "ok") (Json.boolean m.ok)
      (set_key (codes "id") (Json.number_unsigned m.id) Fields.end))

-- `messageToJson`
unfoldable pub message_to_json : AnyMessage → Json
message_to_json m = Json.object (message_fields m)

abbrev pub as_string : Option Json → Result Text
as_string none = ok []
as_string (some (Json.string s)) = ok s
as_string (some _) = err CodecError.json_type_error

abbrev pub as_bool : Bool → Option Json → Result Bool
as_bool default none = ok default
as_bool default (some (Json.boolean b)) = ok b
as_bool default (some _) = err CodecError.json_type_error

-- `argsFromJson` of `j[k]`, where the key is there; nothing is read from what is no array.
abbrev pub as_args : Option Json → Result RpcList
as_args (some (Json.array xs)) = items_to_list xs
as_args _ = ok RpcList.nil

abbrev pub as_value : Option Json → Result RpcValue
as_value none = ok RpcValue.null
as_value (some j) = json_to_value j

unfoldable pub value_string : Text → Fields → Result Text
value_string k fs = as_string (find_key k fs)

unfoldable pub value_bool : Text → Bool → Fields → Result Bool
value_bool k default fs = as_bool default (find_key k fs)

-- `methodFromJson`: `value` throws on what is no object.
unfoldable pub method_from_json : Json → Result MethodMetadata
method_from_json (Json.object fs) = do
  name ← value_string (codes "name") fs
  signature ← value_string (codes "signature") fs
  return_type ← value_string (codes "returnType") fs
  is_invokable ← value_bool (codes "isInvokable") true fs
  parameters ← as_args (find_key (codes "parameters") fs)
  ok (record {
    name = name;
    signature = signature;
    return_type = return_type;
    is_invokable = is_invokable;
    parameters = parameters;
  })
method_from_json _ = err CodecError.json_type_error

unfoldable pub methods_from_json : Items → Result (List MethodMetadata)
methods_from_json Items.nil = ok []
methods_from_json (Items.cons j js) = do
  m ← method_from_json j
  ms ← methods_from_json js
  ok (m ∷ ms)

abbrev pub as_methods : Option Json → Result (List MethodMetadata)
as_methods (some (Json.array xs)) = methods_from_json xs
as_methods _ = ok []

-- The conversion of a double's bits by `get<uint64_t>` is the library's.
module _ (float_to_uint64 : ℕ → ℕ) where
  abbrev pub as_uint64 : Option Json → Result ℕ
  as_uint64 none = ok 0
  as_uint64 (some (Json.number_unsigned n)) = ok n
  as_uint64 (some (Json.number_integer (pos n))) = ok n
  as_uint64 (some (Json.number_integer (negsuc n))) = ok (2 ^ 64 - 1 - n)
  as_uint64 (some (Json.number_float d)) = ok (float_to_uint64 d)
  as_uint64 (some _) = err CodecError.json_type_error

  unfoldable pub value_uint64 : Text → Fields → Result ℕ
  value_uint64 k fs = as_uint64 (find_key k fs)

  abbrev pub result_rest : ℕ → Bool → Fields → Result AnyMessage
  result_rest id true fs = do
    value ← as_value (find_key (codes "value") fs)
    ok (AnyMessage.result (record { id = id; ok = true; value = value; err = []; err_code = [] }))
  result_rest id false fs = do
    e ← value_string (codes "err") fs
    code ← value_string (codes "errCode") fs
    ok (
        AnyMessage.result
          (record { id = id; ok = false; value = RpcValue.null; err = e; err_code = code }))

  abbrev pub methods_result_rest : ℕ → Bool → Fields → Result AnyMessage
  methods_result_rest id true fs = do
    ms ← as_methods (find_key (codes "methods") fs)
    ok (AnyMessage.methods_result (record { id = id; ok = true; methods = ms; err = [] }))
  methods_result_rest id false fs = do
    e ← value_string (codes "err") fs
    ok (AnyMessage.methods_result (record { id = id; ok = false; methods = []; err = e }))

  -- The `switch` of `jsonToMessage`.
  unfoldable pub fields_to_message : MessageType → Fields → Result AnyMessage
  fields_to_message MessageType.call fs = do
    id ← value_uint64 (codes "id") fs
    auth_token ← value_string (codes "authToken") fs
    object ← value_string (codes "object") fs
    method ← value_string (codes "method") fs
    caller ← value_string (codes "caller") fs
    args ← as_args (find_key (codes "args") fs)
    ok (
        AnyMessage.call (record {
          id = id;
          auth_token = auth_token;
          object = object;
          method = method;
          args = args;
          caller = caller;
        }))
  fields_to_message MessageType.result fs = do
    id ← value_uint64 (codes "id") fs
    good ← value_bool (codes "ok") false fs
    result_rest id good fs
  fields_to_message MessageType.subscribe fs = do
    object ← value_string (codes "object") fs
    event_name ← value_string (codes "event") fs
    ok (AnyMessage.subscribe (record { object = object; event_name = event_name }))
  fields_to_message MessageType.unsubscribe fs = do
    object ← value_string (codes "object") fs
    event_name ← value_string (codes "event") fs
    ok (AnyMessage.unsubscribe (record { object = object; event_name = event_name }))
  fields_to_message MessageType.event fs = do
    object ← value_string (codes "object") fs
    event_name ← value_string (codes "event") fs
    args ← as_args (find_key (codes "data") fs)
    ok (AnyMessage.event (record { object = object; event_name = event_name; args = args }))
  fields_to_message MessageType.token fs = do
    auth_token ← value_string (codes "authToken") fs
    module_name ← value_string (codes "moduleName") fs
    token ← value_string (codes "token") fs
    ok (
        AnyMessage.token
          (record { auth_token = auth_token; module_name = module_name; token = token }))
  fields_to_message MessageType.methods fs = do
    id ← value_uint64 (codes "id") fs
    auth_token ← value_string (codes "authToken") fs
    object ← value_string (codes "object") fs
    ok (AnyMessage.methods (record { id = id; auth_token = auth_token; object = object }))
  fields_to_message MessageType.methods_result fs = do
    id ← value_uint64 (codes "id") fs
    good ← value_bool (codes "ok") false fs
    methods_result_rest id good fs

  -- `jsonToMessage`. The tag is the byte of the frame, cast to the enum whatever it is.
  unfoldable pub json_to_message : ℕ → Json → Result AnyMessage
  json_to_message tag (Json.object fs) =
      if tag == 1
      then fields_to_message MessageType.call fs
      else if tag == 2
      then fields_to_message MessageType.result fs
      else if tag == 3
      then fields_to_message MessageType.subscribe fs
      else if tag == 4
      then fields_to_message MessageType.unsubscribe fs
      else if tag == 5
      then fields_to_message MessageType.event fs
      else if tag == 6
      then fields_to_message MessageType.token fs
      else if tag == 7
      then fields_to_message MessageType.methods fs
      else if tag == 8
      then fields_to_message MessageType.methods_result fs
      else err CodecError.unknown_tag
  json_to_message tag _ = err CodecError.expected_object
