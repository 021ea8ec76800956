-- ===== src/Message.antt =====
-- The wire messages: cpp/implementations/plain/rpc_message.{h,cpp}. A `std::vector<RpcValue>` is an
-- `RpcList`.
pub mod Mapping
pub mod RoundTrip
pub mod Parsed
pub mod Codec
pub mod Web
use logos_protocol.Base.{ℕ, Bool, List, Text}
use logos_protocol.Value.{RpcValue, RpcList}
use logos_protocol.Wire.Framing.{MessageType}

pub record MethodMetadata : Type 0 where
  pub name : Text
  pub signature : Text
  pub return_type : Text
  pub is_invokable : Bool
  pub parameters : RpcList

-- An empty `caller` is one that was not supplied.
pub record CallMessage : Type 0 where
  pub id : ℕ
  pub auth_token : Text
  pub object : Text
  pub method : Text
  pub args : RpcList
  pub caller : Text

pub record ResultMessage : Type 0 where
  pub id : ℕ
  pub ok : Bool
  pub value : RpcValue
  pub err : Text
  pub err_code : Text

pub record SubscribeMessage : Type 0 where
  pub object : Text
  pub event_name : Text

pub record UnsubscribeMessage : Type 0 where
  pub object : Text
  pub event_name : Text

pub record EventMessage : Type 0 where
  pub object : Text
  pub event_name : Text
  pub args : RpcList

pub record TokenMessage : Type 0 where
  pub auth_token : Text
  pub module_name : Text
  pub token : Text

pub record MethodsMessage : Type 0 where
  pub id : ℕ
  pub auth_token : Text
  pub object : Text

pub record MethodsResultMessage : Type 0 where
  pub id : ℕ
  pub ok : Bool
  pub methods : List MethodMetadata
  pub err : Text

pub data AnyMessage : Type 0 where
  call : CallMessage → AnyMessage
  result : ResultMessage → AnyMessage
  subscribe : SubscribeMessage → AnyMessage
  unsubscribe : UnsubscribeMessage → AnyMessage
  event : EventMessage → AnyMessage
  token : TokenMessage → AnyMessage
  methods : MethodsMessage → AnyMessage
  methods_result : MethodsResultMessage → AnyMessage

unfoldable pub message_type_of : AnyMessage → MessageType
message_type_of (call m) = MessageType.call
message_type_of (result m) = MessageType.result
message_type_of (subscribe m) = MessageType.subscribe
message_type_of (unsubscribe m) = MessageType.unsubscribe
message_type_of (event m) = MessageType.event
message_type_of (token m) = MessageType.token
message_type_of (methods m) = MessageType.methods
message_type_of (methods_result m) = MessageType.methods_result
