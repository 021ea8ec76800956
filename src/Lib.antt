-- ===== src/Lib.antt =====
-- The protocol library of Logos (cpp/): processes call each other's modules and receive each other's
-- events over message connections, with tokens that say who may call whom. This development models
-- its core and proves what makes it correct.
--
-- The parts, from the wire upward:
--
-- - Wire/Framing: frames with a 32-bit length and a tag byte, and the reader that gets them back
--   from chunks of a stream (cpp/implementations/plain/rpc_framing.{h,cpp}, the read loop of
--   rpc_connection.h). A buffer is a list of bytes.
-- - Codec/Base64: the two decoders and the encoder of cpp/logos_codec.h.
-- - Json: the values of nlohmann::json that the program uses, with the fields of an object sorted
--   by key. Doubles are their 64-bit patterns, on which the program computes nothing.
-- - Value: the dynamically typed values of the wire (rpc_value.h) and their JSON form
--   (json_mapping.cpp). Value/Canonical says which values cross unchanged: all but a map whose only
--   entry is "_bytes" with a string, which JSON cannot tell from bytes, integers in another
--   representation than `makeInteger` gives them, and maps with unsorted or duplicate keys. It does
--   not look at doubles that are not finite, which are written as null, nor at strings that are not
--   UTF-8, for which the writer throws: `JsonBytes.Writable` leaves these out.
-- - Message: the messages (rpc_message.h), their JSON form (json_mapping.cpp), the JSON and CBOR
--   codecs (json_codec.cpp, cbor_codec.cpp) and the web transport's codec
--   (cpp/implementations/web/web_message_codec.cpp).
-- - Peer: the connection's bookkeeping (rpc_peer.{h,cpp}). An operation maps the state to the new
--   state and a list of effects (a handler invoked, a message emitted). `perform_all` of
--   Peer/Subscriptions runs histories of subscriptions, and Peer/Race is a step relation on the
--   interleavings of `sendCallAsync`, `fail`, replies and cancellations, cut where the code holds
--   neither the mutex nor does one atomic access. The invocation of a handler that was extracted is
--   no step of its own: which thread extracts it decides who invokes it.
-- - Host: the dispatch side of the plain transport (plain_transport_host.cpp): the published objects
--   and the event sinks by object, event and connection. What runs in an object's thread is an
--   effect, and its reply is a function of what the object answers.
-- - Tokens: the token store and the registry of stores by identity (token_manager.{h,cpp}), each
--   operation one step under its mutex. The stores of the registry are objects in a heap, named by
--   their addresses.
-- - ModuleProxy: who may call a module (cpp/module_proxy.cpp): the constant-time comparison, the
--   scan of the issued tokens and the authorization. `utf8` is `QString::toUtf8`; the names of
--   callers go through the masked writes of `CallerFold`. ModuleProxy/Dispatch has what lies behind
--   the gate: the dispatch with the scope of its caller (logos_caller_scope.cpp), the interface that
--   the proxy shows, and the push of tokens. The module is a `Provider`: a call of one of its
--   methods may do anything to the thread, the stores and its state, and may throw; a push of a
--   token may change the same and does not throw; its lists, name and version are read off its state.
-- - Web: a message channel with its pump, and the connection over it
--   (cpp/implementations/web/in_memory_channel.cpp, web_rpc_connection.cpp). `turns` runs as many turns of
--   the pump as it is asked for.
-- - Transport: the configuration of a module's transports as JSON (logos_transport_config.h,
--   logos_transport_config_json.cpp).
-- - Mock: the expectations and recorded calls of a mocked transport (cpp/implementations/mock).
-- - Consumer/Pending: the subscriptions that wait for their module
--   (`LogosPendingSubscriptions` of logos_api_consumer.cpp): which wait, which are armed and which a
--   manual policy holds, the handles, the requests under way and the timer. `perform_all` runs
--   histories of calls, late answers and ticks, each with the world that it meets.
-- - Consumer/Objects: the handles that a consumer keeps for its calls, and the delivery of a token
--   to a module over its handshake surface or its published object (logos_api_consumer.cpp). Consumer/Uses
--   runs histories of the calls that take a handle or give one back.
-- - Client: calls to a module (logos_api_client.cpp): those that block (Client/Blocking) and those
--   with a callback (Client/Handshake, with histories of events in Client/Events), the request for
--   a token that calls to one object share, and the retry of a call whose token was refused. The
--   refusal and its recognition are in Client/Status (logos_rpc_status.h), where `Variants` is what
--   the code uses of `QVariant`.
-- - PlainObject: the client object of the plain transport (plain_logos_object.cpp): its calls with a
--   callback, the deferred answers of providers and those that are parked for calls to come.
--   `handle_all` runs histories of calls, replies, deadlines and releases, each of them one step.
--   PlainObject/Lifetime has its reference count, one atomic operation a step, and
--   PlainObject/Events its subscriptions, tokens and method list over the peer that it shares;
--   PlainObject/Blocking has its blocking calls, of which the waits are parameters.
--
-- Base holds what these share: Boolean tests on native numbers, lists, texts (lists of code units),
-- association lists, and bit operations on bytes.
--
-- What is not under cpp/ is a parameter: `JsonBytes` of Message/Codec is nlohmann::json's writer and
-- reader, with its one law that reading gives back what was written, up to the sign kind of whole
-- numbers. Every loop is by recursion on the data that it consumes, but for the loop over buffered
-- frames, which runs on fuel: more than the length of the buffer, of which a frame takes at least
-- five bytes.
--
-- Bounds: ids of subscriptions wrap at 2^64, as the counter does, and the theorems about histories
-- are for fewer than 2^64 - 1 calls. Lengths and texts are unbounded elsewhere.
--
-- Not modelled: the sockets, threads and Qt signals themselves; the write queue of a connection; the
-- reports of misuse of a plain client object and the queues that run its callbacks; the host of the
-- web transport, the Qt transports, the server, the seeding of the mock and the C interface.
pub mod Base
pub mod Wire
pub mod Codec
pub mod Json
pub mod Value
pub mod Message
pub mod Peer
pub mod Tokens
pub mod Mock
pub mod Transport
pub mod Tests
pub mod Web
pub mod Host
pub mod ModuleProxy
pub mod Consumer
pub mod Client
pub mod PlainObject
