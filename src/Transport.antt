-- ===== src/Transport.antt =====
-- The transports of a module as text (cpp/logos_transport_config.h,
-- cpp/logos_transport_config_json.cpp).
--
-- `write` and `read` are nlohmann's `dump` and `parse`, and `float_to_int` its conversion of a double
-- to `int`. An exception that leaves the reader is an error value.
pub mod RoundTrip
use logos_protocol.Base.{
  ℕ, ◌-◌, ◌%◌, ◌^◌, Bool, true, false, not, ◌&&◌, ◌||◌, Option, none, some, List, [], ◌∷◌, ◌++◌,
  Text, codes, text_eq, ltb, leb, ◌==◌, if◌then◌else◌,
}
use logos_protocol.Json.{ℤ, pos, negsuc, Json, Items, Fields}
use logos_protocol.Json.Objects.{set_key, find_key}
use logos_protocol.Value.Mapping.{CodecError, Result, ok, err, ◌>>=◌}
use logos_protocol.Message.Web.{int_bits}
use logos_protocol.Tokens.{is_empty}

pub data LogosProtocol : Type 0 where
  local_socket tcp tcp_ssl web : LogosProtocol

pub data LogosWireCodec : Type 0 where
  json cbor : LogosWireCodec

-- A port is less than 2^16.
pub record LogosTransportConfig : Type 0 where
  pub protocol : LogosProtocol
  pub host : Text
  pub port : ℕ
  pub ca_file : Text
  pub cert_file : Text
  pub key_file : Text
  pub verify_peer : Bool
  pub codec : LogosWireCodec

abbrev pub default_host : Text
default_host = codes "127.0.0.1"

unfoldable pub protocol_to_string : LogosProtocol → Text
protocol_to_string local_socket = codes "local"
protocol_to_string tcp = codes "tcp"
protocol_to_string tcp_ssl = codes "tcp_ssl"
protocol_to_string web = codes "web"

unfoldable pub protocol_from_string : Text → LogosProtocol
protocol_from_string s =
    if text_eq s (codes "tcp")
    then tcp
    else if text_eq s (codes "tcp_ssl")
    then tcp_ssl
    else if text_eq s (codes "web")
    then web
    else local_socket

unfoldable pub codec_to_string : LogosWireCodec → Text
codec_to_string cbor = codes "cbor"
codec_to_string json = codes "json"

unfoldable pub codec_from_string : Text → LogosWireCodec
codec_from_string s = if text_eq s (codes "cbor") then cbor else json

unfoldable pub same_protocol : LogosProtocol → LogosProtocol → Bool
same_protocol local_socket local_socket = true
same_protocol tcp tcp = true
same_protocol tcp_ssl tcp_ssl = true
same_protocol web web = true
same_protocol _ _ = false

unfoldable pub same_codec : LogosWireCodec → LogosWireCodec → Bool
same_codec json json = true
same_codec cbor cbor = true
same_codec _ _ = false

unfoldable pub same_flag : Bool → Bool → Bool
same_flag true b = b
same_flag false b = not b

-- `operator==`
unfoldable pub same_config : LogosTransportConfig → LogosTransportConfig → Bool
same_config a b =
    same_protocol a.protocol b.protocol
    && (a.port == b.port)
    && same_flag a.verify_peer b.verify_peer
    && same_codec a.codec b.codec
    && text_eq a.host b.host
    && text_eq a.ca_file b.ca_file
    && text_eq a.cert_file b.cert_file
    && text_eq a.key_file b.key_file

-- `o[key] = path`, unless it is empty.
unfoldable pub set_path : Text → Text → Fields → Fields
set_path key path o = if is_empty path then o else set_key key (Json.string path) o

unfoldable pub set_address : LogosTransportConfig → Fields → Fields
set_address cfg o = set_key (codes "codec") (Json.string (codec_to_string cfg.codec)) (
    set_key (codes "port") (Json.number_unsigned cfg.port)
      (set_key (codes "host") (Json.string cfg.host) o))

unfoldable pub set_tls : LogosTransportConfig → Fields → Fields
set_tls cfg o = set_key (codes "verify_peer") (Json.boolean cfg.verify_peer) (
    set_path (codes "key_file") cfg.key_file
      (set_path (codes "cert_file") cfg.cert_file (set_path (codes "ca_file") cfg.ca_file o)))

-- The body of the writer's loop.
unfoldable pub config_to_fields : LogosTransportConfig → Fields
config_to_fields cfg =
    let o = set_key (codes "protocol") (Json.string (protocol_to_string cfg.protocol)) Fields.end in
    let addressed =
      if not (same_protocol cfg.protocol local_socket) && not (same_protocol cfg.protocol web)
      then set_address cfg o
      else o in
    if same_protocol cfg.protocol tcp_ssl then set_tls cfg addressed else addressed

unfoldable pub set_to_items : List LogosTransportConfig → Items
set_to_items [] = Items.nil
set_to_items (cfg ∷ set) = Items.cons (Json.object (config_to_fields cfg)) (set_to_items set)

-- `o.value(key, default)` for a string, a truth value and an `int`, of which the 32 bits are kept.
abbrev pub string_or : Text → Option Json → Result Text
string_or default none = ok default
string_or default (some (Json.string s)) = ok s
string_or default (some _) = err CodecError.json_type_error

abbrev pub bool_or : Bool → Option Json → Result Bool
bool_or default none = ok default
bool_or default (some (Json.boolean b)) = ok b
bool_or default (some _) = err CodecError.json_type_error

-- An `int` that is negative has its highest bit set.
unfoldable pub bad_port : ℕ → Bool
bad_port bits = leb (2 ^ 31) bits || ltb 65535 bits

module _ (float_to_int : ℕ → ℤ) where
  abbrev pub int_or : ℕ → Option Json → Result ℕ
  int_or default none = ok default
  int_or default (some (Json.number_unsigned n)) = ok (int_bits (pos n))
  int_or default (some (Json.number_integer i)) = ok (int_bits i)
  int_or default (some (Json.number_float d)) = ok (int_bits (float_to_int d))
  int_or default (some (Json.boolean b)) = ok (if b then 1 else 0)
  int_or default (some _) = err CodecError.json_type_error

  -- The rest of an entry, once its port is known.
  unfoldable pub rest_of_config : Text → Text → ℕ → Fields → Result LogosTransportConfig
  rest_of_config protocol host port o = do
    codec ← string_or (codes "json") (find_key (codes "codec") o)
    ca_file ← string_or [] (find_key (codes "ca_file") o)
    cert_file ← string_or [] (find_key (codes "cert_file") o)
    key_file ← string_or [] (find_key (codes "key_file") o)
    verify_peer ← bool_or true (find_key (codes "verify_peer") o)
    ok (record {
      protocol = protocol_from_string protocol;
      host = host;
      port = port;
      ca_file = ca_file;
      cert_file = cert_file;
      key_file = key_file;
      verify_peer = verify_peer;
      codec = codec_from_string codec;
    })

  abbrev pub one_config : Result LogosTransportConfig → Result (List LogosTransportConfig)
  one_config r = do cfg ← r; ok (cfg ∷ [])

  -- The body of the reader's loop: no configuration, one, or an exception.
  unfoldable pub config_of : Json → Result (List LogosTransportConfig)
  config_of (Json.object o) = do
    protocol ← string_or (codes "local") (find_key (codes "protocol") o)
    host ← string_or default_host (find_key (codes "host") o)
    raw_port ← int_or 0 (find_key (codes "port") o)
    if bad_port raw_port then ok [] else one_config (rest_of_config protocol host raw_port o)
  config_of _ = ok []

  unfoldable pub configs_of : Items → Result (List LogosTransportConfig)
  configs_of Items.nil = ok []
  configs_of (Items.cons o rest) = do cfg ← config_of o; cfgs ← configs_of rest; ok (cfg ++ cfgs)

  abbrev pub set_of : Option Json → Result (List LogosTransportConfig)
  set_of (some (Json.array items)) = configs_of items
  set_of _ = ok []

  -- `transportSetFromJsonString`
  unfoldable pub transport_set_from_json_string :
      (Text → Option Json) → Text → Result (List LogosTransportConfig)
  transport_set_from_json_string read text = if is_empty text then ok [] else set_of (read text)

-- `transportSetToJsonString`
unfoldable pub transport_set_to_json_string : (Json → Text) → List LogosTransportConfig → Text
transport_set_to_json_string write set = write (Json.array (set_to_items set))
