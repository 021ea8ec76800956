-- ===== src/Transport/RoundTrip.antt =====
-- The transports of a module, written and read again (cpp/logos_transport_config_json.cpp).
use logos_protocol.Base.{
  ℕ, ◌^◌, ◌≡◌, ◌<◌, refl, Bool, true, false, Option, some, List, [], ◌∷◌, map, All, Text, codes,
  text_eq, text_discrete, text_lt, arith,
}
use logos_protocol.Json.{ℤ, pos, Json, as_parsed, items_as_parsed}
use logos_protocol.Json.Objects.{set_key, find_key}
use logos_protocol.Value.Mapping.{ok}
use logos_protocol.Message.Web.{int_bits}
use logos_protocol.Tokens.{is_empty}
use logos_protocol.Transport.{
  LogosProtocol, local_socket, tcp, tcp_ssl, web, LogosWireCodec, json, cbor, LogosTransportConfig,
  default_host, protocol_to_string, protocol_from_string, codec_to_string, codec_from_string,
  same_protocol, set_path, set_address, set_tls, config_to_fields, set_to_items, bad_port,
  rest_of_config, config_of, configs_of, transport_set_from_json_string,
  transport_set_to_json_string,
}

-- What the writer keeps of a configuration. Of a local or a web transport it writes the protocol
-- alone, so that host, port and codec are the defaults when it is read; without TLS it writes neither
-- the paths of the certificates, which are read as empty, nor `verify_peer`, which is read as true.
abbrev pub kept : LogosTransportConfig → LogosTransportConfig
kept cfg = elim cfg.protocol [
  | tcp ↦ record cfg { ca_file = []; cert_file = []; key_file = []; verify_peer = true }
  | tcp_ssl ↦ cfg
  | _ ↦ record {
    protocol = cfg.protocol;
    host = default_host;
    port = 0;
    ca_file = [];
    cert_file = [];
    key_file = [];
    verify_peer = true;
    codec = json;
  }
]

port_bits : (n : ℕ) → n < 2 ^ 16 → int_bits (pos n) ≡ n
unfolding int_bits
port_bits n h = omega arith

port_fits : (n : ℕ) → n < 2 ^ 16 → bad_port n ≡ false
unfolding bad_port
port_fits n h = ground arith

codec_known : (c : LogosWireCodec) → codec_from_string (codec_to_string c) ≡ c
unfolding codec_from_string codec_to_string text_eq
codec_known json = refl
codec_known cbor = refl

unnamed_codec : codec_from_string (codes "json") ≡ json
unfolding codec_from_string text_eq
unnamed_codec = refl

module _ (float_to_int : ℕ → ℤ) where
  config_round_trip :
      (p : LogosProtocol) (codec : LogosWireCodec) (host ca cert key : Text) (port : ℕ)
      (verify : Bool)
      → port < 2 ^ 16
      → let cfg : LogosTransportConfig = record {
        protocol = p;
        host = host;
        port = port;
        ca_file = ca;
        cert_file = cert;
        key_file = key;
        verify_peer = verify;
        codec = codec;
      } in
        config_of float_to_int (as_parsed (Json.object (config_to_fields cfg))) ≡ ok (kept cfg ∷ [])
  unfolding config_of config_to_fields rest_of_config set_address set_tls set_path set_key find_key
      text_discrete text_eq text_lt as_parsed same_protocol protocol_to_string protocol_from_string
      bad_port
  config_round_trip local_socket codec host ca cert key port verify h = rw (unnamed_codec) refl
  config_round_trip tcp codec host ca cert key port verify h =
      rw (port_bits port h, port_fits port h, codec_known codec) refl
  config_round_trip tcp_ssl codec host [] [] [] port verify h =
      rw (port_bits port h, port_fits port h, codec_known codec) refl
  config_round_trip tcp_ssl codec host [] [] (z ∷ key) port verify h =
      rw (port_bits port h, port_fits port h, codec_known codec) refl
  config_round_trip tcp_ssl codec host [] (y ∷ cert) [] port verify h =
      rw (port_bits port h, port_fits port h, codec_known codec) refl
  config_round_trip tcp_ssl codec host [] (y ∷ cert) (z ∷ key) port verify h =
      rw (port_bits port h, port_fits port h, codec_known codec) refl
  config_round_trip tcp_ssl codec host (x ∷ ca) [] [] port verify h =
      rw (port_bits port h, port_fits port h, codec_known codec) refl
  config_round_trip tcp_ssl codec host (x ∷ ca) [] (z ∷ key) port verify h =
      rw (port_bits port h, port_fits port h, codec_known codec) refl
  config_round_trip tcp_ssl codec host (x ∷ ca) (y ∷ cert) [] port verify h =
      rw (port_bits port h, port_fits port h, codec_known codec) refl
  config_round_trip tcp_ssl codec host (x ∷ ca) (y ∷ cert) (z ∷ key) port verify h =
      rw (port_bits port h, port_fits port h, codec_known codec) refl
  config_round_trip web codec host ca cert key port verify h = rw (unnamed_codec) refl

  configs_round_trip :
      (set : List LogosTransportConfig)
      → All (λ cfg. cfg.port < 2 ^ 16) set
      → configs_of float_to_int (items_as_parsed (set_to_items set)) ≡ ok (map kept set)
  unfolding configs_of set_to_items as_parsed
  configs_round_trip [] h = refl
  configs_round_trip (cfg ∷ set) h =
      rw
        (
          config_round_trip cfg.protocol cfg.codec cfg.host cfg.ca_file cfg.cert_file cfg.key_file
              cfg.port cfg.verify_peer h.0,
          configs_round_trip set h.1,
        )
        refl

  -- A set of transports that is written and read again is the same, but for what the writer does not
  -- keep: host, port and codec of a local or a web transport are the defaults, and of a transport
  -- without TLS the paths of the certificates are empty and the peer is to be verified. The reader
  -- is one that gives back what the writer wrote, which is not an empty text, and ports have 16 bits.
  pub transport_set_from_json_string-transport_set_to_json_string :
      (write : Json → Text) (read : Text → Option Json) (set : List LogosTransportConfig)
      → All (λ cfg. cfg.port < 2 ^ 16) set
      → is_empty (transport_set_to_json_string write set) ≡ false
      → read (write (Json.array (set_to_items set)))
        ≡ some (as_parsed (Json.array (set_to_items set)))
      → transport_set_from_json_string float_to_int read (transport_set_to_json_string write set)
        ≡ ok (map kept set)
  unfolding transport_set_to_json_string transport_set_from_json_string as_parsed
  transport_set_from_json_string-transport_set_to_json_string write read set h n r =
      rw (n, r) (configs_round_trip set h)
