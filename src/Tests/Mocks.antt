-- ===== src/Tests/Mocks.antt =====
-- A mock, and the configuration of transports, at concrete inputs.
use logos_protocol.Base.{
  ℕ, ◌≡◌, refl, Bool, true, Option, none, some, List, [], ◌∷◌, map, arith, Text, codes, text_eq,
  ltb,
}
use logos_protocol.Json.{pos, Json, as_parsed}
use logos_protocol.Value.Mapping.{ok}
use logos_protocol.Mock.{MockStore, record_and_return, call_count, last_args, was_called}
use logos_protocol.Mock.Answers.{returning, returning_for, answer, record_and_return_mocks}
use logos_protocol.Transport.{
  LogosTransportConfig, tcp, cbor, set_to_items, transport_set_from_json_string,
  transport_set_to_json_string,
}
use logos_protocol.Transport.RoundTrip.{
  kept, transport_set_from_json_string-transport_set_to_json_string,
}

abbrev same_numbers : List ℕ → List ℕ → Bool
same_numbers xs ys = text_eq xs ys

-- One call was made, and one answer is registered.
abbrev mocked : MockStore ℕ
mocked = record {
  expectations =
      record {
        module_name = codes "chat";
        method = codes "list";
        expected_args = [];
        return_value = 7;
        match_any_args = true;
      }
      ∷ [];
  calls = record { module_name = codes "chat"; method = codes "list"; args = [] } ∷ [];
  release_probe = none;
}

record_and_return_mocks_example :
    let u = (record_and_return same_numbers 0 (codes "chat") (codes "send") (5 ∷ []) mocked).1 in
    (answer same_numbers 0
        (codes "chat")
        (codes "list")
        (5 ∷ [])
        (returning same_numbers 0 (codes "chat") (codes "send") 8 mocked)
      ≡ 7)
    × (answer same_numbers 0
          (codes "chat")
          (codes "list")
          (5 ∷ [])
          (returning_for same_numbers 0 (codes "chat") (codes "send") (5 ∷ []) 8 mocked)
        ≡ 7)
    × (call_count (codes "chat") (codes "list") u ≡ 1)
    × (last_args (codes "chat") (codes "list") u ≡ [])
    × (was_called (codes "chat") (codes "list") u
        ≡ ltb 0 (call_count (codes "chat") (codes "list") u))
unfolding text_eq call_count record_and_return logos_protocol.Mock.count_calls last_args
    logos_protocol.Mock.answer_below logos_protocol.Mock.is_call_of logos_protocol.Mock.args_below
    logos_protocol.Mock.answers
record_and_return_mocks_example =
    record_and_return_mocks same_numbers 0 (codes "chat") (codes "send") (5 ∷ []) 8 mocked
      (codes "chat") (codes "list") (5 ∷ [])

abbrev endpoints : List LogosTransportConfig
endpoints =
    record {
      protocol = tcp;
      host = codes "0.0.0.0";
      port = 6001;
      ca_file = codes "ca";
      cert_file = [];
      key_file = [];
      verify_peer = true;
      codec = cbor;
    }
    ∷ []

abbrev written : Json → Text
written j = codes "x"

abbrev read_back : Text → Option Json
read_back text = some (as_parsed (Json.array (set_to_items endpoints)))

transport_set_from_json_string-transport_set_to_json_string_example :
    transport_set_from_json_string
      (λ d. pos 0)
      read_back
      (transport_set_to_json_string written endpoints)
    ≡ ok (map kept endpoints)
unfolding transport_set_to_json_string
transport_set_from_json_string-transport_set_to_json_string_example =
    transport_set_from_json_string-transport_set_to_json_string (λ d. pos 0) written read_back
      endpoints (omega arith, tt) refl refl
