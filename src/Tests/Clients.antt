-- ===== src/Tests/Clients.antt =====
-- A client at concrete inputs.
use logos_protocol.Base.{
  ◌+◌, ◌*◌, ◌≤◌, ◌≡◌, refl, ap, true, false, Option, none, some, List, [], ◌∷◌, All, Text, codes,
}
use logos_protocol.Tokens.{TokenManager, empty_store}
use logos_protocol.Client.{no_error, Call, connect}
use logos_protocol.Client.Status.{
  Variants, status_key, status_unauthorized, is_unauthorized_sentinel,
}
use logos_protocol.Client.Handshake.{Availability, fires, registers, queue_of}
use logos_protocol.Client.Events.{Event, invokes, is_ready, mints, replies, times_out, handle_all}
use logos_protocol.Client.Underway.{live, among, busy}
use logos_protocol.Client.OneHandshake.{one_handshake}
use logos_protocol.Client.Ledger.{owed, delivered, sent, Clean}
use logos_protocol.Client.AnsweredOnce.{issued, answered_once, refused_at_most_twice}
use logos_protocol.Client.Blocking.{Exchange, invoke_remote_method}
use logos_protocol.Client.Outcomes.{sendings, requests, invoke_remote_method_bounded}

-- Values that are strings or maps; a map is `no_entries` or an `entry` before a map.
pub data Sample : Type 0 where
  nothing : Sample
  string : Text → Sample
  no_entries : Sample
  entry : Text → Sample → Sample → Sample

abbrev pub string_of : Sample → Text
string_of (string t) = t
string_of _ = []

abbrev pub string_in : Sample → Option Text
string_in (string t) = some t
string_in _ = none

abbrev pub to_sample : List (Text × Sample) → Sample
to_sample [] = no_entries
to_sample ((k, v) ∷ m) = entry k v (to_sample m)

abbrev pub entries_of : Sample → List (Text × Sample)
entries_of (entry k v rest) = (k, v) ∷ entries_of rest
entries_of _ = []

abbrev pub map_of : Sample → Option (List (Text × Sample))
map_of nothing = none
map_of (string t) = none
map_of v = some (entries_of v)

pub entries_of-to_sample : (m : List (Text × Sample)) → entries_of (to_sample m) ≡ m
entries_of-to_sample [] = refl
entries_of-to_sample ((k, v) ∷ m) =
    ap (λ (n : List (Text × Sample)). (k, v) ∷ n) (entries_of-to_sample m)

pub map_of-to_sample : (m : List (Text × Sample)) → map_of (to_sample m) ≡ some m
map_of-to_sample [] = refl
map_of-to_sample ((k, v) ∷ m) =
    ap (λ (n : List (Text × Sample)). some ((k, v) ∷ n)) (entries_of-to_sample m)

abbrev pub samples : Variants Sample
samples = record {
  invalid = nothing;
  of_string = string;
  to_string = string_of;
  as_string = string_in;
  of_map = to_sample;
  to_map = map_of;
  to_string-of_string = λ t. refl;
  to_string-invalid = refl;
  to_map-of_map = map_of-to_sample;
  to_map-invalid = refl;
}

abbrev refusal : Sample
refusal = entry status_key (string status_unauthorized) no_entries

abbrev chat : Text
chat = codes "chat"

abbrev send_message : Call
send_message = record {
  callback = 1;
  object_name = chat;
  method_name = codes "send";
  args = 5;
  timeout_ms = 1000;
  retries_left = 1;
}

abbrev list_messages : Call
list_messages = record send_message { callback = 2; method_name = codes "list" }

-- Two calls share a wait and a request; the first one's token is refused, and exchanged while the
-- second is answered; then it is refused again.
abbrev history : List ((Text → Availability) × Event Sample)
history =
    (λ name. registers 4, invokes send_message)
    ∷ (λ name. registers 5, invokes list_messages)
    ∷ (λ name. registers 6, is_ready 0 true)
    ∷ (λ name. registers 6, times_out 0)
    ∷ (λ name. registers 6, mints 0 (codes "t1"))
    ∷ (λ name. fires true, replies 0 refusal no_error)
    ∷ (λ name. fires true, replies 0 (string (codes "hi")) no_error)
    ∷ (λ name. fires true, mints 0 (codes "t2"))
    ∷ (λ name. fires true, replies 0 refusal no_error)
    ∷ []

one_handshake_example :
    let c = (handle_all samples history (connect chat (codes "ui") empty_store)).0 in
    live chat c.waits + among chat c.minting ≡ busy (queue_of chat c)
one_handshake_example = one_handshake samples chat (codes "ui") empty_store history chat

answered_once_example :
    let r = handle_all samples history (connect chat (codes "ui") empty_store) in
    owed 1 r.0 + delivered 1 r.1 ≡ issued 1 history
answered_once_example = answered_once samples 1 chat (codes "ui") empty_store history

refused_at_most_twice_example :
    let acts = (handle_all samples history (connect chat (codes "ui") empty_store)).1 in
    (sent 1 acts ≤ 2 * issued 1 history) × All (Clean samples) acts
refused_at_most_twice_example =
    refused_at_most_twice samples 1 chat (codes "ui") empty_store history

-- The token "t1" is refused, and "t2" is good.
abbrev exchange : Exchange Sample
exchange = record {
  acquirable = true;
  elapsed_ms = 20;
  after_wait = λ tokens. tokens;
  first_token = λ credential. codes "t1";
  second_token = λ credential. codes "t2";
  first_answer = λ token. (refusal, no_error);
  second_answer = λ token. (string token, no_error);
}

abbrev with_token : TokenManager
with_token = record { tokens = (chat, codes "t0") ∷ [] }

invoke_remote_method_bounded_example :
    let o =
      invoke_remote_method samples exchange send_message (connect chat (codes "ui") empty_store) in
    (is_unauthorized_sentinel samples o.value ≡ false)
    × (sendings o.acts ≤ 2)
    × (requests o.acts ≤ 2)
invoke_remote_method_bounded_example =
    invoke_remote_method_bounded samples exchange send_message
      (connect chat (codes "ui") empty_store)
