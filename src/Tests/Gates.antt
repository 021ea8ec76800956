-- ===== src/Tests/Gates.antt =====
-- The dispatch of calls, the push of tokens and the interface at concrete inputs.
use logos_protocol.Base.{
  ℕ, ◌+◌, ◌≡◌, ◌<◌, ◌^◌, ◌%◌, refl, Bool, true, false, not, ◌&&◌, ◌||◌, none, some, List, [], ◌∷◌,
  ◌++◌, any_of, length, Text, codes, text_eq, text_eq_refl, if◌then◌else◌, arith, Bool-cases, inl,
  inr,
}
use logos_protocol.Json.{Json}
use logos_protocol.Tokens.{TokenManager, inbound_key}
use logos_protocol.ModuleProxy.Dispatch.{
  JsonValues, Arrays, World, Ending, returned, Provider, ModuleProxy, call_remote_method,
  inform_module_token, get_plugin_interface, get_plugin_events, get_plugin_methods, lists,
  filter_interface,
}
use logos_protocol.ModuleProxy.Gate.{
  Dispatched, call_remote_method-Named, call_remote_method-refused,
}
use logos_protocol.ModuleProxy.Naming.{Bytes}
use logos_protocol.ModuleProxy.Handshake.{
  Granted, inform_module_token-Granted, inform_module_token-untrusted,
}
use logos_protocol.ModuleProxy.Interface.{named, missing_identity, get_plugin_interface-identity}
use logos_protocol.ModuleProxy.Branches.{reaches_gate, Answers}
use logos_protocol.Tests.Clients.{Sample, nothing, string, samples}

-- Values of entries, of which the last one counts that was written for a key.
data Entries : Type 0 where
  undefined : Entries
  text : Text → Entries
  flag : Bool → Entries
  no_entries : Entries
  entry : Text → Entries → Entries → Entries

abbrev is_entries : Entries → Bool
is_entries undefined = false
is_entries (text t) = false
is_entries (flag b) = false
is_entries no_entries = true
is_entries (entry k v rest) = true

abbrev text_in : Entries → Text
text_in undefined = []
text_in (text t) = t
text_in (flag b) = []
text_in no_entries = []
text_in (entry k v rest) = []

unfoldable has_entry : Text → Entries → Bool
has_entry k undefined = false
has_entry k (text t) = false
has_entry k (flag b) = false
has_entry k no_entries = false
has_entry k (entry j v rest) = text_eq j k || has_entry k rest

unfoldable entry_value : Text → Entries → Entries
entry_value k undefined = undefined
entry_value k (text t) = undefined
entry_value k (flag b) = undefined
entry_value k no_entries = undefined
entry_value k (entry j v rest) =
    let later = entry_value k rest in if text_eq j k && not (has_entry k rest) then v else later

abbrev entries_of : List (Text × Entries) → Entries
entries_of [] = no_entries
entries_of (e ∷ m) = entry e.0 e.1 (entries_of m)

is_entries-entries_of : (m : List (Text × Entries)) → is_entries (entries_of m) ≡ true
is_entries-entries_of [] = refl
is_entries-entries_of (e ∷ m) = refl

has_entry-entries_of :
    (k : Text) (m : List (Text × Entries))
    → has_entry k (entries_of m) ≡ any_of (λ (e : Text × Entries). text_eq e.0 k) m
unfolding has_entry
has_entry-entries_of k [] = refl
has_entry-entries_of k (e ∷ m) = ground (arith, has_entry-entries_of k m)

has_entry-append :
    (k : Text) (v : Entries) (m n : List (Text × Entries))
    → text_eq k k ≡ true
    → has_entry k (entries_of (m ++ (k, v) ∷ n)) ≡ true
unfolding has_entry
has_entry-append k v [] n h = ground (arith, h)
has_entry-append k v (e ∷ m) n h = ground (arith, has_entry-append k v m n h)

entry_value-entries_of :
    (k : Text) (v : Entries) (m n : List (Text × Entries))
    → any_of (λ (e : Text × Entries). text_eq e.0 k) n ≡ false
    → entry_value k (entries_of (m ++ (k, v) ∷ n)) ≡ v
unfolding entry_value
entry_value-entries_of k v [] n h = ground (arith, h, has_entry-entries_of k n, text_eq_refl k)
entry_value-entries_of k v (e ∷ m) n h =
    ground (arith, has_entry-append k v m n (text_eq_refl k), entry_value-entries_of k v m n h)

abbrev entry_values : JsonValues Entries
entry_values = record {
  is_object = is_entries;
  value = entry_value;
  text_of = text_in;
  of_entries = entries_of;
  of_text = text;
  of_bool = flag;
  text_of-of_text = λ t. refl;
  is_object-of_entries = is_entries-entries_of;
  value-of_entries = entry_value-entries_of;
}

abbrev is_sample : Sample → Bool
is_sample nothing = false
is_sample v = true

abbrev arrays : Arrays Sample Entries samples
arrays = record {
  is_valid = is_sample;
  of_array = λ xs. string [];
  is_valid-invalid = refl;
  to_map-of_array = λ xs. refl;
}

-- The low bytes of a text.
abbrev low_bytes : Text → List ℕ
low_bytes [] = []
low_bytes (c ∷ t) = (c % 256) ∷ low_bytes t

low_bytes-Bytes : (t : Text) → Bytes (low_bytes t)
low_bytes-Bytes [] = tt
low_bytes-Bytes (c ∷ t) = (omega arith, low_bytes-Bytes t)

-- A module that answers with the caller that it is told, and accepts every token.
abbrev echo : Provider Sample Entries ℕ
echo = record {
  call_method =
      λ method args w. (returned (string w.slot), record w { module_state = w.module_state + 1 });
  inform = λ name token w. (true, w);
  methods = λ s.
      entries_of ((codes "name", text (codes "sent")) ∷ (codes "type", text (codes "event")) ∷ [])
      ∷ [];
  provider_name = λ s. codes "echo";
  provider_version = λ s. codes "1";
}

abbrev proxy : ModuleProxy Sample Entries ℕ
proxy = record { provider = some echo; validator = none }

abbrev document : Json → Text
document j = codes "{}"

abbrev world : World ℕ
world = record {
  slot = [];
  tokens = (codes "chat", codes "t1") ∷ [];
  store = record { tokens = (codes "core", codes "anchor") ∷ [] };
  module_state = 0;
}

call_remote_method-Named_example :
    let r =
      call_remote_method samples arrays entry_values low_bytes document proxy
        (codes "t1")
        (codes "send")
        []
        (codes "tcp")
        world in
    (r.1.slot ≡ [])
    × Dispatched samples arrays entry_values low_bytes document none
        (codes "t1")
        (codes "send")
        []
        (codes "tcp")
        world
        r
call_remote_method-Named_example =
    call_remote_method-Named samples arrays entry_values low_bytes document proxy (codes "t1")
      (codes "send") [] (codes "tcp") world low_bytes-Bytes (omega arith)

call_remote_method-refused_example :
    Answers samples world (reaches_gate (some echo) (codes "send") []) (
      call_remote_method samples arrays entry_values low_bytes document proxy
        (codes "guess")
        (codes "send")
        []
        (codes "tcp")
        world)
unfolding logos_protocol.ModuleProxy.Authorize.issued
    logos_protocol.ModuleProxy.Authorize.same_bytes text_eq logos_protocol.Tokens.inbound_key_list
    logos_protocol.Tokens.drop_each logos_protocol.Tokens.keys_where
    logos_protocol.Tokens.is_reserved_key logos_protocol.Tokens.credential
    logos_protocol.Tokens.first_value logos_protocol.Base.lookup logos_protocol.Base.text_discrete
call_remote_method-refused_example =
    call_remote_method-refused samples arrays entry_values low_bytes document proxy (codes "guess")
      (codes "send") [] (codes "tcp") world refl

inform_module_token-Granted_example :
    Granted low_bytes none
      (codes "tcp")
      (codes "anchor")
      (codes "wallet")
      (codes "t2")
      world
      (inform_module_token low_bytes proxy (codes "anchor") (codes "wallet") (codes "t2") world)
unfolding inform_module_token logos_protocol.Tokens.credential logos_protocol.Tokens.first_value
    logos_protocol.Base.lookup logos_protocol.Base.text_discrete
    logos_protocol.ModuleProxy.constant_time_equals logos_protocol.ModuleProxy.bytes_equal
    logos_protocol.ModuleProxy.fold_diff logos_protocol.ModuleProxy.Dispatch.forward_token
inform_module_token-Granted_example =
    inform_module_token-Granted low_bytes proxy (codes "anchor") (codes "wallet") (codes "t2")
      (codes "tcp") world refl

inform_module_token-untrusted_example :
    inform_module_token low_bytes proxy (codes "t1") (codes "wallet") (codes "t2") world
    ≡ (false, world)
unfolding logos_protocol.ModuleProxy.Handshake.is_trusted
    logos_protocol.ModuleProxy.Authorize.same_bytes text_eq logos_protocol.Tokens.credential
    logos_protocol.Tokens.first_value logos_protocol.Base.lookup logos_protocol.Base.text_discrete
inform_module_token-untrusted_example =
    inform_module_token-untrusted low_bytes proxy (codes "t1") (codes "wallet") (codes "t2") world
      refl

get_plugin_interface-identity_example :
    let given = echo.methods 0 in
    let iface = get_plugin_interface entry_values (some echo) 0 in
    (iface ≡ given ++ missing_identity entry_values given)
    × (named entry_values (codes "name") iface ≡ true)
    × (named entry_values (codes "version") iface ≡ true)
    × (get_plugin_events entry_values (some echo) 0 ≡ filter_interface entry_values true given)
    × (get_plugin_methods entry_values (some echo) 0
        ≡ filter_interface entry_values false given ++ missing_identity entry_values given)
get_plugin_interface-identity_example = get_plugin_interface-identity entry_values echo 0
