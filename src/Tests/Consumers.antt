-- ===== src/Tests/Consumers.antt =====
-- Subscriptions of a consumer at concrete inputs.
use logos_protocol.Base.{◌≡◌, ◌≢◌, refl, ◌⊎◌, All, true, false, none, some, List, [], ◌∷◌, codes}
use logos_protocol.Consumer.Pending.{manual, unknown, Entry, running, Subscriptions, World, initial}
use logos_protocol.Consumer.Pending.Operations.{add, state}
use logos_protocol.Consumer.Pending.Liveness.{
  Command, adds, sets_policy, rearms, answers, ticks, reconnects, perform_all,
}
use logos_protocol.Consumer.Pending.Taken.{taken}
use logos_protocol.Consumer.Pending.WatchedSteps.{nothing_stranded}
use logos_protocol.Consumer.Pending.Survives.{add_survives}
use logos_protocol.Consumer.Objects.{Remote}
use logos_protocol.Consumer.Uses.{
  Use, acquires, informs, requests_object, informs_capability, requests_module,
}

-- A transport that can acquire later and has no object yet, at time 0 and a minute later.
abbrev silent : World
silent = record {
  now = 0;
  supports_async = true;
  try_acquire_now = λ name. none;
  accepts = λ name. true;
  request_object = λ name. none;
  is_valid = λ handle. true;
}

-- The handle 7 has died.
abbrev died : World
died = record silent { now = 60000; is_valid = λ handle. false }

abbrev history : List (World × Command)
history =
    (silent, adds (codes "chat") (codes "msg") 1 none false)
    ∷ (silent, answers (codes "chat") (some 7))
    ∷ (died, ticks)
    ∷ (died, ticks)
    ∷ []

nothing_stranded_example :
    let p : Subscriptions = (perform_all history initial).0 in
    (p.timer ≡ running)
    ⊎ ((p.armed_entries ≡ [])
        × All (λ (e : Entry). taken e.object_name history initial false ≡ true) p.entries)
nothing_stranded_example = nothing_stranded history

-- The module dies twice, under a policy that holds it, and is taken up again.
abbrev deaths : List (World × Command)
deaths =
    (silent, answers (codes "chat") (some 7))
    ∷ (died, ticks)
    ∷ (silent, answers (codes "chat") (some 8))
    ∷ (silent, sets_policy (codes "chat") manual)
    ∷ (died, ticks)
    ∷ (silent, rearms (codes "chat"))
    ∷ (silent, reconnects)
    ∷ []

add_survives_example :
    state 1 (perform_all deaths (add silent (codes "chat") (codes "msg") 1 none false initial).0).0
    ≢ unknown
add_survives_example =
    add_survives silent (codes "chat") (codes "msg") 1 none initial deaths
      (refl, (refl, (refl, (refl, (refl, (refl, (refl, tt)))))))

-- The transport has a new handle each time; the first has gone stale.
abbrev first : Remote
first = record {
  is_connected = true;
  request_object = λ name timeout. some 3;
  is_valid = λ handle. true;
  inform = λ handle auth name token timeout. false;
  call_request_module = λ handle auth origin target timeout. codes "t1";
}

abbrev second : Remote
second = record first { request_object = λ name timeout. some 4; is_valid = λ handle. false }

abbrev uses : List (Remote × Use)
uses =
    (first, acquires (codes "chat") 1000)
    ∷ (second, acquires (codes "chat") 1000)
    ∷ (second, informs (codes "a") (codes "chat") (codes "ui") (codes "t") 0)
    ∷ (first, requests_object (codes "chat") 1000)
    ∷ (first, informs_capability (codes "a") (codes "chat") (codes "t"))
    ∷ (first, requests_module 5 (codes "a") (codes "ui") (codes "chat") 1000)
    ∷ []
