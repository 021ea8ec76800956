-- ===== src/Consumer/Handles.antt =====
-- The references that a consumer holds for its calls (cpp/logos_api_consumer.cpp).
use logos_protocol.Base.{ℕ, ◌+◌, ◌≡◌, List, text_key, KeysOnce}
use logos_protocol.Consumer.Objects.{Objects, Reference}
use logos_protocol.Consumer.Uses.{requests, releases, handovers, held}

-- Every reference that came is kept, given back or handed on.
pub record Balanced (h : ℕ) (c : Objects) (r : Objects × List Reference) : Type 0 where
  pub even : held h r.0 + releases h r.1 + handovers h r.1 ≡ held h c + requests h r.1
  pub once : KeysOnce r.0.cached
