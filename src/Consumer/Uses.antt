-- ===== src/Consumer/Uses.antt =====
-- Histories of the calls of a consumer that take handles or give them back, and what is counted of
-- them (cpp/logos_api_consumer.cpp).
use logos_protocol.Base.{
  ℕ, ◌+◌, ◌≡◌, List, [], ◌∷◌, ◌++◌, Text, text_key, weigh, arith, ◌==◌, if◌then◌else◌,
}
use logos_protocol.Consumer.Objects.{
  Remote, Objects, Reference, requested, released, handed, request_object, ensure_target_acquirable,
  inform_module_token, request_module, acquire_cached_object, clear_object_cache,
  inform_module_token_module,
}

-- The calls of a consumer that take a handle or give one back.
pub data Use : Type 0 where
  acquires : Text → ℕ → Use
  ensures_acquirable : Text → ℕ → Use
  requests_object : Text → ℕ → Use
  informs : Text → Text → Text → Text → ℕ → Use
  informs_capability : Text → Text → Text → Use
  requests_module : ℕ → Text → Text → Text → ℕ → Use
  clears : Use

unfoldable pub apply : Remote → Use → Objects → Objects × List Reference
apply w (acquires name timeout) c = (acquire_cached_object w name timeout c).1
apply w (informs auth origin name token timeout) c =
    (inform_module_token_module w auth origin name token timeout c).1
apply w (ensures_acquirable name timeout) c = (ensure_target_acquirable w name timeout c).1
apply w (requests_object name timeout) c = (c, (request_object w name timeout).1)
apply w (informs_capability auth name token) c = (c, (inform_module_token w auth name token).1)
apply w (requests_module spent auth origin target timeout) c =
    (c, (request_module w spent auth origin target timeout).1)
apply w clears c = clear_object_cache c

-- A history: each call with what the transport and the objects answer to it.
unfoldable pub apply_all : List (Remote × Use) → Objects → Objects × List Reference
apply_all [] c = (c, [])
apply_all ((w, u) ∷ us) c =
    let one = apply w u c in let rest = apply_all us one.0 in (rest.0, one.1 ++ rest.1)

unfoldable pub is_handle : ℕ → ℕ → ℕ
is_handle h g = if g == h then 1 else 0

-- How often a handle was requested, released and handed on, and whether it is cached.
unfoldable pub requests : ℕ → List Reference → ℕ
requests h [] = 0
requests h (requested g ∷ rs) = is_handle h g + requests h rs
requests h (released g ∷ rs) = requests h rs
requests h (handed g ∷ rs) = requests h rs

unfoldable pub releases : ℕ → List Reference → ℕ
releases h [] = 0
releases h (requested g ∷ rs) = releases h rs
releases h (released g ∷ rs) = is_handle h g + releases h rs
releases h (handed g ∷ rs) = releases h rs

unfoldable pub handovers : ℕ → List Reference → ℕ
handovers h [] = 0
handovers h (requested g ∷ rs) = handovers h rs
handovers h (released g ∷ rs) = handovers h rs
handovers h (handed g ∷ rs) = is_handle h g + handovers h rs

unfoldable pub held : ℕ → Objects → ℕ
held h c = weigh (is_handle h) c.cached

pub requests-append :
    (h : ℕ) (xs ys : List Reference) → requests h (xs ++ ys) ≡ requests h xs + requests h ys
unfolding requests
requests-append h [] ys = omega arith
requests-append h (requested g ∷ xs) ys = omega (arith, requests-append h xs ys)
requests-append h (released g ∷ xs) ys = requests-append h xs ys
requests-append h (handed g ∷ xs) ys = requests-append h xs ys

pub releases-append :
    (h : ℕ) (xs ys : List Reference) → releases h (xs ++ ys) ≡ releases h xs + releases h ys
unfolding releases
releases-append h [] ys = omega arith
releases-append h (requested g ∷ xs) ys = releases-append h xs ys
releases-append h (released g ∷ xs) ys = omega (arith, releases-append h xs ys)
releases-append h (handed g ∷ xs) ys = releases-append h xs ys

pub handovers-append :
    (h : ℕ) (xs ys : List Reference) → handovers h (xs ++ ys) ≡ handovers h xs + handovers h ys
unfolding handovers
handovers-append h [] ys = omega arith
handovers-append h (requested g ∷ xs) ys = handovers-append h xs ys
handovers-append h (released g ∷ xs) ys = handovers-append h xs ys
handovers-append h (handed g ∷ xs) ys = omega (arith, handovers-append h xs ys)
