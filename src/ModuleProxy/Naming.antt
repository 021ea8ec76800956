-- ===== src/ModuleProxy/Naming.antt =====
-- Which caller a scan names (cpp/module_proxy.cpp): the fold over the tokens without branches keeps
-- the name of the one entry that matches.
use logos_protocol.Base.{
  ℕ, ◌≤◌, ◌<◌, ◌≡◌, refl, sym, ap, ap₂, subst, ◌∙◌, Bool, true, false, List, [], ◌∷◌, length, take,
  All, arith, Bool-cases, inl, inr, if◌then◌else◌, leb, ltb, leb→le,
}
use logos_protocol.Base.Bits.{zero-bit_or, bit_or_zero}
use logos_protocol.Base.Masks.{bit_and_zero, bit_and_byte}
use logos_protocol.ModuleProxy.{CallerFold, empty_fold, zeros, select, select_all, offer, name}

abbrev pub Bytes : List ℕ → Type 0
Bytes xs = All (λ x. x < 256) xs

select_none : (a b : ℕ) → a < 256 → select 0 a b ≡ a
unfolding select
select_none a b h = rw (bit_and_byte a h, bit_and_zero b) (bit_or_zero a)

select_full : (a b : ℕ) → b < 256 → select 255 a b ≡ b
unfolding select
select_full a b h = rw (bit_and_byte b h, bit_and_zero a) (zero-bit_or b)

select_all_none : (ks cand : List ℕ) → Bytes ks → select_all 0 ks cand ≡ ks
unfolding select_all
select_all_none [] cand h = refl
select_all_none (k ∷ ks) [] h =
    ap₂ (λ x (ys : List ℕ). x ∷ ys) (select_none k 0 h.0) (select_all_none ks [] h.1)
select_all_none (k ∷ ks) (c ∷ cand) h =
    ap₂ (λ x (ys : List ℕ). x ∷ ys) (select_none k c h.0) (select_all_none ks cand h.1)

select_all_full :
    (ks cand : List ℕ)
    → Bytes cand
    → length cand ≤ length ks
    → take (length cand) (select_all 255 ks cand) ≡ cand
unfolding select_all
select_all_full ks [] h l = refl
select_all_full [] (c ∷ cand) h l = absurd (omega (arith, l))
select_all_full (k ∷ ks) (c ∷ cand) h l =
    ap₂ (λ x (ys : List ℕ). x ∷ ys) (select_full k c h.0)
      (select_all_full ks cand h.1 (omega (arith, l)))

select_all-Bytes : (ks cand : List ℕ) → Bytes cand → Bytes (select_all 255 ks cand)
unfolding select_all
select_all-Bytes [] cand h = tt
select_all-Bytes (k ∷ ks) [] h =
    (omega (arith, select_full k 0 (omega arith)), select_all-Bytes ks [] tt)
select_all-Bytes (k ∷ ks) (c ∷ cand) h =
    (omega (arith, select_full k c h.0, h.0), select_all-Bytes ks cand h.1)

-- A fold whose key and length are bytes.
abbrev pub Fits : CallerFold → Type 0
Fits f = Bytes f.key × (f.key_len < 256)

pub offer-false : (cand : List ℕ) (f : CallerFold) → Fits f → offer false cand f ≡ f
unfolding offer
offer-false cand f h =
    ap₂ (λ ks n. record { key = ks; key_len = n })
      (select_all_none f.key (if leb (length cand) 64 then cand else []) h.0)
      (select_none f.key_len (length (if leb (length cand) 64 then cand else [])) h.1)

fitting-Bytes : (b : Bool) (cand : List ℕ) → Bytes cand → Bytes (if b then cand else [])
fitting-Bytes true cand h = h
fitting-Bytes false cand h = tt

fitting_short : (cand : List ℕ) → length (if leb (length cand) 64 then cand else []) ≤ 64
fitting_short cand = elim (Bool-cases (leb (length cand) 64)) [
  | inl e ↦ rw e (leb→le (length cand) 64 e)
  | inr e ↦ rw e (omega arith)
]

pub offer-Fits :
    (b : Bool) (cand : List ℕ) (f : CallerFold) → Bytes cand → Fits f → Fits (offer b cand f)
unfolding offer
offer-Fits true cand f c h =
    let kept = fitting_short cand in
    (
      select_all-Bytes f.key (if leb (length cand) 64 then cand else []) (fitting-Bytes _ cand c),
      omega (
        arith,
        kept,
        select_full f.key_len (length (if leb (length cand) 64 then cand else []))
            (omega (arith, kept)),
      ),
    )
offer-Fits false cand f c h = subst Fits (sym (offer-false cand f h)) h

zeros-Bytes : (n : ℕ) → Bytes (zeros n)
zeros-Bytes ℕ.zero = tt
zeros-Bytes (ℕ.suc n) = (omega arith, zeros-Bytes n)

length-zeros : (n : ℕ) → length (zeros n) ≡ n
length-zeros ℕ.zero = refl
length-zeros (ℕ.suc n) = omega (arith, length-zeros n)

pub empty_fold-Fits : Fits empty_fold
empty_fold-Fits = (zeros-Bytes 64, omega arith)

full_offer : ℕ → List ℕ → CallerFold → CallerFold
full_offer len cand f = record {
  key = select_all 255 f.key cand;
  key_len = select 255 f.key_len len;
}

offer_fitting :
    (cand : List ℕ) (f : CallerFold)
    → leb (length cand) 64 ≡ true
    → offer true cand f ≡ full_offer (length cand) cand f
unfolding offer full_offer
offer_fitting cand f h = rw h refl

offer_long :
    (cand : List ℕ) (f : CallerFold)
    → leb (length cand) 64 ≡ false
    → offer true cand f ≡ full_offer 0 [] f
unfolding offer full_offer
offer_long cand f h = rw h refl

full_name :
    (cand : List ℕ) (f : CallerFold)
    → Bytes cand
    → length cand ≤ length f.key
    → length cand < 256
    → name (full_offer (length cand) cand f) ≡ cand
unfolding name full_offer
full_name cand f c l s = rw (select_full f.key_len (length cand) s) (select_all_full f.key cand c l)

-- What an offer to the empty fold leaves is the name that was offered, if anything counts.
pub offered_name :
    (b : Bool) (cand : List ℕ)
    → Bytes cand
    → ltb 0 (offer b cand empty_fold).key_len ≡ true
    → (b ≡ true) × (name (offer b cand empty_fold) ≡ cand)
unfolding full_offer
offered_name false cand c h = absurd (
    ground
      (arith, h, ap (λ (g : CallerFold). g.key_len) (offer-false cand empty_fold empty_fold-Fits)))
offered_name true cand c h = elim (Bool-cases (leb (length cand) 64)) [
  | inl e ↦
      let l = leb→le (length cand) 64 e in
      (
        refl,
        ap name (offer_fitting cand empty_fold e)
            ∙ full_name cand empty_fold c (omega (arith, l, length-zeros 64)) (omega (arith, l)),
      )
  | inr e ↦ absurd (nothing e)
]
  where
    nothing : leb (length cand) 64 ≡ false → ⊥
    nothing e = ground (
      arith,
      h,
      ap (λ (g : CallerFold). g.key_len) (offer_long cand empty_fold e),
      select_full 0 0 (omega arith),
    )
