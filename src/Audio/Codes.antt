-- ===== src/Audio/Codes.antt =====
-- The codes of single samples, checked one by one.
use skeyevss_backend_service.Prelude.{
  subst, ◌%◌, ◌-◌, leb→le, ◌*◌, ◌/◌, ◌^◌, ℕ, zero, suc, ◌+◌, ◌<◌, ◌≤◌, ◌≡◌, refl, Bool, true, ◌&&◌,
  nat_beq, nat_beq_iff, arith, Bool-cases, inl, inr, leb, ltb, if◌then◌else◌, ℤ, pos, negsuc,
  pos_part, neg_part,
}
use skeyevss_backend_service.Audio.{alaw2linear, ulaw2linear, linear2alaw, linear2ulaw}

-- A test at every number below a bound.
abbrev all_below : ℕ → (ℕ → Bool) → Bool
all_below zero test = true
all_below (suc n) test = test n && all_below n test

all_below-at : (n k : ℕ) (test : ℕ → Bool) → all_below n test ≡ true → k < n → test k ≡ true
all_below-at zero k test h b = absurd (omega arith)
all_below-at (suc n) k test h b = elim (Bool-cases (nat_beq k n)) [
  | inl same ↦ let e : k ≡ n = (nat_beq_iff k n).0 same in rw e (ground arith)
  | inr other ↦ all_below-at n k test (ground arith) (ground arith)
]

-- A sample that fits an int16.
abbrev pub fits : ℤ → Bool
fits z = ltb (pos_part z) (2 ^ 15) && leb (neg_part z) (2 ^ 15)

-- |a - b|
abbrev pub dist : ℤ → ℤ → ℕ
dist a b =
    (pos_part a + neg_part b - (pos_part b + neg_part a))
    + (pos_part b + neg_part a - (pos_part a + neg_part b))

abbrev alaw_ok : ℕ → Bool
alaw_ok b = nat_beq (linear2alaw (alaw2linear b)) b && fits (alaw2linear b)

alaw_checked : all_below 256 alaw_ok ≡ true
unfolding linear2alaw alaw2linear
alaw_checked = refl

-- The code that a byte of u-law comes back as: 127, which is minus zero, becomes 255.
abbrev pub canonical : ℕ → ℕ
canonical b = if nat_beq b 127 then 255 else b

abbrev ulaw_ok : ℕ → Bool
ulaw_ok b = nat_beq (linear2ulaw (ulaw2linear b)) (canonical b) && fits (ulaw2linear b)

ulaw_checked : all_below 256 ulaw_ok ≡ true
unfolding linear2ulaw ulaw2linear
ulaw_checked = refl

and-split : (a b : Bool) → (a && b) ≡ true → (a ≡ true) × (b ≡ true)
and-split a b h = ground arith

-- Every byte of A-law that is decoded and encoded again comes back, and its sample fits an int16.
pub alaw_roundtrip :
    (b : ℕ) → b < 256 → (linear2alaw (alaw2linear b) ≡ b) × (fits (alaw2linear b) ≡ true)
alaw_roundtrip b h =
    let c = and-split _ _ (all_below-at 256 b alaw_ok alaw_checked h) in
    ((nat_beq_iff _ b).0 c.0, c.1)

-- Every byte of u-law that is decoded and encoded again comes back, but for 127, which comes back as
-- 255; its sample fits an int16.
pub ulaw_roundtrip :
    (b : ℕ) → b < 256 → (linear2ulaw (ulaw2linear b) ≡ canonical b) × (fits (ulaw2linear b) ≡ true)
ulaw_roundtrip b h =
    let c = and-split _ _ (all_below-at 256 b ulaw_ok ulaw_checked h) in
    ((nat_beq_iff _ (canonical b)).0 c.0, c.1)

abbrev both : (ℤ → Bool) → ℕ → Bool
both test n = test (pos n) && test (negsuc n)

abbrev row_ok : (ℤ → Bool) → ℕ → Bool
row_ok test high = all_below 256 (λ low. both test (high * 256 + low))

-- A test at every int16, by the high and the low byte of its index.
abbrev at_every_sample : (ℤ → Bool) → Bool
at_every_sample test = all_below 128 (row_ok test)

sample-at :
    (test : ℤ → Bool) (n : ℕ) → at_every_sample test ≡ true → n < 2 ^ 15 → both test n ≡ true
sample-at test n h b =
    let high = all_below-at 128 (n / 256) (row_ok test) h (omega arith) in
    let low =
      all_below-at 256 (n % 256) (λ low. both test (n / 256 * 256 + low)) high (omega arith) in
    let e : n / 256 * 256 + n % 256 ≡ n = omega arith in subst (λ k. both test k ≡ true) e low

abbrev pub magnitude : ℤ → ℕ
magnitude z = pos_part z + neg_part z

-- What G.711 promises: a sample is off by 8 and a 32nd of its size at most.
abbrev pub close_to : ℤ → ℤ → Bool
close_to decoded z = leb (dist decoded z) (8 + magnitude z / 32)

abbrev pub alaw_code_and_back : ℤ → ℤ
alaw_code_and_back z = alaw2linear (linear2alaw z)

abbrev pub ulaw_code_and_back : ℤ → ℤ
ulaw_code_and_back z = ulaw2linear (linear2ulaw z)

alaw_close : at_every_sample (λ z. close_to (alaw_code_and_back z) z) ≡ true
unfolding linear2alaw alaw2linear
alaw_close = refl

ulaw_close : at_every_sample (λ z. close_to (ulaw_code_and_back z) z) ≡ true
unfolding linear2ulaw ulaw2linear
ulaw_close = refl

fits_pos : (n : ℕ) → fits (pos n) ≡ true → n < 2 ^ 15
fits_pos n f = ground arith

fits_negsuc : (n : ℕ) → fits (negsuc n) ≡ true → n < 2 ^ 15
fits_negsuc n f = ground arith

fits-both : (test : ℤ → Bool) (z : ℤ) → at_every_sample test ≡ true → fits z ≡ true → test z ≡ true
fits-both test (pos n) h f = (and-split _ _ (sample-at test n h (fits_pos n f))).0
fits-both test (negsuc n) h f = (and-split _ _ (sample-at test n h (fits_negsuc n f))).1

-- An int16 that is encoded, in A-law or in u-law, and decoded again is off by 8 and a 32nd of its
-- size at most.
pub codes_close :
    (z : ℤ)
    → fits z ≡ true
    → (dist (alaw2linear (linear2alaw z)) z ≤ 8 + magnitude z / 32)
      × (dist (ulaw2linear (linear2ulaw z)) z ≤ 8 + magnitude z / 32)
codes_close z h = (
  leb→le _ _ (fits-both (λ z. close_to (alaw_code_and_back z) z) z alaw_close h),
  leb→le _ _ (fits-both (λ z. close_to (ulaw_code_and_back z) z) z ulaw_close h),
)
