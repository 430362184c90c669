-- ===== src/Text/Cutset.antt =====
-- strings.Trim with a cutset, strings.ToLower and strings.Repeat, on ASCII, and the count of a byte.
use skeyevss_backend_service.Prelude.{
  ℕ, zero, suc, ◌+◌, ◌≡◌, refl, ap, ◌∙◌, Bool, true, false, not, ◌&&◌, ◌||◌, List, [], ◌∷◌, ◌++◌,
  if◌then◌else◌, leb, nat_beq, nat_beq_iff, arith, Bool-cases, inl, inr,
}
use skeyevss_backend_service.Text.{Text}

abbrev pub in_set : Text → ℕ → Bool
in_set [] c = false
in_set (d ∷ cut) c = nat_beq c d || in_set cut c

abbrev pub trim_start : Text → Text → Text
trim_start cut [] = []
trim_start cut (c ∷ s) = let rest = trim_start cut s in if in_set cut c then rest else c ∷ s

abbrev pub keep_end : Text → ℕ → Text → Text
keep_end cut c [] = if in_set cut c then [] else c ∷ []
keep_end cut c (d ∷ s) = c ∷ d ∷ s

abbrev pub trim_end : Text → Text → Text
trim_end cut [] = []
trim_end cut (c ∷ s) = keep_end cut c (trim_end cut s)

abbrev pub trim : Text → Text → Text
trim cut s = trim_start cut (trim_end cut s)

abbrev pub lower : ℕ → ℕ
lower c = if leb b'A' c && leb c b'Z' then c + 32 else c

abbrev pub to_lower : Text → Text
to_lower [] = []
to_lower (c ∷ s) = lower c ∷ to_lower s

abbrev pub repeat : Text → ℕ → Text
repeat s zero = []
repeat s (suc n) = s ++ repeat s n

-- strings.Join
abbrev pub join : Text → List Text → Text
join sep [] = []
join sep (t ∷ []) = t
join sep (t ∷ u ∷ ts) = t ++ sep ++ join sep (u ∷ ts)

-- strings.Count of one byte.
abbrev pub count : ℕ → Text → ℕ
count b [] = 0
count b (c ∷ s) = if nat_beq c b then suc (count b s) else count b s

pub count-append : (b : ℕ) (s t : Text) → count b (s ++ t) ≡ count b s + count b t
count-append b [] t = omega arith
count-append b (c ∷ s) t = ground (arith, count-append b s t)

set_apart :
    (cut : Text) (b c : ℕ) → in_set cut b ≡ false → in_set cut c ≡ true → nat_beq c b ≡ false
set_apart cut b c out inside = elim (Bool-cases (nat_beq c b)) [
  | inl same ↦
      let e : c ≡ b = (nat_beq_iff c b).0 same in
      let both : in_set cut c ≡ false = rw e out in ground arith
  | inr other ↦ other
]

count-trim_start :
    (b : ℕ) (cut s : Text) → in_set cut b ≡ false → count b (trim_start cut s) ≡ count b s
count-trim_start b cut [] out = refl
count-trim_start b cut (c ∷ s) out = elim (Bool-cases (in_set cut c)) [
  | inl inside ↦ ground (arith, inside, set_apart cut b c out inside, count-trim_start b cut s out)
  | inr outside ↦ rw outside refl
]

count-keep_end :
    (b : ℕ) (cut : Text) (c : ℕ) (s : Text)
    → in_set cut b ≡ false
    → count b (keep_end cut c s) ≡ count b (c ∷ s)
count-keep_end b cut c [] out = elim (Bool-cases (in_set cut c)) [
  | inl inside ↦ ground (arith, inside, set_apart cut b c out inside)
  | inr outside ↦ rw outside refl
]
count-keep_end b cut c (d ∷ s) out = refl

count-trim_end :
    (b : ℕ) (cut s : Text) → in_set cut b ≡ false → count b (trim_end cut s) ≡ count b s
count-trim_end b cut [] out = refl
count-trim_end b cut (c ∷ s) out =
    ground (arith, count-keep_end b cut c (trim_end cut s) out, count-trim_end b cut s out)

-- Trimming does not change the count of a byte that the cutset lacks.
pub count-trim : (b : ℕ) (cut s : Text) → in_set cut b ≡ false → count b (trim cut s) ≡ count b s
count-trim b cut s out = count-trim_start b cut (trim_end cut s) out ∙ count-trim_end b cut s out

pub count-repeat : (b : ℕ) (s : Text) (n : ℕ) → count b s ≡ 1 → count b (repeat s n) ≡ n
count-repeat b s zero one = refl
count-repeat b s (suc n) one =
    omega (arith, one, count-append b s (repeat s n), count-repeat b s n one)

-- The first byte, and the last, are not in the cutset.
abbrev pub first_free : Text → Text → Bool
first_free cut [] = false
first_free cut (c ∷ s) = not (in_set cut c)

abbrev pub last_free : Text → Text → Bool
last_free cut [] = false
last_free cut (c ∷ []) = not (in_set cut c)
last_free cut (c ∷ d ∷ s) = last_free cut (d ∷ s)

pub trim_start-free : (cut s : Text) → first_free cut s ≡ true → trim_start cut s ≡ s
trim_start-free cut [] h = refl
trim_start-free cut (c ∷ s) h = ground arith

pub trim_end-free : (cut s : Text) → last_free cut s ≡ true → trim_end cut s ≡ s
trim_end-free cut [] h = refl
trim_end-free cut (c ∷ []) h = ground arith
trim_end-free cut (c ∷ d ∷ s) h = ap (keep_end cut c) (trim_end-free cut (d ∷ s) h)

pub last_free-append : (cut s t : Text) → last_free cut t ≡ true → last_free cut (s ++ t) ≡ true
last_free-append cut [] t h = h
last_free-append cut (c ∷ []) [] h = ground arith
last_free-append cut (c ∷ []) (d ∷ t) h = h
last_free-append cut (c ∷ d ∷ s) t h = last_free-append cut (d ∷ s) t h

pub last_free-trim_start :
    (cut wide s : Text)
    → ((c : ℕ) → in_set wide c ≡ false → in_set cut c ≡ false)
    → last_free wide s ≡ true
    → last_free wide (trim_start cut s) ≡ true
last_free-trim_start cut wide [] within h = h
last_free-trim_start cut wide (c ∷ []) within h = ground (arith, within c)
last_free-trim_start cut wide (c ∷ d ∷ s) within h =
    ground (arith, last_free-trim_start cut wide (d ∷ s) within h)
