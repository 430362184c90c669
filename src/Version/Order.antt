-- ===== src/Version/Order.antt =====
-- Which order on versions the comparison computes, and where it computes none.
use mathlib.Core.List.{append-nil}
use native.Mathlib.Nat.{mul-le-mul_right, suc-mul, pow-suc}
use skeyevss_backend_service.Prelude.{
  ℕ, zero, suc, ◌+◌, ◌-◌, ◌*◌, ◌^◌, ◌≤◌, ◌<◌, ◌≡◌, refl, sym, ap, ◌∙◌, Bool, true, false, not, ◌&&◌,
  List, [], ◌∷◌, ◌++◌, if◌then◌else◌, ltb, leb, nat_beq, length, length-append, lt→ltb, arith,
  Bool-cases, inl, inr,
}
use skeyevss_backend_service.Text.{Text, split}
use skeyevss_backend_service.Version.{
  Comparison, unequal, equal, greater, less, is_equal, zeros, compare_by_bytes, pad_a, pad_b,
  compare_padded, compare_little_ver, compare_arr_str, compare_versions,
}

abbrev pub is_digits : Text → Bool
is_digits [] = true
is_digits (c ∷ s) = (leb 48 c && leb c 57) && is_digits s

-- The number that decimal digits stand for.
pub number : Text → ℕ
number [] = 0
number (c ∷ s) = (c - 48) * 10 ^ length s + number s

pub compare_numbers : ℕ → ℕ → Comparison
compare_numbers m n = if ltb n m then greater else if ltb m n then less else equal

-- Parts that pair up: decimal digits, of the same width.
abbrev pub same_widths : List Text → List Text → Bool
same_widths [] [] = true
same_widths [] (b ∷ bs) = false
same_widths (a ∷ l) [] = false
same_widths (a ∷ l) (b ∷ m) =
    (is_digits a && is_digits b) && (nat_beq (length a) (length b) && same_widths l m)

-- The order of version numbers: the first parts that differ decide.
pub compare_parts : List Text → List Text → Comparison
compare_parts [] m = equal
compare_parts (a ∷ l) [] = equal
compare_parts (a ∷ l) (b ∷ m) =
    let rest = compare_parts l m in
    let first = compare_numbers (number a) (number b) in if is_equal first then rest else first

below : (y p x : ℕ) → y ≤ 9 * p → x < p → y + x < p * 10
below y p x h₀ h₁ = omega arith

above : (y z p u v : ℕ) → y + p ≤ z → u < p → y + u < z + v
above y z p u v h₀ h₁ = omega arith

-- A smaller first digit makes a smaller number.
first_digit : (d e p u v : ℕ) → d < e → u < p → d * p + u < e * p + v
first_digit d e p u v h₀ h₁ =
    let m : suc d * p ≤ e * p = mul-le-mul_right p h₀ in
    above (d * p) (e * p) p u v (rw (← suc-mul d p) m) h₁

digit_first :
    (c : ℕ) (s : Text) → is_digits (c ∷ s) ≡ true → (48 ≤ c) × (c ≤ 57) × (is_digits s ≡ true)
digit_first c s h = ground arith

number_bound : (s : Text) → is_digits s ≡ true → number s < 10 ^ length s
unfolding number
number_bound [] h = omega arith
number_bound (c ∷ s) h =
    let d = digit_first c s h in
    rw (pow-suc 10 (length s)) (
      below ((c - 48) * 10 ^ length s) (10 ^ length s) (number s)
        (mul-le-mul_right (10 ^ length s) (omega (arith, d.1))) (number_bound s d.2))

numbers-greater : (m n : ℕ) → n < m → compare_numbers m n ≡ greater
unfolding compare_numbers
numbers-greater m n h = ground arith

numbers-less : (m n : ℕ) → m < n → compare_numbers m n ≡ less
unfolding compare_numbers
numbers-less m n h = ground arith

numbers-add : (y m n : ℕ) → compare_numbers m n ≡ compare_numbers (y + m) (y + n)
unfolding compare_numbers
numbers-add y m n = ground arith

digit_step :
    (c d p u v : ℕ)
    → 48 ≤ c
    → 48 ≤ d
    → u < p
    → v < p
    → (if ltb d c then greater else if ltb c d then less else compare_numbers u v)
      ≡ compare_numbers ((c - 48) * p + u) ((d - 48) * p + v)
digit_step c d p u v h₀ h₁ h₂ h₃ = elim (Bool-cases (ltb d c)) [
  | inl more ↦
      let e : d - 48 < c - 48 = ground arith in
      rw more (sym (numbers-greater _ _ (first_digit (d - 48) (c - 48) p v u e h₃)))
  | inr not_more ↦ elim (Bool-cases (ltb c d)) [
    | inl fewer ↦
        let e : c - 48 < d - 48 = ground arith in
        rw (not_more, fewer) (sym (numbers-less _ _ (first_digit (c - 48) (d - 48) p u v e h₂)))
    | inr not_fewer ↦
        let e : c ≡ d = ground arith in
        rw (not_more, not_fewer)
          (numbers-add ((c - 48) * p) u v
            ∙ ap (λ x. compare_numbers ((c - 48) * p + u) ((x - 48) * p + v)) e)
  ]
]

compare_by_bytes-number :
    (a b : Text)
    → is_digits a ≡ true
    → is_digits b ≡ true
    → length a ≡ length b
    → compare_by_bytes a b ≡ compare_numbers (number a) (number b)
unfolding compare_by_bytes number compare_numbers
compare_by_bytes-number [] [] h₀ h₁ h₂ = refl
compare_by_bytes-number [] (d ∷ b) h₀ h₁ h₂ = ground arith
compare_by_bytes-number (c ∷ a) [] h₀ h₁ h₂ = ground arith
compare_by_bytes-number (c ∷ a) (d ∷ b) h₀ h₁ h₂ =
    let p = digit_first c a h₀ in
    let q = digit_first d b h₁ in
    let same : length a ≡ length b = omega arith in
    let v_bound : number b < 10 ^ length a = rw same (number_bound b q.2) in
    let ih = compare_by_bytes-number a b p.2 q.2 same in
    ap (λ r. if ltb d c then greater else if ltb c d then less else r) ih
    ∙ digit_step c d (10 ^ length a) (number a) (number b) p.0 q.0 (number_bound a p.2) v_bound
    ∙ ap (λ n. compare_numbers ((c - 48) * 10 ^ length a + number a) ((d - 48) * 10 ^ n + number b))
        same

little_same_width :
    (a b : Text) → length a ≡ length b → compare_little_ver a b ≡ compare_by_bytes a b
unfolding compare_little_ver pad_a pad_b compare_padded
little_same_width a b h = ground arith

widths_first :
    (a b : Text) (l m : List Text)
    → same_widths (a ∷ l) (b ∷ m) ≡ true
    → (is_digits a ≡ true) × (is_digits b ≡ true) × (length a ≡ length b) × (same_widths l m ≡ true)
widths_first a b l m h = ground arith

if-not : (b : Bool) (x y : Comparison) → (if not b then x else y) ≡ (if b then y else x)
if-not true x y = refl
if-not false x y = refl

-- Where the parts pair up, `Compare` is the order of version numbers.
pub compare_arr_str_lem :
    (l m : List Text) → same_widths l m ≡ true → compare_arr_str l m ≡ compare_parts l m
unfolding compare_arr_str compare_parts
compare_arr_str_lem [] [] h = refl
compare_arr_str_lem [] (b ∷ m) h = cc
compare_arr_str_lem (a ∷ l) [] h = cc
compare_arr_str_lem (a ∷ l) (b ∷ m) h =
    let w = widths_first a b l m h in
    let first : compare_little_ver a b ≡ compare_numbers (number a) (number b) =
      little_same_width a b w.2 ∙ compare_by_bytes-number a b w.0 w.1 w.2 in
    rw (first, compare_arr_str_lem l m w.3)
      (if-not (is_equal (compare_numbers (number a) (number b))) _ _)

longer_greater : (a b : Text) → length b < length a → compare_little_ver a b ≡ greater
unfolding compare_little_ver pad_a pad_b compare_padded
longer_greater a b h = ground (arith, append-nil b)

length-zeros : (n : ℕ) → length (zeros n) ≡ n
length-zeros zero = refl
length-zeros (suc n) = omega (arith, length-zeros n)

padded : (a b : Text) → length b < length a → length (b ++ zeros (length a - length b)) ≡ length a
padded a b h =
    length-append b (zeros (length a - length b))
    ∙ rw (length-zeros (length a - length b)) (omega arith)

shorter_padded :
    (a b : Text)
    → length b < length a
    → compare_little_ver b a ≡ compare_by_bytes (b ++ zeros (length a - length b)) a
unfolding compare_little_ver pad_a pad_b compare_padded
shorter_padded a b h = ground (arith, padded a b h)

-- The bug: a part is greater than a shorter one, and a shorter one that starts with a larger digit
-- is greater than it: of two such parts, whichever comes first is greater.
pub both_greater :
    (c d : ℕ) (a b : Text)
    → length b < length a
    → c < d
    → (compare_little_ver (c ∷ a) (d ∷ b) ≡ greater)
      × (compare_little_ver (d ∷ b) (c ∷ a) ≡ greater)
unfolding compare_by_bytes
both_greater c d a b h₀ h₁ = (
  longer_greater (c ∷ a) (d ∷ b) (omega arith),
  shorter_padded (c ∷ a) (d ∷ b) (omega arith) ∙ rw (lt→ltb c d h₁, compare_by_bytes) refl,
)

-- Where the versions fall into as many parts, which pair up as decimal numbers of the same width,
-- `Compare` gives the order of version numbers: the first parts that differ decide. Versions of
-- different numbers of parts are unequal.
pub compare_versions_lem :
    (ver_a ver_b : Text)
    → (length (split b'.' ver_a) ≡ length (split b'.' ver_b)
        → same_widths (split b'.' ver_a) (split b'.' ver_b) ≡ true)
    → compare_versions ver_a ver_b ≡ (
        if nat_beq (length (split b'.' ver_a)) (length (split b'.' ver_b))
        then compare_parts (split b'.' ver_a) (split b'.' ver_b)
        else unequal)
unfolding compare_versions
compare_versions_lem ver_a ver_b h =
    elim (Bool-cases (nat_beq (length (split b'.' ver_a)) (length (split b'.' ver_b)))) [
      | inl same ↦ rw (same, compare_versions) (compare_arr_str_lem _ _ (h (ground arith)))
      | inr other ↦ rw (other, compare_versions) refl
    ]
