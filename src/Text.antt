-- ===== src/Text.antt =====
-- Strings as the bytes that Go's `string` holds, and what the program uses of the standard library
-- on them: `==`, `strings.Split` with a separator of one byte, `strings.TrimSpace` (ASCII white
-- space), `strconv.Atoi` and the verb `%d`.
pub mod Split
pub mod Trim
pub mod Decimal
pub mod Cutset
use Prim.Native.Char.{Char, code}
use skeyevss_backend_service.Prelude.{
  ℕ, zero, suc, ◌+◌, ◌-◌, ◌*◌, ◌/◌, ◌%◌, ◌^◌, ◌≡◌, ◌↔◌, refl, ap, Bool, true, false, ◌&&◌, ◌||◌,
  Option, none, some, List, [], ◌∷◌, ◌++◌, String, Comparable, nat_beq, nat_beq_iff, leb, ltb,
  if◌then◌else◌, ℤ, pos, negsuc, arith, Bool-cases, inl, inr,
}

abbrev pub Text : Type 0
Text = List ℕ

-- The bytes of an ASCII literal.
abbrev pub bytes : String → Text
bytes String.[] = []
bytes (String.◌∷◌ c s) = code c ∷ bytes s

abbrev pub text_beq : Text → Text → Bool
text_beq [] [] = true
text_beq [] (y ∷ ys) = false
text_beq (x ∷ xs) [] = false
text_beq (x ∷ xs) (y ∷ ys) = nat_beq x y && text_beq xs ys

pub text_beq_iff : (a b : Text) → (text_beq a b ≡ true) ↔ (a ≡ b)
text_beq_iff [] [] = (λ h. refl, λ h. refl)
text_beq_iff [] (y ∷ ys) = (λ h. cc, λ h. cc)
text_beq_iff (x ∷ xs) [] = (λ h. cc, λ h. cc)
text_beq_iff (x ∷ xs) (y ∷ ys) =
    (λ h. ground (arith, text_beq_iff xs ys), λ h. ground (arith, text_beq_iff xs ys))

instance abbrev pub text_comparable : Comparable Text
text_comparable = record { equals = text_beq; equals_iff = text_beq_iff }

-- A byte before a list of pieces, when it is the separator and when it is not.
abbrev split_at : Bool → ℕ → List Text → List Text
split_at true c pieces = [] ∷ pieces
split_at false c [] = (c ∷ []) ∷ []
split_at false c (p ∷ pieces) = (c ∷ p) ∷ pieces

-- The pieces between separators; a text with no separator is one piece.
unfoldable pub split : ℕ → Text → List Text
split sep [] = [] ∷ []
split sep (c ∷ s) = split_at (nat_beq c sep) c (split sep s)

pub is_space : ℕ → Bool
is_space c = nat_beq c 32 || (leb 9 c && leb c 13)

pub trim_left : Text → Text
trim_left [] = []
trim_left (c ∷ s) = let rest = trim_left s in if is_space c then rest else c ∷ s

abbrev pub drop_space : ℕ → Text → Text
drop_space c [] = if is_space c then [] else c ∷ []
drop_space c (d ∷ r) = c ∷ d ∷ r

-- Drops the white space at the end.
pub trim_right : Text → Text
trim_right [] = []
trim_right (c ∷ s) = drop_space c (trim_right s)

unfoldable pub trim_space : Text → Text
unfolding trim_left trim_right is_space
trim_space s = trim_left (trim_right s)

digits_value : ℕ → Text → Option ℕ
digits_value acc [] = some acc
digits_value acc (c ∷ s) =
    let rest = digits_value (acc * 10 + (c - 48)) s in if leb 48 c && leb c 57 then rest else none

-- At least one digit.
unsigned : Text → Option ℕ
unfolding digits_value
unsigned [] = none
unsigned (c ∷ s) = digits_value 0 (c ∷ s)

in_range : Bool → Option ℕ → Option ℤ
in_range negative none = none
in_range false (some n) = if ltb n (2 ^ 63) then some (pos n) else none
in_range true (some zero) = some (pos 0)
in_range true (some (suc n)) = if ltb n (2 ^ 63) then some (negsuc n) else none

-- `%d` of a natural number, with fuel: a number below 10 to the fuel is printed whole.
print_digits : ℕ → ℕ → Text
print_digits zero n = []
print_digits (suc fuel) n =
    let front = print_digits fuel (n / 10) in
    if ltb n 10 then (48 + n) ∷ [] else front ++ (48 + n % 10) ∷ []

unfoldable pub decimal : ℕ → Text
unfolding print_digits
decimal n = print_digits (suc n) n

-- An optional sign, then decimal digits; `none` is an error, out of the range of int64 included.
unfoldable pub atoi : Text → Option ℤ
unfolding unsigned in_range
atoi [] = none
atoi (c ∷ s) =
    if nat_beq c b'-'
    then in_range true (unsigned s)
    else if nat_beq c b'+'
    then in_range false (unsigned s)
    else in_range false (unsigned (c ∷ s))
