-- ===== src/Version.antt =====
-- core/pkg/functions/version.go: comparison of version numbers. A version is the bytes of its
-- parts, taken apart at the dots.
pub mod Order
pub mod Tests
use skeyevss_backend_service.Prelude.{
  ℕ, zero, suc, ◌-◌, Bool, true, false, not, Option, none, some, List, [], ◌∷◌, ◌++◌, if◌then◌else◌,
  ltb, leb, nat_beq, length,
}
use skeyevss_backend_service.Text.{Text, split}

-- VUEQ, VEQ, VGT and VLT
pub data Comparison : Type 0 where
  unequal equal greater less : Comparison

abbrev pub is_equal : Comparison → Bool
is_equal equal = true
is_equal c = false

-- strings.Repeat("0", n)
abbrev pub zeros : ℕ → Text
zeros zero = []
zeros (suc n) = b'0' ∷ zeros n

-- compareByBytes: the second slice is read at the indices of the first; here both have the same
-- length, as its one caller sees to.
pub compare_by_bytes : Text → Text → Comparison
compare_by_bytes [] ver_b = equal
compare_by_bytes (a ∷ ver_a) [] = equal
compare_by_bytes (a ∷ ver_a) (b ∷ ver_b) =
    if ltb b a then greater else if ltb a b then less else compare_by_bytes ver_a ver_b

-- The first part is filled up with zeros to the length of the second. The code for the other case
-- adds `lengthB-lengthA` zeros, which is below 0 there, so it adds none.
pub pad_a : Text → Text → Text
pad_a ver_a ver_b =
    if ltb (length ver_a) (length ver_b)
    then ver_a ++ zeros (length ver_b - length ver_a)
    else ver_a

pub pad_b : Text → Text → Text
pad_b ver_a ver_b =
    if ltb (length ver_b) (length ver_a)
    then (if leb (length ver_b - length ver_a) 0
        then ver_b ++ zeros 0
        else ver_b ++ zeros (length ver_b - length ver_a))
    else ver_b

pub compare_padded : Text → Text → Comparison
unfolding compare_by_bytes
compare_padded a b =
    if ltb (length b) (length a)
    then greater
    else if ltb (length a) (length b)
    then less
    else compare_by_bytes a b

-- compareLittleVer
pub compare_little_ver : Text → Text → Comparison
unfolding pad_a pad_b compare_padded
compare_little_ver ver_a ver_b = compare_padded (pad_a ver_a ver_b) (pad_b ver_a ver_b)

-- compareArrStr
pub compare_arr_str : List Text → List Text → Comparison
compare_arr_str [] bs = equal
compare_arr_str (a ∷ rest_a) [] = equal
compare_arr_str (a ∷ rest_a) (b ∷ rest_b) =
    let rest = compare_arr_str rest_a rest_b in
    let little = compare_little_ver a b in if not (is_equal little) then little else rest

-- Compare
pub compare_versions : Text → Text → Comparison
unfolding compare_arr_str split
compare_versions ver_a ver_b =
    let arr_a = split b'.' ver_a in
    let arr_b = split b'.' ver_b in
    if not (nat_beq (length arr_a) (length arr_b)) then unequal else compare_arr_str arr_a arr_b
