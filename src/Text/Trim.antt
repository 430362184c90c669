-- ===== src/Text/Trim.antt =====
-- strings.TrimSpace, strings.TrimPrefix and strings.TrimSuffix on a text in a frame.
use skeyevss_backend_service.Prelude.{
  ℕ, ◌-◌, ◌≡◌, refl, ap, ◌∙◌, Bool, true, false, ◌&&◌, List, [], ◌∷◌, ◌++◌, if◌then◌else◌, leb,
  length, take, drop, length-append, arith,
}
use skeyevss_backend_service.Text.{
  Text, text_beq, text_beq_iff, is_space, trim_left, trim_right, drop_space, trim_space,
}

-- strings.HasPrefix
abbrev pub starts_with : Text → Text → Bool
starts_with [] s = true
starts_with (c ∷ p) [] = false
starts_with (c ∷ p) (d ∷ s) = text_beq (c ∷ []) (d ∷ []) && starts_with p s

pub trim_prefix : Text → Text → Text
trim_prefix s p = if starts_with p s then drop (length p) s else s

pub trim_suffix : Text → Text → Text
trim_suffix s p =
    let n = length s - length p in
    if leb (length p) (length s) && text_beq (drop n s) p then take n s else s

pub take-append {ℓ} : {A : Type ℓ} (s t : List A) → take (length s) (s ++ t) ≡ s
take-append [] t = refl
take-append (c ∷ s) t = ap (λ l. c ∷ l) (take-append s t)

pub drop-append {ℓ} : {A : Type ℓ} (s t : List A) → drop (length s) (s ++ t) ≡ t
drop-append [] t = refl
drop-append (c ∷ s) t = drop-append s t

starts_with-append : (p s : Text) → starts_with p (p ++ s) ≡ true
starts_with-append [] s = refl
starts_with-append (c ∷ p) s = rw ((text_beq_iff (c ∷ []) (c ∷ [])).1 refl) (starts_with-append p s)

pub trim_prefix-append : (p s : Text) → trim_prefix (p ++ s) p ≡ s
unfolding trim_prefix
trim_prefix-append p s = rw (starts_with-append p s) (drop-append p s)

cut-append : (s p : Text) → length (s ++ p) - length p ≡ length s
cut-append s p = omega (arith, length-append s p)

fits-append : (s p : Text) → leb (length p) (length (s ++ p)) ≡ true
fits-append s p = ground (arith, length-append s p)

pub trim_suffix-append : (s p : Text) → trim_suffix (s ++ p) p ≡ s
unfolding trim_suffix
trim_suffix-append s p =
    rw (fits-append s p) (
      rw (cut-append s p) (rw (drop-append s p) (rw ((text_beq_iff p p).1 refl) (take-append s p))))

trim_right-last : (s : Text) (c : ℕ) → is_space c ≡ false → trim_right (s ++ c ∷ []) ≡ s ++ c ∷ []
unfolding trim_right is_space
trim_right-last [] c is_black = rw is_black refl
trim_right-last (d ∷ []) c is_black = ap (λ l. drop_space d l) (trim_right-last [] c is_black)
trim_right-last (d ∷ e ∷ s) c is_black =
    ap (λ l. drop_space d l) (trim_right-last (e ∷ s) c is_black)

trim_left-first : (c : ℕ) (s : Text) → is_space c ≡ false → trim_left (c ∷ s) ≡ c ∷ s
unfolding trim_left is_space
trim_left-first c s is_black = rw is_black refl

pub trim_space-frame :
    (c : ℕ) (s : Text) (d : ℕ)
    → is_space c ≡ false
    → is_space d ≡ false
    → trim_space (c ∷ s ++ d ∷ []) ≡ c ∷ s ++ d ∷ []
unfolding trim_space
trim_space-frame c s d black_c black_d =
    ap trim_left (trim_right-last (c ∷ s) d black_d) ∙ trim_left-first c (s ++ d ∷ []) black_c

pub black_equals : is_space b'=' ≡ false
unfolding is_space
black_equals = refl

pub black_b : is_space b'b' ≡ false
unfolding is_space
black_b = refl
