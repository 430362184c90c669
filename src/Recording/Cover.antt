-- ===== src/Recording/Cover.antt =====
-- The time ranges of a plan cover the hours that are on.
use skeyevss_backend_service.Prelude.{
  ℕ, suc, ◌+◌, ◌≤◌, ◌<◌, ◌≡◌, ◌∙◌, Bool, false, ◌&&◌, ◌||◌, Option, none, some, List, [], ◌∷◌, ◌++◌,
  ltb, leb, nat_beq, length, arith, Bool-cases, inl, inr,
}
use skeyevss_backend_service.Text.{Text}
use skeyevss_backend_service.XMap.Keyed.{any}
use skeyevss_backend_service.Recording.{
  is_on, hour_loop, close_last, at_hour, get_time_ranges, within,
}

any-snoc {ℓ} :
    {A : Type ℓ} (q : A → Bool) (l : List A) (a : A) → any q (l ++ a ∷ []) ≡ (any q l || q a)
any-snoc q [] a = ground arith
any-snoc q (x ∷ l) a = ground (arith, any-snoc q l a)

-- The hour `h` of the day is on, where `data` begins at the hour `hour`.
pub on_at : ℕ → ℕ → List Text → Bool
on_at h hour [] = false
on_at h hour (d ∷ hours) = (nat_beq h hour && is_on d) || on_at h (suc hour) hours

-- Whether the hours from `a` to `b` cover `h`; where the end counts, `b` too.
abbrev covered : Bool → ℕ → ℕ → ℕ → Bool
covered closed h a b = (leb a h && ltb h b) || (closed && (ltb a h && leb h b))

-- The range that is open covers `h`, up to `hour`.
abbrev opened : Bool → Option ℕ → ℕ → ℕ → Bool
opened closed none hour h = false
opened closed (some start) hour h = covered closed h start hour

-- The hour `h` is on, or the end counts and the hour before is on.
abbrev pub lit : Bool → ℕ → ℕ → List Text → Bool
lit closed h hour hours = on_at h hour hours || (closed && on_at h (suc hour) hours)

abbrev StartsBefore : Option ℕ → ℕ → Type 0
StartsBefore none hour = 0 ≤ hour
StartsBefore (some start) hour = start < hour

module _ {ℓ} {R : Type ℓ} (close : ℕ → ℕ → R) (covers : ℕ → R → Bool) (closed : Bool)
    (covers-close : (h a b : ℕ) → a < b → covers h (close a b) ≡ covered closed h a b) where
  covers-hour_loop :
      (h hour : ℕ) (start : Option ℕ) (hours : List Text) (result : List R)
      → StartsBefore start hour
      → hour + length hours ≡ 24
      → any (covers h) (close_last (λ s. close s 24) (hour_loop close hour start hours result))
        ≡ (any (covers h) result || (opened closed start hour h || lit closed h hour hours))
  unfolding hour_loop close_last on_at
  covers-hour_loop h hour none [] result b e = ground arith
  covers-hour_loop h hour (some s) [] result b e =
      any-snoc (covers h) result (close s 24)
      ∙ rw (covers-close h s 24 (omega (arith, b, e))) (ground arith)
  covers-hour_loop h hour none (d ∷ hours) result b e = elim (Bool-cases (is_on d)) [
    | inl on ↦
        rw (on, hour_loop)
          (covers-hour_loop h (suc hour) (some hour) hours result (omega arith) (omega arith)
            ∙ ground arith)
    | inr off ↦
        rw (off, hour_loop)
          (covers-hour_loop h (suc hour) none hours result (omega arith) (omega arith)
            ∙ ground arith)
  ]
  covers-hour_loop h hour (some s) (d ∷ hours) result b e = elim (Bool-cases (is_on d)) [
    | inl on ↦
        rw (on, hour_loop)
          (covers-hour_loop h (suc hour) (some s) hours result (omega arith) (omega arith)
            ∙ ground arith)
    | inr off ↦
        rw (off, hour_loop)
          (covers-hour_loop h (suc hour) none hours (result ++ close s hour ∷ []) (omega arith)
              (omega arith)
            ∙ rw (any-snoc (covers h) result (close s hour), covers-close h s hour b)
                (ground arith))
  ]

-- At a time within the hour `h` of the day some range of a plan of 24 hours holds the time exactly
-- when the plan has the hour on or, in the first second of the hour, the hour before.
pub get_time_ranges_cover :
    (hours : List Text) (start_of_day h r : ℕ)
    → length hours ≡ 24
    → r < 3600
    → any (within (at_hour start_of_day h + r)) (get_time_ranges hours start_of_day)
      ≡ lit (nat_beq r 0) h 0 hours
unfolding get_time_ranges
get_time_ranges_cover hours start_of_day h r e h₁ =
    covers-hour_loop (λ a b. (at_hour start_of_day a, at_hour start_of_day b))
      (λ h. within (at_hour start_of_day h + r)) (nat_beq r 0) (λ h a b less. ground arith) h 0 none
      hours [] (omega arith) (omega (arith, e))
    ∙ ground arith
