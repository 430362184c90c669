-- ===== src/Text/Decimal.antt =====
-- `%d` can be read back, so different numbers print differently.
use skeyevss_backend_service.Prelude.{
  ℕ, zero, suc, ◌+◌, ◌-◌, ◌*◌, ◌/◌, ◌%◌, ◌<◌, ◌≡◌, refl, sym, ap, ◌∙◌, [], ◌∷◌, ◌++◌, arith, ltb,
  Bool-cases, inl, inr,
}
use skeyevss_backend_service.Text.{Text, print_digits, decimal}

value_from : ℕ → Text → ℕ
value_from acc [] = acc
value_from acc (c ∷ s) = value_from (acc * 10 + (c - 48)) s

value_from-append :
    (acc : ℕ) (s : Text) (c : ℕ) → value_from acc (s ++ c ∷ []) ≡ value_from acc s * 10 + (c - 48)
unfolding value_from
value_from-append acc [] c = refl
value_from-append acc (d ∷ s) c = value_from-append (acc * 10 + (d - 48)) s c

value-print_digits : (fuel n : ℕ) → n < fuel → value_from 0 (print_digits fuel n) ≡ n
unfolding print_digits value_from
value-print_digits zero n h = elim h [ ]
value-print_digits (suc fuel) n h = elim (Bool-cases (ltb n 10)) [
  | inl small ↦ rw small (omega arith)
  | inr large ↦
      rw (large, value_from-append 0 (print_digits fuel (n / 10)) (48 + n % 10))
        (ground (arith, value-print_digits fuel (n / 10)))
]

pub decimal_injective : (m n : ℕ) → decimal m ≡ decimal n → m ≡ n
unfolding decimal
decimal_injective m n h =
    sym (value-print_digits (suc m) m (omega arith))
    ∙ ap (value_from 0) h
    ∙ value-print_digits (suc n) n (omega arith)
