-- ===== src/Text/Split.antt =====
-- How `split` takes apart a text that was put together with separators.
use skeyevss_backend_service.Prelude.{
  ℕ, ◌≡◌, refl, Bool, true, ◌&&◌, List, [], ◌∷◌, ◌++◌, nat_beq, not, arith, Bool-cases, inl, inr,
  nat_beq_iff,
}
use skeyevss_backend_service.Text.{Text, split}

-- No byte of the text is the separator.
abbrev pub lacks : ℕ → Text → Bool
lacks sep [] = true
lacks sep (c ∷ s) = not (nat_beq c sep) && lacks sep s

pub split_piece :
    (sep : ℕ) (p s : Text) → lacks sep p ≡ true → split sep (p ++ sep ∷ s) ≡ p ∷ split sep s
unfolding split
split_piece sep [] s h = rw ((nat_beq_iff sep sep).1 refl)
split_piece sep (c ∷ p) s h = ground (arith, split_piece sep p s)

pub split_last : (sep : ℕ) (p : Text) → lacks sep p ≡ true → split sep p ≡ p ∷ []
unfolding split
split_last sep [] h = refl
split_last sep (c ∷ p) h = ground (arith, split_last sep p)

-- Every text has a first piece, and no piece holds the separator.
pub split_first :
    (sep : ℕ) (s : Text)
    → (p : Text) × (ps : List Text) × (split sep s ≡ p ∷ ps) × (lacks sep p ≡ true)
unfolding split
split_first sep [] = ([], [], refl, refl)
split_first sep (c ∷ s) =
    let r = split_first sep s in
    elim (Bool-cases (nat_beq c sep)) [
      | inl here ↦ ([], split sep s, ground arith, refl)
      | inr other ↦ (c ∷ r.0, r.1, ground (arith, r.2), ground (arith, r.3))
    ]
