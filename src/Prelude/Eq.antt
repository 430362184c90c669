-- ===== src/Prelude/Eq.antt =====
-- Go's `comparable`: a Boolean equality that decides equality.
use Prim.Native.Nat.{ℕ}
use mathlib.Core.HLevel.{hedberg}
use mathlib.Core.Path.{◌≡◌, refl, sym, ◌∙◌}
use mathlib.Core.Logic.{◌↔◌, inl, inr}
use mathlib.Core.Bool.{Bool, true, false≢true}
use skeyevss_backend_service.Prelude.Tests.{nat_beq, nat_beq_iff, Bool-cases}

pub record Comparable {ℓ} (T : Type ℓ) : Type ℓ where
  pub equals : T → T → Bool
  pub equals_iff : (x y : T) → (equals x y ≡ true) ↔ (x ≡ y)

infix 50 ◌==◌
abbrev pub ◌==◌ {ℓ} : {A : Type ℓ} ⦃e : Comparable A⦄ → A → A → Bool
◌==◌ ⦃e⦄ = e.equals

instance abbrev pub nat_comparable : Comparable ℕ
nat_comparable = record { equals = nat_beq; equals_iff = nat_beq_iff }

pub beq_refl {ℓ} : {A : Type ℓ} ⦃e : Comparable A⦄ (a : A) → (a == a) ≡ true
beq_refl ⦃e⦄ a = (e.equals_iff a a).1 refl

-- A type with a Boolean equality is a set.
pub Comparable-set {ℓ} : {A : Type ℓ} ⦃e : Comparable A⦄ → IsSet A
Comparable-set {A} ⦃e⦄ = hedberg decided
  where
    decided : Discrete A
    decided a b = elim (Bool-cases (e.equals a b)) [
      | inl same ↦ yes ((e.equals_iff a b).0 same)
      | inr other ↦ no (λ p. false≢true (sym other ∙ (e.equals_iff a b).1 p))
    ]
