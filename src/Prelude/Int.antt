-- ===== src/Prelude/Int.antt =====
-- Signed integers over the native numbers, under the library's names.
use Prim.Native.Nat.{ℕ, suc, ◌+◌, ◌-◌}
use mathlib.Core.Bool.{Bool, true, false}
use mathlib.Core.Path.{◌≡◌, ap}
use mathlib.Core.Logic.{◌↔◌}
use skeyevss_backend_service.Prelude.Tests.{leb, ltb, nat_beq, nat_beq_iff, if◌then◌else◌}
use skeyevss_backend_service.Prelude.Eq.{Comparable}

-- `negsuc n` is -(n + 1).
pub data ℤ : Type 0 where
  pos : ℕ → ℤ
  negsuc : ℕ → ℤ

abbrev pub pos_part : ℤ → ℕ
pos_part (pos n) = n
pos_part (negsuc n) = 0

abbrev pub neg_part : ℤ → ℕ
neg_part (pos n) = 0
neg_part (negsuc n) = suc n

-- a - b, as an integer.
abbrev pub sub_ℕ : ℕ → ℕ → ℤ
sub_ℕ a b = if leb b a then pos (a - b) else negsuc (b - a - 1)

infixl 65 ◌+ℤ◌
abbrev pub ◌+ℤ◌ : ℤ → ℤ → ℤ
a +ℤ b = sub_ℕ (pos_part a + pos_part b) (neg_part a + neg_part b)

abbrev pub ltb_ℤ : ℤ → ℤ → Bool
ltb_ℤ a b = ltb (pos_part a + neg_part b) (pos_part b + neg_part a)

abbrev pub int_beq : ℤ → ℤ → Bool
int_beq (pos m) (pos n) = nat_beq m n
int_beq (negsuc m) (negsuc n) = nat_beq m n
int_beq a b = false

neg_index : ℤ → ℕ
neg_index (pos n) = 0
neg_index (negsuc n) = n

pub int_beq_iff : (a b : ℤ) → (int_beq a b ≡ true) ↔ (a ≡ b)
unfolding neg_index
int_beq_iff (pos m) (pos n) =
    (λ h. ap pos ((nat_beq_iff m n).0 h), λ h. (nat_beq_iff m n).1 (ap pos_part h))
int_beq_iff (negsuc m) (negsuc n) =
    (λ h. ap negsuc ((nat_beq_iff m n).0 h), λ h. (nat_beq_iff m n).1 (ap neg_index h))
int_beq_iff (pos m) (negsuc n) = (λ h. cc, λ h. cc)
int_beq_iff (negsuc m) (pos n) = (λ h. cc, λ h. cc)

instance abbrev pub int_comparable : Comparable ℤ
int_comparable = record { equals = int_beq; equals_iff = int_beq_iff }
