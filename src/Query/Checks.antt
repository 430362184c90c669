-- ===== src/Query/Checks.antt =====
-- core/pkg/orm/orm.db.condition.go: what the checks of an item make sure of.
use skeyevss_backend_service.Prelude.{
  ◌≡◌, refl, ap, Bool, true, false, Option, none, [], ◌∷◌, arith, Bool-cases, Option-cases, inl,
  inr, subst,
}
use skeyevss_backend_service.Text.{Text, text_beq, text_comparable}
use skeyevss_backend_service.Arrays.{contains}
use skeyevss_backend_service.Query.{Condition, Builder, Failure, logical_operators, operators}
use skeyevss_backend_service.Query.Build.{
  has_original, with_operator, with_logical_operator, column_failure, early_failure, checked_with,
  checked,
}

pub operator-given : (op : Text) → contains op operators ≡ true → text_beq op [] ≡ false
unfolding contains
operator-given [] h = ground arith
operator-given (c ∷ op) h = refl

pub logical_operator-given :
    (op : Text) → contains op logical_operators ≡ true → text_beq op [] ≡ false
unfolding contains
logical_operator-given [] h = ground arith
logical_operator-given (c ∷ op) h = refl

module _ {A : Type 0} where
  pub checked_again :
      (b : Builder A) (no_inner : Bool) (c : Condition A)
      → checked b no_inner (checked b no_inner c).0 ≡ checked b no_inner c
  unfolding checked checked_with early_failure with_operator with_logical_operator column_failure
  checked_again b no_inner c = elim (Bool-cases (text_beq c.operator [])) [
    | inl blank ↦ (elim (Bool-cases (text_beq c.logical_operator [])) [
      | inl l ↦ ground (arith, blank, l)
      | inr l ↦ ground (arith, blank, l)
    ])
    | inr given ↦ (elim (Bool-cases (text_beq c.logical_operator [])) [
      | inl l ↦ ground (arith, given, l)
      | inr l ↦ ground (arith, given, l)
    ])
  ]

  -- What the checks have made sure of.
  abbrev pub Passed : Condition A → Type 0
  Passed c =
      (contains c.operator operators ≡ true)
      × (contains c.logical_operator logical_operators ≡ true)

  pub operator-with_logical_operator :
      (c : Condition A) → (with_logical_operator c).operator ≡ c.operator
  unfolding with_logical_operator
  operator-with_logical_operator c = elim (Bool-cases (text_beq c.logical_operator [])) [
    | inl blank ↦ rw blank refl
    | inr given ↦ rw given refl
  ]

  pub Passed-defaults :
      (c : Condition A)
      → contains (with_operator c).operator operators ≡ true
      → contains (with_logical_operator (with_operator c)).logical_operator logical_operators ≡ true
      → Passed (with_logical_operator (with_operator c))
  Passed-defaults c o l = (rw (operator-with_logical_operator (with_operator c)) o, l)

  pub checked-Passed :
      (b : Builder A) (no_inner : Bool) (c d : Condition A)
      → checked b no_inner c ≡ (d, none)
      → Passed d
  unfolding checked checked_with
  checked-Passed b no_inner c d e = elim (Option-cases (early_failure b no_inner c)) [
    | inr (f, bad) ↦ ground (arith, bad, e)
    | inl fine ↦ elim (Bool-cases (contains (with_operator c).operator operators)) [
      | inr x ↦ ground (arith, fine, x, e)
      | inl x ↦
          elim (Bool-cases (
            contains (with_logical_operator (with_operator c)).logical_operator
              logical_operators)) [
                | inr y ↦ ground (arith, fine, x, y, e)
                | inl y ↦
                    subst Passed
                      (ap (λ (r : Condition A × Option Failure). r.0) (rw (fine, x, y) at e))
                      (Passed-defaults c x y)
              ]
    ]
  ]

  -- An item that has passed, and has an original, passes again.
  pub checked-original :
      (b : Builder A) (no_inner : Bool) (c : Condition A)
      → has_original c.original ≡ true
      → Passed c
      → checked b no_inner c ≡ (c, none)
  unfolding checked checked_with early_failure with_operator with_logical_operator
  checked-original b no_inner c original (o, l) =
      rw (original, operator-given c.operator o, logical_operator-given c.logical_operator l, o, l)
        refl
