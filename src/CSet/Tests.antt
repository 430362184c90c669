-- ===== src/CSet/Tests.antt =====
-- The refinement of CSet on a set of numbers.
use mathlib.Core.List.{Nodup-nil}
use mathlib.Core.List.Perm
use skeyevss_backend_service.Prelude.{ℕ, ◌≡◌, some, List, [], ◌∷◌, nat_comparable}
use skeyevss_backend_service.GoMap.{RangeOrder}
use skeyevss_backend_service.CSet.{CSet, contains}
use skeyevss_backend_service.CSet.Contents.{
  SetOp, adds, removes, CSetIsValid, run, spec_run, set-run-refines,
}

abbrev in_place : RangeOrder (ℕ × Unit {0})
in_place = record { arrange = λ l. l; arrange-perm = Perm.refl }

abbrev nothing : CSet ℕ
nothing = record { members = [] }

abbrev calls : List (SetOp ℕ)
calls = adds (2 ∷ 3 ∷ 1 ∷ []) ∷ removes (2 ∷ []) ∷ []

set-run-refines_example :
    (n : CSet ℕ) × (run in_place calls (some nothing) ≡ some n)
    × CSetIsValid n
    × ((x : ℕ) → contains x (some n) ≡ spec_run in_place calls (λ y. contains y (some nothing)) x)
set-run-refines_example = set-run-refines in_place calls nothing Nodup-nil
