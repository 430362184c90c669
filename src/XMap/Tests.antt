-- ===== src/XMap/Tests.antt =====
-- The theorems of XMap at a concrete map.
use skeyevss_backend_service.Prelude.{ℕ, ◌≡◌, some, List, [], ◌∷◌, nat_comparable}
use skeyevss_backend_service.XMap.{XMap}
use skeyevss_backend_service.XMap.Ops.{
  Op, sets, gets, removes, containing, gets_or_sets, sets_if_absent, run, spec_run, view,
  run-refines,
}

abbrev two_keys : XMap ℕ ℕ
two_keys = record { data_map = (1, 10) ∷ (2, 20) ∷ []; cap_hint = 4 }

abbrev script : List (Op ℕ ℕ)
script =
    sets 3 30 ∷ gets_or_sets 1 11 ∷ sets_if_absent 2 21 ∷ removes 1 ∷ containing 1 ∷ gets 3 ∷ []

run-refines_example :
    (y : XMap ℕ ℕ) × ((run script (some two_keys)).1 ≡ some y)
    × ((run script (some two_keys)).0 ≡ (spec_run script (view two_keys)).0)
    × (view y ≡ (spec_run script (view two_keys)).1)
run-refines_example = run-refines script two_keys
