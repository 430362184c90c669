-- ===== src/Categories/Tests.antt =====
-- The theorem of Categories at a tree of three rows.
use skeyevss_backend_service.Prelude.{
  ℕ, ◌<◌, ◌≡◌, refl, Option, some, List, [], ◌∷◌, ℤ, pos, pos_part, ◌-◌, arith,
}
use skeyevss_backend_service.Categories.{Item, Forest, finish, int_key, string_key, make_trees}
use skeyevss_backend_service.Categories.Build.{In, here, there, make_trees_finishes}

abbrev row : ℕ → ℕ → Item ℤ ℕ
row id pid = record { id = pos id; pid = pos pid; name = []; raw = id }

abbrev rows : List (Option (Item ℤ ℕ))
rows = some (row 1 0) ∷ some (row 2 1) ∷ some (row 3 0) ∷ []

abbrev height : ℤ → ℕ
height z = 2 - pos_part z

falls : (x : Item ℤ ℕ) → In x rows → height x.id < height x.pid
falls x here = omega arith
falls x (there here) = omega arith
falls x (there (there here)) = omega arith
falls x (there (there (there i))) = elim i [ ]

make_trees_finishes_example : (trees : Forest ℤ ℕ) × (make_trees 3 rows (pos 0) ≡ finish trees)
make_trees_finishes_example = make_trees_finishes height rows 3 (pos 0) refl falls (omega arith)
