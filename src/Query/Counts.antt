-- ===== src/Query/Counts.antt =====
-- core/pkg/orm/orm.db.condition.go: the question marks in the parts of a where clause.
use skeyevss_backend_service.Prelude.{
  ℕ, ◌≡◌, refl, ◌∙◌, true, Option, none, some, List, [], ◌∷◌, ◌++◌, map, length, arith, Bool-cases,
  inl, inr,
}
use skeyevss_backend_service.Text.{Text, text_beq, text_comparable, bytes}
use skeyevss_backend_service.Text.Cutset.{
  count, count-append, count-trim, count-repeat, join, to_lower, repeat,
}
use skeyevss_backend_service.Arrays.{contains}
use skeyevss_backend_service.Query.{
  Original, Condition, Conditions, empty, item, Builder, Built, failed, built, operators,
  logical_operators,
}
use skeyevss_backend_service.Query.Build.{
  quote_column, marks, in_word, listed, single, json_contains, original_body, clause,
}
use skeyevss_backend_service.Query.Frames.{Each-known}

-- The question marks of a text.
abbrev pub marked : Text → ℕ
marked = count b'?'

pub marked-marks : (n : ℕ) → marked (marks n) ≡ n
marked-marks n =
    count-trim b'?' (bytes ",") (repeat (bytes "?,") n) refl ∙ count-repeat b'?' (bytes "?,") n refl

pub marked-in_word : (op : Text) → marked (in_word op) ≡ 0
marked-in_word op = elim (Bool-cases (text_beq (to_lower op) (bytes "notin"))) [
  | inl n ↦ rw n refl
  | inr n ↦ rw n refl
]

pub marked-operator : (op : Text) → contains op operators ≡ true → marked op ≡ 0
marked-operator op known =
    Each-known (λ v. marked v ≡ 0) op operators
      (
        refl,
        (
          refl,
          (
            refl,
            (
              refl,
              (
                refl,
                (
                  refl,
                  (
                    refl,
                    (refl, (refl, (refl, (refl, (refl, (refl, (refl, (refl, (refl, tt))))))))),
                  ),
                ),
              ),
            ),
          ),
        ),
      )
      known

pub marked-logical_operator : (op : Text) → contains op logical_operators ≡ true → marked op ≡ 0
marked-logical_operator op known =
    Each-known (λ v. marked v ≡ 0) op logical_operators
      (refl, (refl, (refl, (refl, (refl, (refl, tt)))))) known

pub marked-closed : (t : Text) → marked (t ++ bytes ")") ≡ marked t
marked-closed t = omega (arith, count-append b'?' t (bytes ")"))

pub marked-clause : (op t : Text) → marked op ≡ 0 → marked (clause op t) ≡ marked t
marked-clause op t h = omega (arith, h, count-append b'?' op (b' ' ∷ t))

module _ {A : Type 0} where
  -- A body has a mark for each argument.
  abbrev pub IsMarked : Built A → Type 0
  IsMarked (failed f) = Unit
  IsMarked (built t args) = marked t ≡ length args

  -- No column has a mark, and an original has one for each of its values.
  abbrev pub IsBalancedOriginal : Option (Original A) → Type 0
  IsBalancedOriginal none = Unit
  IsBalancedOriginal (some o) = marked o.query ≡ length o.values

  abbrev pub IsBalanced : Conditions A → Type 0
  IsBalanced empty = Unit
  IsBalanced (item c inner rest) =
      (marked c.column ≡ 0) × IsBalancedOriginal c.original × IsBalanced inner × IsBalanced rest

  pub marked-quote_column :
      (b : Builder A) (column : Text) → marked (quote_column b column) ≡ marked column
  unfolding quote_column
  marked-quote_column b column =
      elim (Bool-cases (text_beq (to_lower b.database_type) (bytes "postgres"))) [
        | inl p ↦ rw p (omega (arith, count-append b'?' column (bytes "\"")))
        | inr p ↦ (elim (Bool-cases (text_beq (to_lower b.database_type) (bytes "sqlserver"))) [
          | inl s ↦ rw (p, s) (omega (arith, count-append b'?' column (bytes "]")))
          | inr s ↦ rw (p, s) (omega (arith, count-append b'?' column (bytes "`")))
        ])
      ]

  pub listed-IsMarked :
      (b : Builder A) (c : Condition A) → marked c.column ≡ 0 → IsMarked (listed b c)
  unfolding listed
  listed-IsMarked b c blank =
      simp (count-append, marked-quote_column, blank, marked-in_word, marked-marks) (omega arith)

  pub single-IsMarked :
      (b : Builder A) (c : Condition A)
      → marked c.column ≡ 0
      → contains c.operator operators ≡ true
      → IsMarked (single b c)
  unfolding single
  single-IsMarked b c blank known =
      simp (count-append, marked-quote_column, blank, marked-operator c.operator known)

  pub original_body-IsMarked :
      (o : Original A) → marked o.query ≡ length o.values → IsMarked (original_body o)
  original_body-IsMarked o h = omega (arith, h, count-append b'?' o.query (bytes ")"))

  pub join-marked :
      (column : Text) (values : List A)
      → marked column ≡ 0
      → marked (join (bytes " OR ") (map (λ v. bytes "? MEMBER OF(" ++ column ++ bytes ")") values))
        ≡ length values
  join-marked column [] blank = refl
  join-marked column (v ∷ []) blank = simp (count-append, blank)
  join-marked column (v ∷ w ∷ values) blank =
      simp (count-append, blank, join-marked column (w ∷ values) blank) (omega arith)

  pub json_contains-marked :
      (b : Builder A) (column : Text) (values : List A)
      → marked column ≡ 0
      → marked (json_contains b column values).query ≡ length (json_contains b column values).values
  unfolding json_contains
  json_contains-marked b column values blank =
      elim (Bool-cases (text_beq b.database_type (bytes "sqlite"))) [
        | inl lite ↦ rw lite (simp (count-append, blank, marked-marks) (omega arith))
        | inr other ↦ rw other (simp (count-append, join-marked column values blank) (omega arith))
      ]
