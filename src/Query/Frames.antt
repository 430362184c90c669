-- ===== src/Query/Frames.antt =====
-- The bodies of conditions start and end with a byte that no logical operator has, so that trimming
-- the operators removes only the one in front.
use skeyevss_backend_service.Prelude.{
  ℕ, ◌≡◌, refl, ◌∙◌, subst, true, false, Option, none, some, List, [], ◌∷◌, ◌++◌, length, drop,
  nat_beq, arith, Bool-cases, ◌⊎◌, inl, inr,
}
use skeyevss_backend_service.Text.{Text, text_beq, text_beq_iff, text_comparable, bytes}
use skeyevss_backend_service.Text.Cutset.{
  in_set, trim_start, first_free, last_free, trim_start-free, trim_end-free, last_free-append,
  last_free-trim_start, to_lower,
}
use skeyevss_backend_service.Arrays.{contains}
use skeyevss_backend_service.Query.{
  Original, Condition, Builder, Built, failed, built, logical_operators,
}
use skeyevss_backend_service.Query.Build.{
  trim_each, clause, quote_column, listed, single, in_json, json_contains, original_body, own_with,
  own, asked, is_jin, marks, in_word,
}

-- The bytes of the logical operators, and the space.
abbrev pub wide : Text
wide = bytes " &|andorANDOR"

abbrev pub IsFramed : Text → Type 0
IsFramed t = (first_free wide t ≡ true) × (last_free wide t ≡ true)

abbrev spaced : Text → Text
spaced op = b' ' ∷ op ++ bytes " "

-- Every byte of the operator is one of the wide ones.
abbrev IsNarrow : Text → Type 0
IsNarrow op = (c : ℕ) → in_set wide c ≡ false → in_set (spaced op) c ≡ false

abbrev AllNarrow : List Text → Type 0
AllNarrow [] = Unit
AllNarrow (op ∷ ops) = IsNarrow op × AllNarrow ops

operators-AllNarrow : AllNarrow logical_operators
operators-AllNarrow = (
  λ c h. ground arith,
  (
    λ c h. ground arith,
    (λ c h. ground arith, (λ c h. ground arith, (λ c h. ground arith, (λ c h. ground arith, tt)))),
  ),
)

-- Trimming at the start alone.
abbrev start_each : List Text → Text → Text
start_each [] s = s
start_each (op ∷ ops) s = start_each ops (trim_start (spaced op) s)

last_free-narrow :
    (op s : Text) → IsNarrow op → last_free wide s ≡ true → last_free (spaced op) s ≡ true
last_free-narrow op [] narrow h = h
last_free-narrow op (c ∷ []) narrow h = ground (arith, narrow c)
last_free-narrow op (c ∷ d ∷ s) narrow h = last_free-narrow op (d ∷ s) narrow h

first_free-narrow :
    (op s : Text) → IsNarrow op → first_free wide s ≡ true → first_free (spaced op) s ≡ true
first_free-narrow op [] narrow h = h
first_free-narrow op (c ∷ s) narrow h = ground (arith, narrow c)

trim_each-start_each :
    (ops : List Text) (s : Text)
    → AllNarrow ops
    → last_free wide s ≡ true
    → trim_each ops s ≡ start_each ops s
trim_each-start_each [] s all h = refl
trim_each-start_each (op ∷ ops) s (narrow, all) h =
    rw (trim_end-free (spaced op) s (last_free-narrow op s narrow h)) (
      trim_each-start_each ops (trim_start (spaced op) s) all
        (last_free-trim_start (spaced op) wide s narrow h))

start_each-free :
    (ops : List Text) (s : Text) → AllNarrow ops → first_free wide s ≡ true → start_each ops s ≡ s
start_each-free [] s all h = refl
start_each-free (op ∷ ops) s (narrow, all) h =
    rw (trim_start-free (spaced op) s (first_free-narrow op s narrow h))
      (start_each-free ops s all h)

known-cases :
    (v op : Text) (vs : List Text)
    → contains op (v ∷ vs) ≡ true
    → (v ≡ op) ⊎ (contains op vs ≡ true)
unfolding contains
known-cases v op vs h = elim (Bool-cases (text_beq v op)) [
  | inl same ↦ inl ((text_beq_iff v op).0 same)
  | inr other ↦ inr (rw other at h)
]

-- A property that holds of every operator in a list.
abbrev pub Each : (Text → Type 0) → List Text → Type 0
Each P [] = Unit
Each P (v ∷ vs) = P v × Each P vs

pub Each-known :
    (P : Text → Type 0) (op : Text) (vs : List Text) → Each P vs → contains op vs ≡ true → P op
unfolding contains
Each-known P op [] each h = ground (arith, h)
Each-known P op (v ∷ vs) (here, there) h = elim (known-cases v op vs h) [
  | inl same ↦ subst P same here
  | inr later ↦ Each-known P op vs there later
]

start_each-clause :
    (op t : Text)
    → contains op logical_operators ≡ true
    → first_free wide t ≡ true
    → start_each logical_operators (clause op t) ≡ t
start_each-clause op t known h =
    let from : (n : ℕ)
        → AllNarrow (drop n logical_operators)
        → start_each (drop n logical_operators) t ≡ t =
      λ n all. start_each-free (drop n logical_operators) t all h in
    let all = operators-AllNarrow in
    Each-known (λ v. start_each logical_operators (clause v t) ≡ t) op logical_operators
      (
        from 0 all,
        (
          from 1 all.1,
          (from 2 all.1.1, (from 3 all.1.1.1, (from 4 all.1.1.1.1, (from 5 all.1.1.1.1.1, tt)))),
        ),
      )
      known

-- Trimming the operators off a body in a frame removes the one in front of it.
pub trim_each-clause :
    (op t : Text)
    → contains op logical_operators ≡ true
    → IsFramed t
    → trim_each logical_operators (clause op t) ≡ t
trim_each-clause op t known (starts, ends) =
    trim_each-start_each logical_operators (clause op t) operators-AllNarrow
      (last_free-append wide (b' ' ∷ op) (b' ' ∷ t) (last_free-append wide (bytes " ") t ends))
    ∙ start_each-clause op t known starts

-- What a condition renders to is framed.
abbrev pub IsFramedBuilt : {A : Type 0} → Built A → Type 0
IsFramedBuilt (failed f) = Unit
IsFramedBuilt (built body args) = IsFramed body

pub parenthesis-IsFramed : (t : Text) → IsFramed (b'(' ∷ (t ++ bytes ")"))
parenthesis-IsFramed t = (refl, last_free-append wide (b'(' ∷ t) (bytes ")") refl)

pub first_free-append : (s t : Text) → first_free wide s ≡ true → first_free wide (s ++ t) ≡ true
first_free-append [] t h = ground (arith, h)
first_free-append (c ∷ s) t h = h

module _ {A : Type 0} where
  quote_column-first :
      (b : Builder A) (column : Text) → first_free wide (quote_column b column) ≡ true
  unfolding quote_column
  quote_column-first b column =
      elim (Bool-cases (text_beq (to_lower b.database_type) (bytes "postgres"))) [
        | inl p ↦ rw p refl
        | inr p ↦ (elim (Bool-cases (text_beq (to_lower b.database_type) (bytes "sqlserver"))) [
          | inl s ↦ rw (p, s) refl
          | inr s ↦ rw (p, s) refl
        ])
      ]

  -- A quoted column before a text that ends well.
  column-IsFramed :
      (b : Builder A) (column t : Text)
      → last_free wide t ≡ true
      → IsFramed (quote_column b column ++ t)
  column-IsFramed b column t h = (
    first_free-append (quote_column b column) t (quote_column-first b column),
    last_free-append wide (quote_column b column) t h,
  )

  listed-IsFramed : (b : Builder A) (c : Condition A) → IsFramedBuilt (listed b c)
  unfolding listed
  listed-IsFramed b c =
      let n = length c.values in
      column-IsFramed b c.column _ (
        last_free-append wide (in_word c.operator) (marks n ++ bytes ")")
          (last_free-append wide (marks n) (bytes ")") refl))

  single-IsFramed : (b : Builder A) (c : Condition A) → IsFramedBuilt (single b c)
  unfolding single
  single-IsFramed b c =
      column-IsFramed b c.column _ (last_free-append wide (b' ' ∷ c.operator) (bytes " ?") refl)

  original_body-IsFramed : (o : Original A) → IsFramedBuilt (original_body o)
  original_body-IsFramed o = parenthesis-IsFramed o.query

  in_json-IsFramed : (b : Builder A) (c : Condition A) → IsFramedBuilt (in_json b c).1
  unfolding in_json
  in_json-IsFramed b c = elim (Bool-cases (text_beq b.database_type [])) [
    | inl no_database ↦ rw no_database tt
    | inr database ↦ rw database (original_body-IsFramed (json_contains b c.column c.values))
  ]

  own_with-IsFramed :
      (b : Builder A) (c : Condition A) (o : Option (Original A)) → IsFramedBuilt (own_with b c o).1
  unfolding own_with
  own_with-IsFramed b c (some o) = original_body-IsFramed o
  own_with-IsFramed b c none = elim (Bool-cases (nat_beq (length c.values) 0)) [
    | inl alone ↦ rw alone (single-IsFramed b c)
    | inr several ↦ (elim (Bool-cases (is_jin c.operator)) [
      | inl jin ↦ rw (several, jin) (in_json-IsFramed b c)
      | inr plain ↦ rw (several, plain) (listed-IsFramed b c)
    ])
  ]

  pub own-IsFramed : (b : Builder A) (c : Condition A) → IsFramedBuilt (own b c).1
  unfolding own
  own-IsFramed b c = own_with-IsFramed b c (asked c.original)
