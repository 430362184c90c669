-- ===== src/Query/Grammar.antt =====
-- The where clauses that are built belong to a grammar, and name known columns only.
use skeyevss_backend_service.Prelude.{
  ℕ, ◌≡◌, refl, sym, ap, ◌∙◌, subst, Bool, true, Option, none, some, List, [], ◌∷◌, ◌++◌, length,
  nat_beq, arith, Bool-cases, Option-cases, inl, inr,
}
use mathlib.Core.List.{append-nil}
use skeyevss_backend_service.Arrays.{contains}
use skeyevss_backend_service.Text.{Text, text_beq, text_beq_iff, text_comparable, bytes}
use skeyevss_backend_service.Query.{
  Original, Condition, Conditions, empty, item, Builder, Failure, Built, failed, built, is_empty,
  operators, logical_operators,
}
use skeyevss_backend_service.Query.Build.{
  quote_column, in_word, marks, clause, is_jin, json_contains, asked, checked_with, early_failure,
  column_failure, with_operator, with_logical_operator, checked, listed, like_value, single,
  in_json, own_with, own, build,
}
use skeyevss_backend_service.Query.Phrases.{
  Phrase, tail, sentence, phrases, first_failure, first_of-none, failure_inside, failure_of,
  text_of, defaulted, phrase_of,
}
use skeyevss_backend_service.Query.Sentence.{build-expected, defaulted-Passed, inside-none}

-- A condition; conditions that each have an operator before them; a whole where clause.
pub data Sort : Type 0 where
  one further whole : Sort

-- A predicate holds of some condition, at any depth.
pub data Among {A : Type 0} (P : Condition A → Type 0) : Conditions A → Type 0 where
  here_rule : {c : Condition A} {inner rest : Conditions A} → P c → Among P (item c inner rest)
  inner_rule :
      {c : Condition A} {inner rest : Conditions A} → Among P inner → Among P (item c inner rest)
  rest_rule :
      {c : Condition A} {inner rest : Conditions A} → Among P rest → Among P (item c inner rest)

-- The original of a condition has the query.
abbrev pub Asks : {A : Type 0} → Text → Condition A → Type 0
Asks {A} query c = (o : Original A) × (c.original ≡ some o) × (o.query ≡ query)

-- A column of the model, or that of a condition whose original has a blank query.
pub data Named {A : Type 0} (b : Builder A) (cs : Conditions A) (column : Text) : Type 0 where
  known_rule : contains column b.columns ≡ true → Named b cs column
  blank_rule : Among (λ c. Asks [] c × (c.column ≡ column)) cs → Named b cs column

-- The rules, for the conditions `cs`: a column, an operator and a mark; a column and a list of marks;
-- the query of an original, a test of a column that holds JSON, or a where clause, in parentheses;
-- and conditions with logical operators between them.
pub data Clause {A : Type 0} (b : Builder A) (cs : Conditions A) : Sort → Text → Type 0 where
  compare_rule :
      (column op : Text)
      → Named b cs column
      → contains op operators ≡ true
      → Clause b cs one (quote_column b column ++ (b' ' ∷ (op ++ bytes " ?")))
  list_rule :
      (column op : Text) (n : ℕ)
      → Named b cs column
      → Clause b cs one (quote_column b column ++ (in_word op ++ (marks n ++ bytes ")")))
  json_rule :
      (column : Text) (values : List A)
      → Named b cs column
      → Clause b cs one (b'(' ∷ ((json_contains b column values).query ++ bytes ")"))
  original_rule :
      (query : Text) → Among (Asks query) cs → Clause b cs one (b'(' ∷ (query ++ bytes ")"))
  group_rule : {t : Text} → Clause b cs whole t → Clause b cs one (b'(' ∷ (t ++ bytes ")"))
  end_rule : Clause b cs further []
  next_rule :
      {t u : Text} (op : Text)
      → contains op logical_operators ≡ true
      → Clause b cs one t
      → Clause b cs further u
      → Clause b cs further (clause op t ++ u)
  whole_rule : {t u : Text} → Clause b cs one t → Clause b cs further u → Clause b cs whole (t ++ u)

module _ {A : Type 0} where
  -- What a success renders to is a condition.
  abbrev IsCondition : Builder A → Conditions A → Built A → Type 0
  IsCondition b cs (failed f) = Unit
  IsCondition b cs (built t args) = Clause b cs one t

  in_json-IsCondition :
      (b : Builder A) (cs : Conditions A) (c : Condition A)
      → Named b cs c.column
      → IsCondition b cs (in_json b c).1
  unfolding in_json
  in_json-IsCondition b cs c named = elim (Bool-cases (text_beq b.database_type [])) [
    | inl no_database ↦ rw no_database tt
    | inr database ↦ rw database (json_rule c.column c.values named)
  ]

  own_none-IsCondition :
      (b : Builder A) (cs : Conditions A) (c : Condition A)
      → Named b cs c.column
      → contains c.operator operators ≡ true
      → IsCondition b cs (own_with b c none).1
  unfolding own_with listed single
  own_none-IsCondition b cs c named known = elim (Bool-cases (nat_beq (length c.values) 0)) [
    | inl alone ↦ rw alone (compare_rule c.column c.operator named known)
    | inr several ↦ (elim (Bool-cases (is_jin c.operator)) [
      | inl jin ↦ rw (several, jin) (in_json-IsCondition b cs c named)
      | inr plain ↦ rw (several, plain) (list_rule c.column c.operator (length c.values) named)
    ])
  ]

  -- The defaults of a condition leave its column and its original.
  defaulted-column : (c : Condition A) → (defaulted c).column ≡ c.column
  unfolding with_operator with_logical_operator
  defaulted-column c = ground arith

  defaulted-original : (c : Condition A) → (defaulted c).original ≡ c.original
  unfolding with_operator with_logical_operator
  defaulted-original c = ground arith

  checked_with-passes :
      (c : Condition A) (o : Option Failure) → (checked_with c o).1 ≡ none → o ≡ none
  unfolding checked_with
  checked_with-passes c none h = refl
  checked_with-passes c (some f) h = ground (arith, h)

  -- A condition without inner ones that has no original names a column of the model.
  checked-column :
      (b : Builder A) (c : Condition A)
      → (checked b true c).1 ≡ none
      → c.original ≡ none
      → contains c.column b.columns ≡ true
  unfolding checked early_failure column_failure
  checked-column b c fine plain =
      let passes = checked_with-passes c (early_failure b true c) fine in
      ground (arith, passes, plain)

  -- A condition `c` of `cs`, rendered as `d`, which differs by its operators only.
  own_with-IsCondition :
      (b : Builder A) (cs : Conditions A) (c d : Condition A) (o : Option (Original A))
      → c.original ≡ o
      → d.column ≡ c.column
      → ((P : Condition A → Type 0) → P c → Among P cs)
      → (c.original ≡ none → contains c.column b.columns ≡ true)
      → contains d.operator operators ≡ true
      → IsCondition b cs (own_with b d (asked o)).1
  unfolding own_with
  own_with-IsCondition b cs c d none e same there checked_column known =
      own_none-IsCondition b cs d
        (known_rule (ap (λ n. contains n b.columns) same ∙ checked_column e)) known
  own_with-IsCondition b cs c d (some o) e same there checked_column known =
      elim (Bool-cases (text_beq o.query [])) [
        | inl blank ↦
            let no_query : o.query ≡ [] = (text_beq_iff o.query []).0 blank in
            rw blank (
              own_none-IsCondition b cs d (blank_rule (there _ ((o, e, no_query), sym same))) known)
        | inr query ↦ rw query (original_rule o.query (there (Asks o.query) (o, e, refl)))
      ]

  text_of-Clause :
      (b : Builder A) (cs : Conditions A) (t : Built A)
      → failure_of t ≡ none
      → IsCondition b cs t
      → Clause b cs one (text_of t)
  text_of-Clause b cs (failed f) fine h = ground (arith, fine)
  text_of-Clause b cs (built u args) fine h = h

  abbrev IsWhole : Builder A → Conditions A → List Phrase → Type 0
  IsWhole b cs [] = Unit
  IsWhole b cs (p ∷ ps) = Clause b cs whole (sentence (p ∷ ps))

  phrase_of-Clause :
      (b : Builder A) (cs : Conditions A) (c : Condition A) (inner : Conditions A)
      → ((P : Condition A → Type 0) → P c → Among P cs)
      → (checked b (is_empty inner) c).1 ≡ none
      → contains (defaulted c).operator operators ≡ true
      → failure_inside b (defaulted c) inner (first_failure b inner) ≡ none
      → IsWhole b cs (phrases b inner)
      → Clause b cs one (phrase_of b (defaulted c) inner (phrases b inner)).body
  unfolding own
  phrase_of-Clause b cs c empty there passes known fine inside =
      let rendered =
        own_with-IsCondition b cs c (defaulted c) c.original refl (defaulted-column c) there
          (checked-column b c passes) known in
      text_of-Clause b cs (own b (defaulted c)).1 fine (
        subst (λ o. IsCondition b cs (own_with b (defaulted c) (asked o)).1)
          (sym (defaulted-original c)) rendered)
  phrase_of-Clause b cs c (item d more_inner more) there passes known fine inside =
      group_rule inside

  phrase_of-joined_by :
      (b : Builder A) (c : Condition A) (inner : Conditions A) (ps : List Phrase)
      → contains c.logical_operator logical_operators ≡ true
      → contains (phrase_of b c inner ps).joined_by logical_operators ≡ true
  phrase_of-joined_by b c empty ps known = known
  phrase_of-joined_by b c (item d more_inner more) ps known = known

  phrases-Clause :
      (b : Builder A) (cs part : Conditions A)
      → ((P : Condition A → Type 0) → Among P part → Among P cs)
      → first_failure b part ≡ none
      → Clause b cs further (tail (phrases b part)) × IsWhole b cs (phrases b part)
  phrases-Clause b cs empty within fine = (end_rule, tt)
  phrases-Clause b cs (item c inner rest) within fine =
      let now = first_of-none (checked b (is_empty inner) c).1 _ fine in
      let later =
        first_of-none (failure_inside b (defaulted c) inner (first_failure b inner)) _ now.1 in
      let passed = defaulted-Passed b (is_empty inner) c now.0 in
      let inside =
        phrases-Clause b cs inner (λ P a. within P (inner_rule a))
          (inside-none b (defaulted c) inner later.0) in
      let body =
        phrase_of-Clause b cs c inner (λ P p. within P (here_rule p)) now.0 passed.0 later.0
          inside.1 in
      let after = (phrases-Clause b cs rest (λ P a. within P (rest_rule a)) later.1).0 in
      let joined_by : Text = (phrase_of b (defaulted c) inner (phrases b inner)).joined_by in
      (
        next_rule joined_by (phrase_of-joined_by b (defaulted c) inner (phrases b inner) passed.1)
            body after,
        whole_rule body after,
      )

  abbrev IsWhere : Builder A → Conditions A → Built A → Type 0
  IsWhere b cs (failed f) = Unit
  IsWhere b cs (built t args) = Clause b cs whole t

  -- The where clause that is built of one condition or more is a clause of the grammar, at every
  -- depth: its logical operators are known ones and stand between conditions only; its parentheses
  -- enclose where clauses, lists of marks, tests of JSON or the queries of the originals that the
  -- conditions hold; and outside such queries every column is one of the model, or that of a
  -- condition whose original has a blank query.
  pub build-Clause :
      (b : Builder A) (empty_condition : Bool) (c : Condition A) (inner rest : Conditions A)
      (t : Text) (args : List A)
      → (build b empty_condition (item c inner rest)).1 ≡ built t args
      → Clause b (item c inner rest) whole t
  build-Clause b e c inner rest t args h =
      let cs : Conditions A = item c inner rest in
      subst (IsWhere b cs) (sym (build-expected b e cs) ∙ h)
        (elim (Option-cases (first_failure b cs)) [
          | inl fine ↦ rw fine (phrases-Clause b cs cs (λ P a. a) fine).1
          | inr (f, bad) ↦ rw bad tt
        ])

  abbrev pub unasked : Text → A → Original A → Condition A
  unasked column value o = record {
    column = column;
    value = value;
    values = [];
    operator = [];
    original = some o;
    logical_operator = [];
  }

  unasked_fine :
      (b : Builder A) (column : Text) (value : A) (o : Original A)
      → (checked b true (unasked column value o)).1 ≡ none
  unfolding checked checked_with early_failure with_operator with_logical_operator contains
  unasked_fine b column value o = refl

  own-unasked :
      (b : Builder A) (column : Text) (value : A) (o : Original A)
      → o.query ≡ []
      → (own b (defaulted (unasked column value o))).1
        ≡ built (quote_column b column ++ bytes " = ?") (value ∷ [])
  unfolding own own_with single like_value with_operator with_logical_operator
  own-unasked b column value o blank = rw ((text_beq_iff o.query []).1 blank) refl

  -- The bug: a column that the model does not have gets into the clause, whatever its text, when the
  -- condition has an original with a blank query.
  pub any_column_named :
      (b : Builder A) (empty_condition : Bool) (column : Text) (value : A) (o : Original A)
      → o.query ≡ []
      → (build b empty_condition (item (unasked column value o) empty empty)).1
        ≡ built (quote_column b column ++ bytes " = ?") (value ∷ [])
  any_column_named b e column value o blank =
      build-expected b e (item (unasked column value o) empty empty)
      ∙ rw (unasked_fine b column value o, own-unasked b column value o blank)
          (ap (λ t. built t (value ∷ [])) (append-nil (quote_column b column ++ bytes " = ?")))
