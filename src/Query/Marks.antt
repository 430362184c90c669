-- ===== src/Query/Marks.antt =====
-- A where clause has a mark for each of its arguments.
use skeyevss_backend_service.Prelude.{
  ◌≡◌, refl, ap, sym, ◌∙◌, subst, Bool, true, false, Option, none, some, List, [], length,
  length-append, nat_beq, arith, Bool-cases, Option-cases, inl, inr,
}
use skeyevss_backend_service.Text.{Text, text_beq, text_comparable}
use skeyevss_backend_service.Text.Cutset.{count-append}
use skeyevss_backend_service.Arrays.{contains}
use skeyevss_backend_service.Query.{
  Original, Condition, Conditions, empty, item, Builder, Built, failed, built, operators, is_empty,
}
use skeyevss_backend_service.Query.Build.{
  is_jin, json_contains, in_json, own_with, own, asked, clause, checked, with_operator,
  with_logical_operator, build,
}
use skeyevss_backend_service.Query.Checks.{Passed}
use skeyevss_backend_service.Query.Phrases.{
  Phrase, sentence, phrases, arguments, first_failure, defaulted, expected, text_of, args_of, tail,
  first_of-none, failure_inside, phrase_of, arguments_of,
}
use skeyevss_backend_service.Query.Sentence.{build-expected, defaulted-Passed, inside-none}
use skeyevss_backend_service.Query.Counts.{
  marked, marked-logical_operator, marked-closed, marked-clause, IsMarked, IsBalancedOriginal,
  IsBalanced, listed-IsMarked, single-IsMarked, original_body-IsMarked, json_contains-marked,
}

module _ {A : Type 0} where
  in_json-IsMarked :
      (b : Builder A) (c : Condition A) → marked c.column ≡ 0 → IsMarked (in_json b c).1
  unfolding in_json
  in_json-IsMarked b c blank = elim (Bool-cases (text_beq b.database_type [])) [
    | inl no_database ↦ rw no_database tt
    | inr database ↦ rw database (
        original_body-IsMarked (json_contains b c.column c.values)
          (json_contains-marked b c.column c.values blank))
  ]

  own_with-IsMarked :
      (b : Builder A) (c : Condition A) (o : Option (Original A))
      → marked c.column ≡ 0
      → contains c.operator operators ≡ true
      → IsBalancedOriginal o
      → IsMarked (own_with b c o).1
  unfolding own_with
  own_with-IsMarked b c (some o) blank known balanced = original_body-IsMarked o balanced
  own_with-IsMarked b c none blank known balanced =
      elim (Bool-cases (nat_beq (length c.values) 0)) [
        | inl alone ↦ rw alone (single-IsMarked b c blank known)
        | inr several ↦ (elim (Bool-cases (is_jin c.operator)) [
          | inl jin ↦ rw (several, jin) (in_json-IsMarked b c blank)
          | inr plain ↦ rw (several, plain) (listed-IsMarked b c blank)
        ])
      ]

  asked-IsBalanced : (o : Option (Original A)) → IsBalancedOriginal o → IsBalancedOriginal (asked o)
  asked-IsBalanced none h = h
  asked-IsBalanced (some o) h = elim (Bool-cases (text_beq o.query [])) [
    | inl blank ↦ rw blank tt
    | inr given ↦ rw given h
  ]

  defaulted-same :
      (c : Condition A) → (defaulted c).column ≡ c.column × (defaulted c).original ≡ c.original
  unfolding with_operator with_logical_operator
  defaulted-same c = elim (Bool-cases (text_beq c.operator [])) [
    | inl x ↦ (elim (Bool-cases (text_beq c.logical_operator [])) [
      | inl y ↦ rw (x, y) (refl, refl)
      | inr y ↦ rw (x, y) (refl, refl)
    ])
    | inr x ↦ (elim (Bool-cases (text_beq c.logical_operator [])) [
      | inl y ↦ rw (x, y) (refl, refl)
      | inr y ↦ rw (x, y) (refl, refl)
    ])
  ]

  own-IsMarked :
      (b : Builder A) (c : Condition A)
      → marked c.column ≡ 0
      → IsBalancedOriginal c.original
      → Passed (defaulted c)
      → IsMarked (own b (defaulted c)).1
  unfolding own
  own-IsMarked b c blank balanced passed =
      own_with-IsMarked b (defaulted c) (asked (defaulted c).original)
        (rw ((defaulted-same c).0) blank) passed.0
        (rw ((defaulted-same c).1) (asked-IsBalanced c.original balanced))

  text_of-marked : (t : Built A) → IsMarked t → marked (text_of t) ≡ length (args_of t)
  text_of-marked (failed f) h = refl
  text_of-marked (built u args) h = h

  phrase_of-marked :
      (b : Builder A) (c : Condition A) (inner : Conditions A)
      → marked c.column ≡ 0
      → IsBalancedOriginal c.original
      → Passed (defaulted c)
      → marked (sentence (phrases b inner)) ≡ length (arguments b inner)
      → marked (phrase_of b (defaulted c) inner (phrases b inner)).body
        ≡ length (arguments_of b (defaulted c) inner (arguments b inner))
  phrase_of-marked b c empty blank balanced passed below =
      text_of-marked (own b (defaulted c)).1 (own-IsMarked b c blank balanced passed)
  phrase_of-marked b c (item d inner more) blank balanced passed below =
      marked-closed (sentence (phrases b (item d inner more))) ∙ below

  phrase_of-joined_by :
      (b : Builder A) (c : Condition A) (inner : Conditions A) (ps : List Phrase)
      → (phrase_of b c inner ps).joined_by ≡ c.logical_operator
  phrase_of-joined_by b c empty ps = refl
  phrase_of-joined_by b c (item d inner more) ps = refl

  -- Both with the operator of the first phrase and without it.
  phrases-marked :
      (b : Builder A) (cs : Conditions A)
      → IsBalanced cs
      → first_failure b cs ≡ none
      → (marked (tail (phrases b cs)) ≡ length (arguments b cs))
        × (marked (sentence (phrases b cs)) ≡ length (arguments b cs))
  phrases-marked b empty balanced h = (refl, refl)
  phrases-marked b (item c inner rest) (blank, original, below, after) h =
      let now = first_of-none (checked b (is_empty inner) c).1 _ h in
      let later =
        first_of-none (failure_inside b (defaulted c) inner (first_failure b inner)) _ now.1 in
      let passed = defaulted-Passed b (is_empty inner) c now.0 in
      let p : Phrase = phrase_of b (defaulted c) inner (phrases b inner) in
      let known : marked p.joined_by ≡ 0 =
        ap marked (phrase_of-joined_by b (defaulted c) inner (phrases b inner))
        ∙ marked-logical_operator (defaulted c).logical_operator passed.1 in
      let inside = phrases-marked b inner below (inside-none b (defaulted c) inner later.0) in
      let body = phrase_of-marked b c inner blank original passed inside.1 in
      let rest_marked = (phrases-marked b rest after later.1).0 in
      let sum =
        length-append (arguments_of b (defaulted c) inner (arguments b inner)) (arguments b rest) in
      (
        count-append b'?' (clause p.joined_by p.body) (tail (phrases b rest))
            ∙ omega (arith, marked-clause p.joined_by p.body known, body, rest_marked, sum),
        count-append b'?' p.body (tail (phrases b rest)) ∙ omega (arith, body, rest_marked, sum),
      )

  expected-IsMarked :
      (b : Builder A) (empty_condition : Bool) (cs : Conditions A)
      → IsBalanced cs
      → IsMarked (expected b empty_condition cs)
  expected-IsMarked b true empty balanced = refl
  expected-IsMarked b false empty balanced = tt
  expected-IsMarked b e (item c inner rest) balanced =
      elim (Option-cases (first_failure b (item c inner rest))) [
        | inr (f, bad) ↦ rw bad tt
        | inl fine ↦ rw fine (phrases-marked b (item c inner rest) balanced fine).1
      ]

  -- Where no column has a question mark and each original has one for each of its values, a where
  -- clause that is built has as many question marks as it has arguments.
  pub build-marked :
      (b : Builder A) (empty_condition : Bool) (cs : Conditions A) (t : Text) (args : List A)
      → IsBalanced cs
      → (build b empty_condition cs).1 ≡ built t args
      → marked t ≡ length args
  build-marked b e cs t args balanced h =
      subst IsMarked (sym (build-expected b e cs) ∙ h) (expected-IsMarked b e cs balanced)
