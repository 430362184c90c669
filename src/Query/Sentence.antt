-- ===== src/Query/Sentence.antt =====
-- What a build gives back, against a description that never trims.
use skeyevss_backend_service.Prelude.{
  ◌≡◌, refl, ap, sym, ◌∙◌, subst, Bool, true, false, Option, none, some, List, [], ◌∷◌, ◌++◌, arith,
  Bool-cases, length, nat_beq, Option-cases, inl, inr,
}
use skeyevss_backend_service.Text.{Text, text_beq, text_comparable, bytes}
use skeyevss_backend_service.Arrays.{contains}
use skeyevss_backend_service.Query.{
  Condition, Conditions, empty, item, Builder, Failure, Built, failed, built, Pieces, stopped,
  pieces, is_empty, operators, logical_operators,
}
use skeyevss_backend_service.Query.Build.{
  trim_each, clause, concat, with_operator, early_failure, checked_with, checked, asked, is_jin,
  in_json, own_with, own, finished, wrapped, put, do_item, do_items, build,
}
use skeyevss_backend_service.Query.Checks.{Passed, checked-Passed}
use skeyevss_backend_service.Query.Frames.{
  IsFramedBuilt, own-IsFramed, trim_each-clause, parenthesis-IsFramed,
}
use skeyevss_backend_service.Query.Phrases.{
  Phrase, sentence, inner_phrase, IsGood, sentence-IsFramed, trim_each-texts, first_of, defaulted,
  text_of, args_of, own_phrase, failure_of, phrase_of, arguments_of, phrases, arguments,
  failure_inside, first_failure, outcome, expected, Describes,
}

module _ {A : Type 0} where
  finished-outcome :
      (p : Pieces A) (o : Option Failure) (ps : List Phrase) (args : List A)
      → Describes p o ps args
      → finished p ≡ outcome o (sentence ps) args
  unfolding finished
  finished-outcome (stopped f) o ps args d = rw d refl
  finished-outcome (pieces ws vs) o ps args (n, w, v, good) =
      rw (n, w, v) (ap (λ t. built t args) (trim_each-texts ps good))

  abbrev Rendered : Built A → Option Failure → Phrase → List A → Type 0
  Rendered (failed f) o p args = o ≡ some f
  Rendered (built u vs) o p args = (o ≡ none) × (u ≡ p.body) × (vs ≡ args) × IsGood p

  put-Describes :
      (c : Condition A) (inner : Conditions A) (t : Built A) (rest : Conditions A)
      (after : Conditions A × Pieces A) (o more : Option Failure) (p : Phrase) (ps : List Phrase)
      (own_args args : List A)
      → Rendered t o p own_args
      → c.logical_operator ≡ p.joined_by
      → Describes after.1 more ps args
      → Describes (put c inner t rest after).1 (first_of o more) (p ∷ ps) (own_args ++ args)
  put-Describes c inner (failed f) rest after o more p ps own_args args r op d = rw r refl
  put-Describes c inner (built u vs) rest (cs, stopped f) o more p ps own_args args r op d =
      rw (r.0, d) refl
  put-Describes c inner (built u vs) rest (cs, pieces ws xs) o more p ps own_args args
        (n, e, a, good) op (m, w, v, all) =
      (rw (n, m) refl, rw (op, e, w) refl, rw (a, v) refl, (good, all))

  own-Rendered :
      (t : Built A) (op : Text)
      → contains op logical_operators ≡ true
      → IsFramedBuilt t
      → Rendered t (failure_of t) (record { joined_by = op; body = text_of t }) (args_of t)
  own-Rendered (failed f) op known framed = refl
  own-Rendered (built u vs) op known framed = (refl, refl, refl, (known, framed))

  wrapped-Rendered :
      (inside : Pieces A) (o : Option Failure) (op : Text) (p : Phrase) (ps : List Phrase)
      (args : List A)
      → contains op logical_operators ≡ true
      → Describes inside o (p ∷ ps) args
      → Rendered (wrapped op (finished inside)) o (inner_phrase op (p ∷ ps)) args
  unfolding wrapped finished
  wrapped-Rendered (stopped f) o op p ps args known d = d
  wrapped-Rendered (pieces ws vs) o op p ps args known (n, w, v, good) =
      let inside : Text = sentence (p ∷ ps) in
      let trimmed : trim_each logical_operators (concat ws) ≡ inside =
        ap (λ x. trim_each logical_operators (concat x)) w ∙ trim_each-texts (p ∷ ps) good in
      (
        n,
        ap (λ x. b'(' ∷ (trim_each logical_operators (clause op x) ++ bytes ")")) trimmed
            ∙ ap (λ x. b'(' ∷ (x ++ bytes ")"))
                (trim_each-clause op inside known (sentence-IsFramed p ps good)),
        v,
        (known, parenthesis-IsFramed inside),
      )

  logical_operator-own :
      (b : Builder A) (c : Condition A) → (own b c).0.logical_operator ≡ c.logical_operator
  unfolding own own_with in_json
  logical_operator-own b c = elim (Option-cases (asked c.original)) [
    | inr (o, a) ↦ rw a refl
    | inl a ↦ elim (Bool-cases (nat_beq (length c.values) 0)) [
      | inl alone ↦ rw (a, alone) refl
      | inr several ↦ elim (Bool-cases (is_jin c.operator)) [
        | inr plain ↦ rw (a, several, plain) refl
        | inl jin ↦ (elim (Bool-cases (text_beq b.database_type [])) [
          | inl no_database ↦ rw (a, several, jin, no_database) refl
          | inr database ↦ rw (a, several, jin, database) refl
        ])
      ]
    ]
  ]

  checked-defaulted :
      (b : Builder A) (no_inner : Bool) (c d : Condition A)
      → checked b no_inner c ≡ (d, none)
      → defaulted c ≡ d
  unfolding checked checked_with
  checked-defaulted b no_inner c d e = elim (Option-cases (early_failure b no_inner c)) [
    | inr (f, bad) ↦ ground (arith, bad, e)
    | inl fine ↦ elim (Bool-cases (contains (with_operator c).operator operators)) [
      | inr x ↦ ground (arith, fine, x, e)
      | inl x ↦ elim (Bool-cases (contains (defaulted c).logical_operator logical_operators)) [
        | inr y ↦ ground (arith, fine, x, y, e)
        | inl y ↦ ap (λ (r : Condition A × Option Failure). r.0) (rw (fine, x, y) at e)
      ]
    ]
  ]

  item-Describes :
      (b : Builder A) (c : Condition A) (o : Option Failure) (inner rest : Conditions A)
      → (o ≡ none → contains c.logical_operator logical_operators ≡ true)
      → Describes (do_items b inner).1 (first_failure b inner) (phrases b inner) (arguments b inner)
      → Describes (do_items b rest).1 (first_failure b rest) (phrases b rest) (arguments b rest)
      → Describes
          (do_item b (c, o) inner (do_items b inner) rest (do_items b rest)).1
          (first_of o
            (first_of (failure_inside b c inner (first_failure b inner)) (first_failure b rest)))
          (phrase_of b c inner (phrases b inner) ∷ phrases b rest)
          (arguments_of b c inner (arguments b inner) ++ arguments b rest)
  unfolding do_item
  item-Describes b c (some f) inner rest known below after = refl
  item-Describes b c none empty rest known below after =
      put-Describes (own b c).0 empty (own b c).1 rest (do_items b rest) (failure_of (own b c).1)
        (first_failure b rest) (own_phrase b c) (phrases b rest) (args_of (own b c).1)
        (arguments b rest)
        (own-Rendered (own b c).1 c.logical_operator (known refl) (own-IsFramed b c))
        (logical_operator-own b c) after
  item-Describes b c none (item d inner more) rest known below after =
      let inside : Conditions A = item d inner more in
      put-Describes c (do_items b inside).0
        (wrapped c.logical_operator (finished (do_items b inside).1)) rest (do_items b rest)
        (first_failure b inside) (first_failure b rest)
        (inner_phrase c.logical_operator (phrases b inside)) (phrases b rest) (arguments b inside)
        (arguments b rest)
        (wrapped-Rendered (do_items b inside).1 (first_failure b inside) c.logical_operator
          (phrase_of b (defaulted d) inner (phrases b inner)) (phrases b more) (arguments b inside)
          (known refl) below)
        refl after

  pub inside-none :
      (b : Builder A) (c : Condition A) (inner : Conditions A)
      → failure_inside b c inner (first_failure b inner) ≡ none
      → first_failure b inner ≡ none
  inside-none b c empty h = refl
  inside-none b c (item d inner more) h = h

  pub defaulted-Passed :
      (b : Builder A) (no_inner : Bool) (c : Condition A)
      → (checked b no_inner c).1 ≡ none
      → Passed (defaulted c)
  defaulted-Passed b no_inner c h =
      let d : Condition A = (checked b no_inner c).0 in
      let e : checked b no_inner c ≡ (d, none) = ap (λ (o : Option Failure). (d, o)) h in
      subst Passed (sym (checked-defaulted b no_inner c d e)) (checked-Passed b no_inner c d e)

  -- The same for the item that the checks leave, whichever they say.
  checked-Describes :
      (b : Builder A) (c : Condition A) (x : Condition A × Option Failure)
      (inner rest : Conditions A)
      → checked b (is_empty inner) c ≡ x
      → Describes (do_items b inner).1 (first_failure b inner) (phrases b inner) (arguments b inner)
      → Describes (do_items b rest).1 (first_failure b rest) (phrases b rest) (arguments b rest)
      → Describes
          (do_item b x inner (do_items b inner) rest (do_items b rest)).1
          (first_of x.1 (
            first_of
              (failure_inside b (defaulted c) inner (first_failure b inner))
              (first_failure b rest)))
          (phrase_of b (defaulted c) inner (phrases b inner) ∷ phrases b rest)
          (arguments_of b (defaulted c) inner (arguments b inner) ++ arguments b rest)
  unfolding do_item
  checked-Describes b c (d, some f) inner rest e below after = refl
  checked-Describes b c (d, none) inner rest e below after =
      let passed : Passed (defaulted c) =
        defaulted-Passed b (is_empty inner) c (ap (λ (r : Condition A × Option Failure). r.1) e) in
      rw (sym (checked-defaulted b (is_empty inner) c d e))
        (item-Describes b (defaulted c) none inner rest (λ n. passed.1) below after)

  do_items-Describes :
      (b : Builder A) (cs : Conditions A)
      → Describes (do_items b cs).1 (first_failure b cs) (phrases b cs) (arguments b cs)
  unfolding do_items
  do_items-Describes b empty = (refl, refl, refl, tt)
  do_items-Describes b (item c inner rest) =
      checked-Describes b c (checked b (is_empty inner) c) inner rest refl
        (do_items-Describes b inner) (do_items-Describes b rest)

  -- A build gives the first failure of its conditions, in their order, or else the text of the first
  -- condition followed by each further one after its logical operator, inner conditions in
  -- parentheses, and the arguments of the conditions in order.
  pub build-expected :
      (b : Builder A) (empty_condition : Bool) (cs : Conditions A)
      → (build b empty_condition cs).1 ≡ expected b empty_condition cs
  unfolding build
  build-expected b true empty = refl
  build-expected b false empty = refl
  build-expected b e (item c inner rest) =
      let cs : Conditions A = item c inner rest in
      finished-outcome (do_items b cs).1 (first_failure b cs) (phrases b cs) (arguments b cs)
        (do_items-Describes b cs)
