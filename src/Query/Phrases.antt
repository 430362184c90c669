-- ===== src/Query/Phrases.antt =====
-- core/pkg/orm/orm.db.condition.go: what a build is to give back, described without trimming.
use skeyevss_backend_service.Prelude.{
  ◌≡◌, refl, ap, ◌∙◌, Bool, true, Option, none, some, List, [], ◌∷◌, ◌++◌, All, arith,
  if◌then◌else◌,
}
use mathlib.Core.List.{append-nil, append_assoc}
use skeyevss_backend_service.Text.{Text, text_comparable, bytes}
use skeyevss_backend_service.Text.Cutset.{last_free, last_free-append}
use skeyevss_backend_service.Arrays.{contains}
use skeyevss_backend_service.Query.{
  Condition, Conditions, empty, item, Builder, Failure, nil_conditions, Built, failed, built,
  Pieces, stopped, pieces, is_empty, logical_operators,
}
use skeyevss_backend_service.Query.Build.{
  trim_each, clause, concat, with_operator, with_logical_operator, checked, own,
}
use skeyevss_backend_service.Query.Frames.{wide, IsFramed, trim_each-clause, first_free-append}

-- A body with the operator before it.
pub record Phrase : Type 0 where
  pub joined_by : Text
  pub body : Text

-- The first body, and each further one after its operator.
abbrev pub tail : List Phrase → Text
tail [] = []
tail (p ∷ ps) = clause p.joined_by p.body ++ tail ps

abbrev pub sentence : List Phrase → Text
sentence [] = []
sentence (p ∷ ps) = p.body ++ tail ps

abbrev pub inner_phrase : Text → List Phrase → Phrase
inner_phrase op ps = record { joined_by = op; body = b'(' ∷ (sentence ps ++ bytes ")") }

abbrev pub IsGood : Phrase → Type 0
IsGood p = (contains p.joined_by logical_operators ≡ true) × IsFramed p.body

abbrev pub texts : List Phrase → List Text
texts [] = []
texts (p ∷ ps) = clause p.joined_by p.body ∷ texts ps

pub tail-last :
    (t : Text) (ps : List Phrase)
    → All IsGood ps
    → last_free wide t ≡ true
    → last_free wide (t ++ tail ps) ≡ true
tail-last t [] good h = rw (append-nil t) h
tail-last t (p ∷ ps) (fine, good) h = last_free-append wide t (tail (p ∷ ps)) (
    tail-last (clause p.joined_by p.body) ps good (
      last_free-append wide (b' ' ∷ p.joined_by) (b' ' ∷ p.body)
        (last_free-append wide (bytes " ") p.body fine.1.1)))

pub sentence-IsFramed :
    (p : Phrase) (ps : List Phrase) → All IsGood (p ∷ ps) → IsFramed (sentence (p ∷ ps))
sentence-IsFramed p ps ((known, framed), good) =
    (first_free-append p.body (tail ps) framed.0, tail-last p.body ps good framed.1)

pub clause-append : (op s t : Text) → clause op s ++ t ≡ clause op (s ++ t)
clause-append op s t = ap (λ r. b' ' ∷ r) (append_assoc op (b' ' ∷ s) t)

pub concat-texts : (ps : List Phrase) → concat (texts ps) ≡ tail ps
concat-texts [] = refl
concat-texts (p ∷ ps) = ap (λ t. clause p.joined_by p.body ++ t) (concat-texts ps)

-- Trimming the collected pieces leaves the sentence.
pub trim_each-texts :
    (ps : List Phrase)
    → All IsGood ps
    → trim_each logical_operators (concat (texts ps)) ≡ sentence ps
trim_each-texts [] good = refl
trim_each-texts (p ∷ ps) good =
    ap (trim_each logical_operators)
      (concat-texts (p ∷ ps) ∙ clause-append p.joined_by p.body (tail ps))
    ∙ trim_each-clause p.joined_by (sentence (p ∷ ps)) good.0.0 (sentence-IsFramed p ps good)

abbrev pub first_of : Option Failure → Option Failure → Option Failure
first_of (some f) later = some f
first_of none later = later

pub first_of-none :
    (o later : Option Failure) → first_of o later ≡ none → (o ≡ none) × (later ≡ none)
first_of-none (some f) later h = ground (arith, h)
first_of-none none later h = (refl, h)

module _ {A : Type 0} where
  abbrev pub defaulted : Condition A → Condition A
  defaulted c = with_logical_operator (with_operator c)

  abbrev pub text_of : Built A → Text
  text_of (failed f) = []
  text_of (built t args) = t

  abbrev pub args_of : Built A → List A
  args_of (failed f) = []
  args_of (built t args) = args

  abbrev pub own_phrase : Builder A → Condition A → Phrase
  own_phrase b c = record { joined_by = c.logical_operator; body = text_of (own b c).1 }

  abbrev pub failure_of : Built A → Option Failure
  failure_of (failed f) = some f
  failure_of (built t args) = none

  abbrev pub phrase_of : Builder A → Condition A → Conditions A → List Phrase → Phrase
  phrase_of b c empty ps = own_phrase b c
  phrase_of b c (item d inner more) ps = inner_phrase c.logical_operator ps

  abbrev pub arguments_of : Builder A → Condition A → Conditions A → List A → List A
  arguments_of b c empty args = args_of (own b c).1
  arguments_of b c (item d inner more) args = args

  -- The phrases of the items, inner ones in parentheses, and their arguments in order.
  abbrev pub phrases : Builder A → Conditions A → List Phrase
  phrases b empty = []
  phrases b (item c inner rest) = phrase_of b (defaulted c) inner (phrases b inner) ∷ phrases b rest

  abbrev pub arguments : Builder A → Conditions A → List A
  arguments b empty = []
  arguments b (item c inner rest) =
      arguments_of b (defaulted c) inner (arguments b inner) ++ arguments b rest

  abbrev pub failure_inside :
      Builder A → Condition A → Conditions A → Option Failure → Option Failure
  failure_inside b c empty o = failure_of (own b c).1
  failure_inside b c (item d inner more) o = o

  -- The first failure in the order of the items: of the checks, of what is inside, of the rest.
  abbrev pub first_failure : Builder A → Conditions A → Option Failure
  first_failure b empty = none
  first_failure b (item c inner rest) = first_of (checked b (is_empty inner) c).1 (
      first_of (failure_inside b (defaulted c) inner (first_failure b inner))
        (first_failure b rest))

  abbrev pub outcome : Option Failure → Text → List A → Built A
  outcome (some f) t args = failed f
  outcome none t args = built t args

  -- What `Do` is to give back.
  abbrev pub expected : Builder A → Bool → Conditions A → Built A
  expected b empty_condition empty =
      outcome (if empty_condition then none else some nil_conditions) [] []
  expected b empty_condition (item c inner rest) =
      let cs = item c inner rest in
      outcome (first_failure b cs) (sentence (phrases b cs)) (arguments b cs)

  abbrev pub Describes : Pieces A → Option Failure → List Phrase → List A → Type 0
  Describes (stopped f) o ps args = o ≡ some f
  Describes (pieces ws vs) o ps args = (o ≡ none) × (ws ≡ texts ps) × (vs ≡ args) × All IsGood ps
