-- ===== src/Query/Updates.antt =====
-- core/pkg/orm/orm.db.act.update.go: a bulk update has a mark for each of its arguments.
use skeyevss_backend_service.Prelude.{
  ℕ, ◌+◌, ◌≡◌, refl, ◌∙◌, subst, Option, none, some, List, [], ◌∷◌, length, length-append, nat_beq,
  arith, Bool-cases, inl, inr,
}
use skeyevss_backend_service.Arrays.{contains}
use skeyevss_backend_service.Text.{Text, text_beq, text_comparable, bytes}
use skeyevss_backend_service.Text.Cutset.{
  trim, repeat, join, count-append, count-trim, count-repeat,
}
use skeyevss_backend_service.Query.Counts.{marked}
use skeyevss_backend_service.Query.Bulk.{
  Inner, Default, Item, Writer, Cases, wrong, cases, Statement, rejected, statement, else_of,
  text_of_origin, case_of, cases_of, set_of, add_set, sets_of, statement_of, take_update_bulk,
}

abbrev marked_all : List Text → ℕ
marked_all [] = 0
marked_all (t ∷ ts) = marked t + marked_all ts

marked-join : (sep : Text) (ts : List Text) → marked sep ≡ 0 → marked (join sep ts) ≡ marked_all ts
marked-join sep [] plain = refl
marked-join sep (t ∷ []) plain = omega arith
marked-join sep (t ∷ u ∷ ts) plain =
    simp (count-append, plain, marked-join sep (u ∷ ts) plain) (omega arith)

abbrev text_or_blank : Option Text → Text
text_or_blank none = []
text_or_blank (some v) = v

abbrev default_text : Option Default → Text
default_text none = []
default_text (some d) = d.value

else_of-marked : (def : Option Default) → marked (default_text def) ≡ 0 → marked (else_of def) ≡ 0
else_of-marked none plain = refl
else_of-marked (some d) plain = elim (Bool-cases d.is_number) [
  | inl number ↦ rw number (simp (count-append, plain))
  | inr text ↦ rw text (simp (count-append, plain))
]

set_of-marked :
    (key column : Text) (def : Option Default) (whens : List Text)
    → marked key ≡ 0
    → marked column ≡ 0
    → marked (default_text def) ≡ 0
    → marked (set_of key column def whens) ≡ marked_all whens
set_of-marked key column def whens k c d =
    simp (count-append, k, c, else_of-marked def d, marked-join (bytes " ") whens refl)
      (omega arith)

marked-keys : (n : ℕ) → marked (trim (bytes ", ") (repeat (bytes "?, ") n)) ≡ n
marked-keys n =
    count-trim b'?' (bytes ", ") (repeat (bytes "?, ") n) refl
    ∙ count-repeat b'?' (bytes "?, ") n refl

module _ {A : Type 0} where
  -- The texts that come into the statement as they are have no mark.
  abbrev PlainRecords : Writer A → List (Inner A) → Type 0
  PlainRecords w [] = Unit
  PlainRecords w (r ∷ records) =
      (marked (text_or_blank (text_of_origin w r)) ≡ 0) × PlainRecords w records

  abbrev pub PlainItems : Writer A → List (Item A) → Type 0
  PlainItems w [] = Unit
  PlainItems w (i ∷ items) =
      (marked i.column ≡ 0)
      × (marked (default_text i.def) ≡ 0)
      × PlainRecords w i.records
      × PlainItems w items

  abbrev IsCounted : Cases A → Type 0
  IsCounted (wrong f) = Unit
  IsCounted (cases texts keys args) = marked_all texts ≡ length args

  case_of-IsCounted :
      (column : Text) (r : Inner A) (o : Option Text) (a : Option A) (rest : Cases A)
      → marked (text_or_blank o) ≡ 0
      → IsCounted rest
      → IsCounted (case_of column r o a rest)
  case_of-IsCounted column r (some v) a (wrong f) plain h = tt
  case_of-IsCounted column r (some v) a (cases ts keys args) plain h = omega (arith, plain, h)
  case_of-IsCounted column r none (some a) (wrong f) plain h = tt
  case_of-IsCounted column r none (some a) (cases ts keys args) plain h = omega (arith, h)
  case_of-IsCounted column r none none rest plain h = tt

  cases_of-IsCounted :
      (w : Writer A) (column : Text) (records : List (Inner A))
      → PlainRecords w records
      → IsCounted (cases_of w column records)
  unfolding cases_of
  cases_of-IsCounted w column [] plain = refl
  cases_of-IsCounted w column (r ∷ records) (first, plain) =
      let rest = cases_of-IsCounted w column records plain in
      elim (Bool-cases (w.is_int_0 r.pk)) [
        | inl passed ↦ rw passed rest
        | inr used ↦ rw used (
            case_of-IsCounted column r (text_of_origin w r) (w.argument_of r.val)
              (cases_of w column records) first rest)
      ]

  add_set-IsCounted :
      (key : Text) (allowed : List Text) (i : Item A) (now rest : Cases A)
      → marked key ≡ 0
      → marked i.column ≡ 0
      → marked (default_text i.def) ≡ 0
      → IsCounted now
      → IsCounted rest
      → IsCounted (add_set key allowed i now rest)
  add_set-IsCounted key allowed i (wrong f) rest k c d h more = tt
  add_set-IsCounted key allowed i (cases ts keys args) (wrong f) k c d h more =
      elim (Bool-cases (contains i.column allowed)) [
        | inl legal ↦ rw legal tt
        | inr illegal ↦ rw illegal tt
      ]
  add_set-IsCounted key allowed i (cases ts keys args) (cases us keys_2 args_2) k c d h more =
      elim (Bool-cases (contains i.column allowed)) [
        | inl legal ↦ rw legal (
            omega (
              arith,
              set_of-marked key i.column i.def ts k c d,
              h,
              more,
              length-append args args_2,
            ))
        | inr illegal ↦ rw illegal tt
      ]

  sets_of-IsCounted :
      (w : Writer A) (key : Text) (allowed : List Text) (items : List (Item A))
      → marked key ≡ 0
      → PlainItems w items
      → IsCounted (sets_of w key allowed items)
  unfolding sets_of
  sets_of-IsCounted w key allowed [] k plain = refl
  sets_of-IsCounted w key allowed (i ∷ items) k (c, d, records, plain) =
      add_set-IsCounted key allowed i (cases_of w i.column i.records) (sets_of w key allowed items)
        k c d (cases_of-IsCounted w i.column i.records records)
        (sets_of-IsCounted w key allowed items k plain)

  abbrev IsMarkedStatement : Statement A → Type 0
  IsMarkedStatement (rejected f) = Unit
  IsMarkedStatement (statement t args) = marked t ≡ length args

  statement_of-IsMarked :
      (w : Writer A) (key : Text) (c : Cases A)
      → marked w.table_name ≡ 0
      → marked key ≡ 0
      → IsCounted c
      → IsMarkedStatement (statement_of w key c)
  statement_of-IsMarked w key (wrong f) t k h = tt
  statement_of-IsMarked w key (cases sets keys args) t k h =
      simp
        (
          count-append,
          t,
          k,
          marked-keys (length keys),
          marked-join (bytes ", ") sets refl,
          h,
          length-append,
        )
        (omega arith)

  bulk-IsMarked :
      (w : Writer A) (primary_key : Text) (allowed : List Text) (items : List (Item A))
      → marked w.table_name ≡ 0
      → marked primary_key ≡ 0
      → PlainItems w items
      → IsMarkedStatement (take_update_bulk w primary_key allowed items)
  unfolding take_update_bulk
  bulk-IsMarked w primary_key allowed items t k plain =
      let key : Text = trim (bytes "`") primary_key in
      let unmarked : marked key ≡ 0 = count-trim b'?' (bytes "`") primary_key refl ∙ k in
      elim (Bool-cases (text_beq key [])) [
        | inl blank ↦ rw blank tt
        | inr given ↦ elim (Bool-cases (nat_beq (length allowed) 0)) [
          | inl none_allowed ↦ rw (given, none_allowed) tt
          | inr some_allowed ↦ elim (Bool-cases (nat_beq (length items) 0)) [
            | inl no_items ↦ rw (given, some_allowed, no_items) tt
            | inr some_items ↦
                rw (given, some_allowed, some_items)
                  (statement_of-IsMarked w key (sets_of w key allowed items) t unmarked
                    (sets_of-IsCounted w key allowed items unmarked plain))
          ]
        ]
      ]

  -- Where the names, the defaults and the values that are put in as they are have no question mark, a
  -- bulk update has as many question marks as it has arguments.
  pub bulk-marked :
      (w : Writer A) (primary_key : Text) (allowed : List Text) (items : List (Item A)) (t : Text)
      (args : List A)
      → marked w.table_name ≡ 0
      → marked primary_key ≡ 0
      → PlainItems w items
      → take_update_bulk w primary_key allowed items ≡ statement t args
      → marked t ≡ length args
  bulk-marked w primary_key allowed items t args plain k all h =
      subst IsMarkedStatement h (bulk-IsMarked w primary_key allowed items plain k all)
