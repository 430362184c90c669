-- ===== src/Query/Again.antt =====
-- The items that `Do` changes give the same text and arguments when they are built again.
use skeyevss_backend_service.Prelude.{
  ◌≡◌, refl, ap, ◌∙◌, Bool, true, false, Option, none, some, [], length, nat_beq, arith, Bool-cases,
  Option-cases, inl, inr,
}
use skeyevss_backend_service.Text.{text_beq, text_comparable, bytes}
use skeyevss_backend_service.Query.{
  Condition, Conditions, empty, item, Builder, Failure, Built, failed, built, Pieces, stopped,
  is_empty,
}
use skeyevss_backend_service.Query.Build.{
  is_jin, asked, checked, json_contains, in_json, own_with, own, do_item, do_items, build, put,
  wrapped, finished,
}
use skeyevss_backend_service.Query.Checks.{checked_again, checked-Passed, checked-original}

module _ {A : Type 0} where
  own_again : (b : Builder A) (c : Condition A) → own b (own b c).0 ≡ own b c
  unfolding own own_with in_json json_contains
  own_again b c = elim (Option-cases (asked c.original)) [
    | inr (o, e) ↦ rw (e, e) refl
    | inl e ↦ elim (Bool-cases (nat_beq (length c.values) 0)) [
      | inl none_given ↦ ground (arith, e, none_given)
      | inr given ↦ elim (Bool-cases (is_jin c.operator)) [
        | inr plain ↦ ground (arith, e, given, plain)
        | inl jin ↦ elim (Bool-cases (text_beq b.database_type [])) [
          | inl no_database ↦ ground (arith, e, given, jin, no_database)
          | inr database ↦ elim (Bool-cases (text_beq b.database_type (bytes "sqlite"))) [
            | inl lite ↦ rw (e, given, jin, database, lite) refl
            | inr other ↦ rw (e, given, jin, database, other) refl
          ]
        ]
      ]
    ]
  ]

  -- The item that an item with no inner items leaves still passes the checks.
  checked-own :
      (b : Builder A) (c : Condition A)
      → checked b true c ≡ (c, none)
      → checked b true (own b c).0 ≡ ((own b c).0, none)
  unfolding own own_with in_json json_contains
  checked-own b c e = elim (Option-cases (asked c.original)) [
    | inr (o, a) ↦ rw a e
    | inl a ↦ elim (Bool-cases (nat_beq (length c.values) 0)) [
      | inl none_given ↦ rw (a, none_given) e
      | inr given ↦ elim (Bool-cases (is_jin c.operator)) [
        | inr plain ↦ rw (a, given, plain) e
        | inl jin ↦ elim (Bool-cases (text_beq b.database_type [])) [
          | inl no_database ↦ rw (a, given, jin, no_database) e
          | inr database ↦
              rw (a, given, jin, database)
                (checked-original b true
                  (record c { original = some (json_contains b c.column c.values) }) refl
                  (checked-Passed b true c c e))
        ]
      ]
    ]
  ]

  do_item-some :
      (b : Builder A) (c : Condition A) (f : Failure) (inner : Conditions A)
      (below : Conditions A × Pieces A) (rest : Conditions A) (after : Conditions A × Pieces A)
      → do_item b (c, some f) inner below rest after ≡ (item c inner rest, stopped f)
  unfolding do_item
  do_item-some b c f inner below rest after = refl

  do_item-none :
      (b : Builder A) (c : Condition A) (inner : Conditions A) (below : Conditions A × Pieces A)
      (rest : Conditions A) (after : Conditions A × Pieces A)
      → is_empty inner ≡ false
      → do_item b (c, none) inner below rest after
        ≡ put c below.0 (wrapped c.logical_operator (finished below.1)) rest after
  unfolding do_item
  do_item-none b c empty below rest after h = ground (arith, h)
  do_item-none b c (item d inner more) below rest after h = refl

  put-nonempty :
      (c : Condition A) (inner : Conditions A) (t : Built A) (rest : Conditions A)
      (after : Conditions A × Pieces A)
      → is_empty (put c inner t rest after).0 ≡ false
  put-nonempty c inner (failed f) rest after = refl
  put-nonempty c inner (built body args) rest after = refl

  do_item-nonempty :
      (b : Builder A) (x : Condition A × Option Failure) (inner : Conditions A)
      (below : Conditions A × Pieces A) (rest : Conditions A) (after : Conditions A × Pieces A)
      → is_empty (do_item b x inner below rest after).0 ≡ false
  unfolding do_item
  do_item-nonempty b (c, some f) inner below rest after = refl
  do_item-nonempty b (c, none) empty below rest after =
      put-nonempty (own b c).0 empty (own b c).1 rest after
  do_item-nonempty b (c, none) (item d inner more) below rest after =
      put-nonempty c below.0 (wrapped c.logical_operator (finished below.1)) rest after

  is_empty-do_items : (b : Builder A) (cs : Conditions A) → is_empty (do_items b cs).0 ≡ is_empty cs
  unfolding do_items do_item
  is_empty-do_items b empty = refl
  is_empty-do_items b (item c inner rest) =
      do_item-nonempty b (checked b (is_empty inner) c) inner (do_items b inner) rest
        (do_items b rest)

  -- An item that is rendered the same way before any rest.
  abbrev Stable : Builder A → Condition A → Conditions A → Built A → Type 0
  Stable b c inner t =
      (rest : Conditions A) → do_items b (item c inner rest) ≡ put c inner t rest (do_items b rest)

  put_again :
      (b : Builder A) (c : Condition A) (inner : Conditions A) (t : Built A) (rest : Conditions A)
      → Stable b c inner t
      → do_items b (do_items b rest).0 ≡ do_items b rest
      → do_items b (put c inner t rest (do_items b rest)).0 ≡ put c inner t rest (do_items b rest)
  put_again b c inner (failed f) rest stable again = stable rest
  put_again b c inner (built body args) rest stable again =
      stable (do_items b rest).0 ∙ ap (put c inner (built body args) rest) again

  own-Stable :
      (b : Builder A) (c : Condition A)
      → checked b true c ≡ (c, none)
      → Stable b (own b c).0 empty (own b c).1
  unfolding do_items do_item
  own-Stable b c passes rest = rw (checked-own b c passes, own_again b c) refl

  inner-Stable :
      (b : Builder A) (c : Condition A) (below : Conditions A × Pieces A)
      → checked b false c ≡ (c, none)
      → is_empty below.0 ≡ false
      → do_items b below.0 ≡ below
      → Stable b c below.0 (wrapped c.logical_operator (finished below.1))
  unfolding do_items
  inner-Stable b c below passes full again rest =
      rw (full, passes, again) (do_item-none b c below.0 below rest (do_items b rest) full)

  item_again :
      (b : Builder A) (c : Condition A) (o : Option Failure) (inner rest : Conditions A)
      → checked b (is_empty inner) c ≡ (c, o)
      → do_items b (do_items b inner).0 ≡ do_items b inner
      → do_items b (do_items b rest).0 ≡ do_items b rest
      → do_items b (do_item b (c, o) inner (do_items b inner) rest (do_items b rest)).0
        ≡ do_item b (c, o) inner (do_items b inner) rest (do_items b rest)
  unfolding do_items do_item
  item_again b c (some f) inner rest passes below_again again = rw passes refl
  item_again b c none empty rest passes below_again again =
      put_again b (own b c).0 empty (own b c).1 rest (own-Stable b c passes) again
  item_again b c none (item d inner more) rest passes below_again again =
      let below : Conditions A × Pieces A = do_items b (item d inner more) in
      put_again b c below.0 (wrapped c.logical_operator (finished below.1)) rest
        (inner-Stable b c below passes (is_empty-do_items b (item d inner more)) below_again) again

  do_items_again :
      (b : Builder A) (cs : Conditions A) → do_items b (do_items b cs).0 ≡ do_items b cs
  unfolding do_items
  do_items_again b empty = refl
  do_items_again b (item c inner rest) =
      item_again b (checked b (is_empty inner) c).0 (checked b (is_empty inner) c).1 inner rest
        (checked_again b (is_empty inner) c) (do_items_again b inner) (do_items_again b rest)

  build-do_items :
      (b : Builder A) (empty_condition : Bool) (cs : Conditions A)
      → is_empty cs ≡ false
      → build b empty_condition cs ≡ ((do_items b cs).0, finished (do_items b cs).1)
  unfolding build
  build-do_items b e empty full = ground (arith, full)
  build-do_items b e (item c inner rest) full = refl

  -- Building the items that a build has left gives the same items, and the same text and arguments
  -- or the same failure.
  pub build_again :
      (b : Builder A) (empty_condition : Bool) (cs : Conditions A)
      → build b empty_condition (build b empty_condition cs).0 ≡ build b empty_condition cs
  unfolding build
  build_again b e empty = refl
  build_again b e (item c inner rest) =
      let cs : Conditions A = item c inner rest in
      rw (build-do_items b e (do_items b cs).0 (is_empty-do_items b cs), do_items_again b cs) refl
