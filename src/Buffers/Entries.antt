-- ===== src/Buffers/Entries.antt =====
-- The entry of a key through insertions, deletions and clean-ups.
use skeyevss_backend_service.Prelude.{
  ℕ, suc, ◌+◌, ◌≡◌, refl, subst, Bool, true, false, Option, none, some, List, [], ◌∷◌,
  if◌then◌else◌, ltb, Nodup, Mem, arith, Bool-cases, inl, inr,
}
use mathlib.Core.List.{Nodup-cons}
use skeyevss_backend_service.GoMap.{keys, lookup, insert, delete}
use skeyevss_backend_service.GoMap.Laws.{
  lookup-insert, lookup-delete, insert-Nodup, delete-Nodup, lookup_of_not-mem,
}
use skeyevss_backend_service.Text.{Text, text_comparable, text_beq, text_beq_iff}
use skeyevss_backend_service.Buffers.{Item, Buffers, cleanup_loop}
use skeyevss_backend_service.Buffers.Promise.{kept, seen, IsCopy, IsFresh}

module _ (key : Text) where
  -- The map holds each key once, and the entry of `key` is `c`, with a copy that is right where `g`
  -- is the copy that was given.
  abbrev pub Holds : Option (Text × ℕ) → Option Text → Buffers → Type 0
  Holds c g bm = Nodup (keys bm) × (seen (lookup key bm) ≡ c) × IsFresh g (lookup key bm)

  pub Holds-insert :
      (k : Text) (item : Item) (bm : Buffers) (c : Option (Text × ℕ)) (g given : Option Text)
      → Holds c g bm
      → (text_beq k key ≡ true → IsCopy item.contents given item.cached)
      → Holds
          (if text_beq k key then some (item.contents, item.created_at) else c)
          (if text_beq k key then given else g)
          (insert k item bm)
  Holds-insert k item bm c g given h fresh = elim (Bool-cases (text_beq k key)) [
    | inl same ↦ rw same (
      insert-Nodup k item bm h.0,
      rw (lookup-insert k key item bm) (rw same refl),
      rw (lookup-insert k key item bm) (rw same (fresh same)),
    )
    | inr other ↦ rw other (
      insert-Nodup k item bm h.0,
      rw (lookup-insert k key item bm) (rw other h.1),
      rw (lookup-insert k key item bm) (rw other h.2),
    )
  ]

  pub Holds-delete :
      (k : Text) (bm : Buffers) (c : Option (Text × ℕ)) (g : Option Text)
      → Holds c g bm
      → Holds (if text_beq k key then none else c) g (delete k bm)
  Holds-delete k bm c g h = elim (Bool-cases (text_beq k key)) [
    | inl same ↦ rw same (
      delete-Nodup k bm h.0,
      rw (lookup-delete k key bm) (rw same refl),
      rw (lookup-delete k key bm) (rw same tt),
    )
    | inr other ↦ rw other (
      delete-Nodup k bm h.0,
      rw (lookup-delete k key bm) (rw other h.1),
      rw (lookup-delete k key bm) (rw other h.2),
    )
  ]

  -- Whether a clean-up finds an old item of the key.
  abbrev pub is_old : ℕ → ℕ → List (Text × Item) → Bool
  is_old max_age now [] = false
  is_old max_age now ((k, item) ∷ items) =
      let rest = is_old max_age now items in
      if ltb (item.created_at + max_age) now then (if text_beq k key then true else rest) else rest

  not_twice :
      (c : Option (Text × ℕ)) (first later : Bool)
      → (if later then none else (if first then none else c))
        ≡ (if (if first then true else later) then none else c)
  not_twice c true true = refl
  not_twice c true false = refl
  not_twice c false true = refl
  not_twice c false false = refl

  pub Holds-cleanup_loop :
      (max_age now n : ℕ) (items : List (Text × Item)) (bm : Buffers) (c : Option (Text × ℕ))
      (g : Option Text)
      → Holds c g bm
      → Holds
          (if is_old max_age now items then none else c)
          g
          (cleanup_loop max_age now items (n, bm)).1
  Holds-cleanup_loop max_age now n [] bm c g h = h
  Holds-cleanup_loop max_age now n ((k, item) ∷ items) bm c g h =
      elim (Bool-cases (ltb (item.created_at + max_age) now)) [
        | inl old ↦ rw old (
            subst (λ d. Holds d g (cleanup_loop max_age now items (suc n, delete k bm)).1)
              (not_twice c (text_beq k key) (is_old max_age now items))
              (Holds-cleanup_loop max_age now (suc n) items (delete k bm)
                (if text_beq k key then none else c) g (Holds-delete k bm c g h)))
        | inr young ↦ rw young (Holds-cleanup_loop max_age now n items bm c g h)
      ]

  not_old : (max_age now : ℕ) (bm : Buffers) → lookup key bm ≡ none → is_old max_age now bm ≡ false
  unfolding lookup
  not_old max_age now [] h = refl
  not_old max_age now ((k, item) ∷ bm) h = ground (arith, not_old max_age now bm)

  pub is_old-lookup :
      (max_age now : ℕ) (bm : Buffers)
      → Nodup (keys bm)
      → (if is_old max_age now bm then none else seen (lookup key bm))
        ≡ kept max_age now (seen (lookup key bm))
  unfolding lookup
  is_old-lookup max_age now [] d = refl
  is_old-lookup max_age now ((k, item) ∷ bm) d = elim (Bool-cases (text_beq k key)) [
    | inl same ↦
        let absent =
          lookup_of_not-mem key bm
            (subst (λ j. ¬ Mem j (keys bm)) ((text_beq_iff k key).0 same) (Nodup-cons.0 d).0) in
        elim (Bool-cases (ltb (item.created_at + max_age) now)) [
          | inl old ↦ rw (same, old) refl
          | inr young ↦ rw (same, young, not_old max_age now bm absent) refl
        ]
    | inr other ↦
        let ih = is_old-lookup max_age now bm (Nodup-cons.0 d).1 in
        elim (Bool-cases (ltb (item.created_at + max_age) now)) [
          | inl old ↦ rw (other, old) ih
          | inr young ↦ rw (other, young) ih
        ]
  ]
