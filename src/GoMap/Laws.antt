-- ===== src/GoMap/Laws.antt =====
-- The laws of the built-in map: reads after writes, distinct keys, sizes.
use mathlib.Core.HLevel.{⊥_prop}
use mathlib.Core.List.{
  not-mem-nil, mem-cons_self, mem-cons_of_mem, eq-or-mem_of_mem-cons, mem-map_of_mem, Nodup-cons,
  Mem-prop,
}
use mathlib.Core.List.Perm
use mathlib.Core.Logic.Or
use mathlib.Core.Logic.{∥∥₁_elim, ∥∥₁_prop}
use mathlib.Core.Option
use skeyevss_backend_service.Prelude.{
  ℕ, ◌+◌, ◌≡◌, refl, ap, subst, sym, true, Option, none, some, [], ◌∷◌, Mem, Nodup, Perm, ◌∙◌,
  Comparable, ◌==◌, arith, if◌then◌else◌, length, Bool-cases, inl, inr, Option-cases,
}
use skeyevss_backend_service.GoMap.{GoMap, keys, lookup, delete, insert}

-- 1 for a key that is present, 0 for one that is not.
abbrev pub count_of {ℓ} : {A : Type ℓ} → Option A → ℕ
count_of none = 0
count_of (some a) = 1

module _ {ℓ κ} {K : Type ℓ} {V : Type κ} ⦃e : Comparable K⦄ where
  pub lookup-delete :
      (k j : K) (m : GoMap K V) → lookup j (delete k m) ≡ (if k == j then none else lookup j m)
  unfolding lookup delete
  lookup-delete k j [] = ground arith
  lookup-delete k j ((i, v) ∷ m) =
      ground (arith, lookup-delete k j m, e.equals_iff i k, e.equals_iff i j, e.equals_iff k j)

  pub lookup-insert :
      (k j : K) (v : V) (m : GoMap K V)
      → lookup j (insert k v m) ≡ (if k == j then some v else lookup j m)
  unfolding lookup insert
  lookup-insert k j v m = ground (arith, lookup-delete k j m)

  pub delete_absent : (k : K) (m : GoMap K V) → lookup k m ≡ none → delete k m ≡ m
  unfolding lookup delete
  delete_absent k [] h = refl
  delete_absent k ((i, v) ∷ m) h = ground (arith, delete_absent k m)

  -- A second write at a key hides the first.
  pub insert-insert_self :
      (k : K) (v w : V) (m : GoMap K V) → insert k w (insert k v m) ≡ insert k w m
  unfolding insert delete
  insert-insert_self k v w m = ap (◌∷◌ (k, w)) (
      rw ((e.equals_iff k k).1 refl)
        (delete_absent k (delete k m) (lookup-delete k k m ∙ rw ((e.equals_iff k k).1 refl) refl)))

  pub mem_of_lookup : (k : K) (v : V) (m : GoMap K V) → lookup k m ≡ some v → Mem (k, v) m
  unfolding lookup
  mem_of_lookup k v [] h = cc
  mem_of_lookup k v ((i, w) ∷ m) h = elim (Bool-cases (i == k)) [
    | inl same ↦
        subst (λ p. Mem p ((i, w) ∷ m))
          (λ d. ((e.equals_iff i k).0 same d, some_inj (rw same at h) d)) mem-cons_self
    | inr other ↦ mem-cons_of_mem (i, w) (mem_of_lookup k v m (rw other at h))
  ]
    where
      some_inj : {a b : V} → some a ≡ some b → a ≡ b
      some_inj p = cc

  pub not-mem_of_lookup : (k : K) (m : GoMap K V) → lookup k m ≡ none → ¬ Mem k (keys m)
  unfolding lookup
  not-mem_of_lookup k [] h = not-mem-nil
  not-mem_of_lookup k ((i, v) ∷ m) h = λ t.
      Or.elim ⊥_prop (eq-or-mem_of_mem-cons t) (λ here. ground (arith, e.equals_iff i k))
        (not-mem_of_lookup k m (ground arith))

  -- Deleting a key leaves the rest of the keys.
  pub mem-keys-delete : (k j : K) (m : GoMap K V) → Mem j (keys (delete k m)) → Mem j (keys m)
  unfolding delete
  mem-keys-delete k j [] t = t
  mem-keys-delete k j ((i, v) ∷ m) t = elim (Bool-cases (i == k)) [
    | inl same ↦ mem-cons_of_mem i (mem-keys-delete k j m (rw same at t))
    | inr other ↦
        Or.elim Mem-prop (eq-or-mem_of_mem-cons (rw other at t))
          (λ here. subst (λ x. Mem x (keys ((i, v) ∷ m))) (sym here) mem-cons_self)
          (λ there. mem-cons_of_mem i (mem-keys-delete k j m there))
  ]

  pub delete-Nodup : (k : K) (m : GoMap K V) → Nodup (keys m) → Nodup (keys (delete k m))
  unfolding delete
  delete-Nodup k [] d = d
  delete-Nodup k ((i, v) ∷ m) d = elim (Bool-cases (i == k)) [
    | inl same ↦ rw same (delete-Nodup k m (Nodup-cons.0 d).1)
    | inr other ↦ rw other (
        Nodup-cons.1
          (λ t. (Nodup-cons.0 d).0 (mem-keys-delete k i m t), delete-Nodup k m (Nodup-cons.0 d).1))
  ]

  pub insert-Nodup : (k : K) (v : V) (m : GoMap K V) → Nodup (keys m) → Nodup (keys (insert k v m))
  unfolding insert
  insert-Nodup k v m d =
      Nodup-cons.1
        (not-mem_of_lookup k (delete k m) (simp (lookup-delete, refl_beq)), delete-Nodup k m d)
    where
      refl_beq : (k == k) ≡ true
      refl_beq = (e.equals_iff k k).1 refl

  pub lookup_of_not-mem : (k : K) (m : GoMap K V) → ¬ Mem k (keys m) → lookup k m ≡ none
  lookup_of_not-mem k m absent = elim (Option-cases (lookup k m)) [
    | inl e ↦ e
    | inr (v, e) ↦ absurd (absent (mem-map_of_mem (λ p. p.0) (mem_of_lookup k v m e)))
  ]

  -- With distinct keys, a deletion removes one entry if the key is there, and none otherwise.
  pub length-delete :
      (k : K) (m : GoMap K V)
      → Nodup (keys m)
      → length (delete k m) + count_of (lookup k m) ≡ length m
  unfolding lookup delete
  length-delete k [] d = refl
  length-delete k ((i, v) ∷ m) d = elim (Bool-cases (i == k)) [
    | inl same ↦
        let gone : lookup k m ≡ none =
          lookup_of_not-mem k m
            (subst (λ x. ¬ Mem x (keys m)) ((e.equals_iff i k).0 same) (Nodup-cons.0 d).0) in
        rw (same, delete_absent k m gone) (omega arith)
    | inr other ↦ rw other (omega (arith, length-delete k m (Nodup-cons.0 d).1))
  ]

  -- The entries of a map are its lookups.
  pub lookup_of_mem_trunc :
      (k : K) (v : V) (m : GoMap K V) → Nodup (keys m) → Mem (k, v) m → ∥ (lookup k m ≡ some v) ∥₁
  unfolding lookup
  lookup_of_mem_trunc k v [] d t = absurd (not-mem-nil t)
  lookup_of_mem_trunc k v ((i, w) ∷ m) d t =
      Or.elim ∥∥₁_prop (eq-or-mem_of_mem-cons t)
        (λ here.
          ∣ ground (
            arith,
            e.equals_iff i k,
            ap (λ (p : K × V). p.0) here,
            ap (λ (p : K × V). p.1) here,
          ) ∣₁)
        (λ there. elim (Bool-cases (i == k)) [
          | inl same ↦ absurd (
              (Nodup-cons.0 d).0 (
                subst (λ x. Mem x (keys m)) (sym ((e.equals_iff i k).0 same))
                  (mem-map_of_mem (λ p. p.0) there)))
          | inr other ↦ rw other (lookup_of_mem_trunc k v m (Nodup-cons.0 d).1 there)
        ])

  pub lookup_of_mem :
      (k : K) (v : V) (m : GoMap K V)
      → Nodup (keys m)
      → IsSet V
      → Mem (k, v) m
      → lookup k m ≡ some v
  lookup_of_mem k v m d vs t =
      ∥∥₁_elim (lookup_of_mem_trunc k v m d t) (Option.is_set vs _ _) (λ p. p)

  -- Two orders of the same entries are one map.
  pub lookup-perm :
      (k : K) (l m : GoMap K V)
      → IsSet V
      → Nodup (keys l)
      → Nodup (keys m)
      → Perm l m
      → lookup k l ≡ lookup k m
  lookup-perm k l m vs dl dm p = elim (Option-cases (lookup k l)) [
    | inl e ↦
        e
        ∙ sym (
            lookup_of_not-mem k m
              (λ t. not-mem_of_lookup k l e ((Perm.mem_iff (Perm.map (λ q. q.0) p)).1 t)))
    | inr (v, e) ↦ e ∙ sym (lookup_of_mem k v m dm vs ((Perm.mem_iff p).0 (mem_of_lookup k v l e)))
  ]
