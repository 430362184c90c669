-- ===== src/Arrays/Unique.antt =====
-- What the slice helpers of core/pkg/functions/array.go keep, drop and detect.
use mathlib.Core.Bool.{false≢true, Bool-set}
use mathlib.Core.HLevel.{⊥_prop}
use mathlib.Core.List.{
  append-nil, append_assoc, not-mem-nil, mem-cons, mem-cons_self, mem-cons_of_mem,
  eq-or-mem_of_mem-cons, Nodup-cons, Nodup-nil, Sublist, nil-sublist, Mem-prop,
}
use mathlib.Core.List.Sublist
use mathlib.Core.Logic.{◌∨₁◌, ∨₁_prop}
use mathlib.Core.Logic.Or
use skeyevss_backend_service.Prelude.{
  suc-ne-zero, beq_refl, ◌≡◌, ◌↔◌, ◌⊎◌, refl, sym, ap, ◌∙◌, subst, true, false, none, some, List,
  [], ◌∷◌, ◌++◌, map, Mem, Nodup, Comparable, ◌==◌, arith, length, Bool-cases, inl, inr,
  Option-cases,
}
use skeyevss_backend_service.GoMap.{GoMap, lookup, insert}
use skeyevss_backend_service.GoMap.Laws.{lookup-insert}
use skeyevss_backend_service.Arrays.{
  contains, duplicates_loop, has_duplicates, unique_loop, arr_unique_with_call, arr_unique,
}

module _ {ℓ} {T : Type ℓ} ⦃e : Comparable T⦄ where
  -- `Contains` finds an element exactly when the slice holds it.
  pub contains_iff : (x : T) (arr : List T) → (contains x arr ≡ true) ↔ Mem x arr
  unfolding contains
  contains_iff x arr = (sound arr, complete arr)
    where
      sound : (l : List T) → contains x l ≡ true → Mem x l
      sound [] h = absurd (false≢true h)
      sound (v ∷ l) h = elim (Bool-cases (v == x)) [
        | inl same ↦ subst (λ a. Mem a (v ∷ l)) ((e.equals_iff v x).0 same) mem-cons_self
        | inr other ↦ mem-cons_of_mem v (sound l (rw (other, contains) at h))
      ]

      complete : (l : List T) → Mem x l → contains x l ≡ true
      complete [] t = absurd (not-mem-nil t)
      complete (v ∷ l) t = elim (Bool-cases (v == x)) [
        | inl same ↦ rw (same, contains)
        | inr other ↦
            rw (other, contains)
              (Or.elim (Bool-set _ _) (eq-or-mem_of_mem-cons t)
                (λ here. absurd (false≢true (sym other ∙ (e.equals_iff v x).1 (sym here))))
                (complete l))
      ]

  -- A key is in the set `seen` exactly when a lookup finds it.
  abbrev InSet : T → GoMap T (Unit {0}) → Type 0
  InSet a seen = lookup a seen ≡ some tt

  not-InSet : (a : T) (seen : GoMap T (Unit {0})) → lookup a seen ≡ none → ¬ InSet a seen
  not-InSet a seen h t = cc

  InSet-insert_self : (a : T) (seen : GoMap T (Unit {0})) → InSet a (insert a tt seen)
  InSet-insert_self a seen = lookup-insert a a tt seen ∙ rw (beq_refl a) refl

  InSet-insert : (a b : T) (seen : GoMap T (Unit {0})) → InSet b seen → InSet b (insert a tt seen)
  InSet-insert a b seen h = lookup-insert a b tt seen ∙ ground arith

  InSet-insert_inv :
      (a b : T) (seen : GoMap T (Unit {0})) → InSet b (insert a tt seen) → (a ≡ b) ⊎ InSet b seen
  InSet-insert_inv a b seen h = elim (Bool-cases (a == b)) [
    | inl same ↦ inl ((e.equals_iff a b).0 same)
    | inr other ↦ inr (rw other at (sym (lookup-insert a b tt seen) ∙ h))
  ]

  duplicates_loop_sound :
      (l : List T) (seen : GoMap T (Unit {0}))
      → duplicates_loop l seen ≡ false
      → Nodup l × ((x : T) → Mem x l → ¬ InSet x seen)
  unfolding duplicates_loop
  duplicates_loop_sound [] seen h = (Nodup-nil, λ x t. absurd (not-mem-nil t))
  duplicates_loop_sound (v ∷ l) seen h = elim (Option-cases (lookup v seen)) [
    | inl absent ↦
        let ih = duplicates_loop_sound l (insert v tt seen) (rw (absent, duplicates_loop) at h) in
        (
          Nodup-cons.1 (λ t. ih.1 v t (InSet-insert_self v seen), ih.0),
          λ x t s.
              Or.elim ⊥_prop (eq-or-mem_of_mem-cons t)
                (λ here. not-InSet v seen absent (subst (λ a. InSet a seen) here s))
                (λ there. ih.1 x there (InSet-insert v x seen s)),
        )
    | inr (u, there) ↦ absurd (false≢true (sym h ∙ rw (there, duplicates_loop)))
  ]

  duplicates_loop_complete :
      (l : List T) (seen : GoMap T (Unit {0}))
      → Nodup l
      → ((x : T) → Mem x l → ¬ InSet x seen)
      → duplicates_loop l seen ≡ false
  unfolding duplicates_loop
  duplicates_loop_complete [] seen d fresh = refl
  duplicates_loop_complete (v ∷ l) seen d fresh = elim (Option-cases (lookup v seen)) [
    | inl absent ↦
        rw (absent, duplicates_loop)
          (duplicates_loop_complete l (insert v tt seen) (Nodup-cons.0 d).1 (λ x t s.
            elim (InSet-insert_inv v x seen s) [
              | inl same ↦ (Nodup-cons.0 d).0 (subst (λ a. Mem a l) (sym same) t)
              | inr old ↦ fresh x (mem-cons_of_mem v t) old
            ]))
    | inr (u, there) ↦ absurd (fresh v mem-cons_self there)
  ]

  -- `HasDuplicates` answers no exactly when no element occurs twice.
  pub has_duplicates_iff : (arr : List T) → (has_duplicates arr ≡ false) ↔ Nodup arr
  unfolding has_duplicates
  has_duplicates_iff arr = (
    λ h. (duplicates_loop_sound arr [] h).0,
    λ d. duplicates_loop_complete arr [] d (λ x t. not-InSet x [] refl),
  )

module _ {ℓ κ} {T : Type ℓ} {K : Type κ} ⦃e : Comparable K⦄ (key : T → K) where
  -- What the loop appends to its result.
  appended : List T → GoMap K (Unit {0}) → List T
  appended [] temp = []
  appended (v ∷ rest) temp = elim (lookup (key v) temp) [
    | some _ ↦ appended rest temp
    | none ↦ v ∷ appended rest (insert (key v) tt temp)
  ]

  unique_loop-append :
      (l : List T) (temp : GoMap K (Unit {0})) (result : List T)
      → unique_loop key l temp result ≡ result ++ appended l temp
  unfolding unique_loop appended
  unique_loop-append [] temp result = sym (append-nil result)
  unique_loop-append (v ∷ l) temp result = elim (Option-cases (lookup (key v) temp)) [
    | inl absent ↦
        rw (absent, unique_loop, appended)
          (unique_loop-append l (insert (key v) tt temp) (result ++ v ∷ [])
            ∙ append_assoc result (v ∷ []) (appended l (insert (key v) tt temp)))
    | inr (u, there) ↦ rw (there, unique_loop, appended) (unique_loop-append l temp result)
  ]

  appended-sublist : (l : List T) (temp : GoMap K (Unit {0})) → Sublist (appended l temp) l
  unfolding appended
  appended-sublist [] temp = nil-sublist []
  appended-sublist (v ∷ l) temp = elim (Option-cases (lookup (key v) temp)) [
    | inl absent ↦
        rw (absent, appended) (Sublist.cons-cons v (appended-sublist l (insert (key v) tt temp)))
    | inr (u, there) ↦ rw (there, appended) (Sublist.cons v (appended-sublist l temp))
  ]

  appended_new :
      (l : List T) (temp : GoMap K (Unit {0}))
      → Nodup (map key (appended l temp))
        × ((k : K) → Mem k (map key (appended l temp)) → ¬ InSet k temp)
  unfolding appended
  appended_new [] temp = (Nodup-nil, λ k t. absurd (not-mem-nil t))
  appended_new (v ∷ l) temp = elim (Option-cases (lookup (key v) temp)) [
    | inl absent ↦
        let ih = appended_new l (insert (key v) tt temp) in
        rw (absent, appended)
          (
            Nodup-cons.1 (λ t. ih.1 (key v) t (InSet-insert_self (key v) temp), ih.0),
            λ k t s.
                Or.elim ⊥_prop (eq-or-mem_of_mem-cons t)
                  (λ here. not-InSet (key v) temp absent (subst (λ a. InSet a temp) here s))
                  (λ there. ih.1 k there (InSet-insert (key v) k temp s)),
          )
    | inr (u, there) ↦ rw (there, appended) (appended_new l temp)
  ]

  -- Every key of the input is in the output, or was seen before.
  appended_covers :
      (l : List T) (temp : GoMap K (Unit {0})) (k : K)
      → Mem k (map key l)
      → Mem k (map key (appended l temp)) ∨₁ InSet k temp
  unfolding appended
  appended_covers [] temp k t = absurd (not-mem-nil t)
  appended_covers (v ∷ l) temp k t = elim (Option-cases (lookup (key v) temp)) [
    | inl absent ↦
        rw (absent, appended)
          (Or.elim ∨₁_prop (eq-or-mem_of_mem-cons t) (λ here. Or.inl (mem-cons.1 (Or.inl here)))
            (λ there.
              Or.elim ∨₁_prop (appended_covers l (insert (key v) tt temp) k there)
                (λ kept. Or.inl (mem-cons_of_mem (key v) kept))
                (λ seen. elim (InSet-insert_inv (key v) k temp seen) [
                  | inl same ↦ Or.inl (mem-cons.1 (Or.inl (sym same)))
                  | inr old ↦ Or.inr old
                ])))
    | inr (u, there) ↦
        rw (there, appended)
          (Or.elim ∨₁_prop (eq-or-mem_of_mem-cons t)
            (λ here. Or.inr (subst (λ a. InSet a temp) (sym here) there))
            (appended_covers l temp k))
  ]

  -- `ArrUniqueWithCall` keeps a part of the slice in its order, in which no key occurs twice and
  -- every key of the slice still occurs.
  pub arr_unique_with_call_lem :
      (l : List T)
      → Sublist (arr_unique_with_call l key) l
        × Nodup (map key (arr_unique_with_call l key))
        × ((k : K) → Mem k (map key l) → Mem k (map key (arr_unique_with_call l key)))
  unfolding arr_unique_with_call
  arr_unique_with_call_lem [] = (nil-sublist [], Nodup-nil, λ k t. t)
  arr_unique_with_call_lem (v ∷ l) =
      rw (suc-ne-zero (length l), unique_loop-append (v ∷ l) [] [])
        (
          appended-sublist (v ∷ l) [],
          (appended_new (v ∷ l) []).0,
          λ k t.
              Or.elim Mem-prop (appended_covers (v ∷ l) [] k t) (λ kept. kept)
                (λ seen. absurd (not-InSet k [] refl seen)),
        )

map_self {ℓ} : {A : Type ℓ} (l : List A) → map (λ (a : A). a) l ≡ l
map_self [] = refl
map_self (x ∷ l) = ap (◌∷◌ x) (map_self l)

-- `ArrUnique` keeps a part of the slice in its order, with no element twice and none lost.
pub arr_unique_lem {ℓ} :
    {T : Type ℓ} ⦃e : Comparable T⦄ (l : List T)
    → Sublist (arr_unique l) l × Nodup (arr_unique l) × ((x : T) → Mem x (arr_unique l) ↔ Mem x l)
unfolding arr_unique arr_unique_with_call
arr_unique_lem {T} l =
    let h = arr_unique_with_call_lem (λ (v : T). v) l in
    (
      h.0,
      rw map_self at h.1,
      λ x. (
        λ t. Sublist.subset h.0 x t,
        λ t. rw (map_self (arr_unique l)) at (h.2 x (rw (map_self l) t)),
      ),
    )
