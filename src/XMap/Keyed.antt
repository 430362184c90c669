-- ===== src/XMap/Keyed.antt =====
-- A live map whose values name their own key, as the maps of the SIP service do, and laws for
-- clients that keep the methods shut.
use mathlib.Core.List.{Nodup-cons, mem-cons_self, mem-cons_of_mem, Permᴰ}
use mathlib.Core.Bool.{false≢true, Bool-set}
use mathlib.Core.List.Perm
use mathlib.Core.Logic.{∥∥₁_elim}
use mathlib.Core.List.{Nodup-nil}
use skeyevss_backend_service.Prelude.{
  pos, Comparable-set, ◌≡◌, refl, sym, ap, ◌∙◌, Bool, true, false, ◌||◌, Option, none, some, List,
  [], ◌∷◌, Mem, Nodup, Perm, Comparable, ◌==◌, arith, if◌then◌else◌, Bool-cases, inl, inr,
}
use skeyevss_backend_service.GoMap.{GoMap, RangeOrder, keys, values, lookup, insert, delete}
use skeyevss_backend_service.GoMap.Laws.{
  insert-insert_self, lookup-insert, lookup-delete, insert-Nodup, delete-Nodup, lookup_of_not-mem,
  lookup_of_mem_trunc,
}
use skeyevss_backend_service.XMap.{XMap, new, set, get, remove, clear, values_of}
use skeyevss_backend_service.XMap.Ops.{IsValid, new-IsValid, get-new}
use skeyevss_backend_service.XMap.Snapshots.{records_perm, values_of-records}

abbrev pub any {ℓ} : {A : Type ℓ} → (A → Bool) → List A → Bool
any q [] = false
any q (x ∷ l) = q x || any q l

abbrev pub opt_any {ℓ} : {A : Type ℓ} → (A → Bool) → Option A → Bool
opt_any q none = false
opt_any q (some a) = q a

any-permᴰ {ℓ} : {A : Type ℓ} (q : A → Bool) {l m : List A} → Permᴰ l m → any q l ≡ any q m
any-permᴰ q Permᴰ.nil = refl
any-permᴰ q (Permᴰ.cons e p) = ground (arith, any-permᴰ q p, ap q e)
any-permᴰ q (Permᴰ.swap e f) = ground (arith, ap q e, ap q f)
any-permᴰ q (Permᴰ.trans p r) = any-permᴰ q p ∙ any-permᴰ q r

pub any-perm {ℓ} : {A : Type ℓ} (q : A → Bool) {l m : List A} → Perm l m → any q l ≡ any q m
any-perm q p = ∥∥₁_elim p (Bool-set _ _) (any-permᴰ q)

module _ {ℓ κ} {K : Type ℓ} {V : Type κ} ⦃e : Comparable K⦄ where
  pub get-set :
      (k j : K) (v : V) (x : XMap K V)
      → get j (set k v (some x)) ≡ (if k == j then some v else get j (some x))
  unfolding get set
  get-set k j v x = lookup-insert k j v x.data_map

  pub get-remove :
      (k j : K) (r : Option (XMap K V)) → get j (remove k r) ≡ (if k == j then none else get j r)
  unfolding get remove
  get-remove k j none = ground arith
  get-remove k j (some x) = lookup-delete k j x.data_map

  pub set-set_self : (k : K) (v w : V) (r : Option (XMap K V)) → set k w (set k v r) ≡ set k w r
  unfolding set
  set-set_self k v w none = refl
  set-set_self k v w (some x) =
      ap (λ (m : GoMap K V). some (record x { data_map = m })) (insert-insert_self k v w x.data_map)

  pub get-clear : (j : K) (r : Option (XMap K V)) → get j (clear r) ≡ none
  unfolding get clear lookup
  get-clear j none = refl
  get-clear j (some x) = refl

  any-lookup :
      (q : V → Bool) (k : K) (m : GoMap K V)
      → Nodup (keys m)
      → ((j : K) (v : V) → Mem (j, v) m → q v ≡ true → j ≡ k)
      → any q (values m) ≡ opt_any q (lookup k m)
  unfolding lookup
  any-lookup q k [] d only = refl
  any-lookup q k ((i, v) ∷ m) d only =
      let ih = any-lookup q k m (Nodup-cons.0 d).1 (λ j w t. only j w (mem-cons_of_mem (i, v) t)) in
      elim (Bool-cases (i == k)) [
        | inl same ↦
            let gone : lookup k m ≡ none =
              rw ((e.equals_iff i k).0 same) at (lookup_of_not-mem i m (Nodup-cons.0 d).0) in
            ground (arith, ih, gone)
        | inr other ↦ elim (Bool-cases (q v)) [
          | inl hit ↦
              absurd (false≢true (sym other ∙ (e.equals_iff i k).1 (only i v mem-cons_self hit)))
          | inr miss ↦ ground (arith, ih)
        ]
      ]

-- The receiver is live, its keys are distinct, and each value names the key that it stands at.
pub record IsKeyed {ℓ κ} {K : Type ℓ} {V : Type κ} ⦃e : Comparable K⦄ (id_of : V → K)
    (r : Option (XMap K V)) : Type (ℓ ⊔ κ) where
  pub live : XMap K V
  pub is_live : r ≡ some live
  pub valid : IsValid live
  pub keyed : (k : K) (v : V) → get k r ≡ some v → id_of v ≡ k

module _ {ℓ κ} {K : Type ℓ} {V : Type κ} ⦃e : Comparable K⦄ (id_of : V → K) where
  pub get-set_keyed :
      (v : V) (j : K) (r : Option (XMap K V))
      → IsKeyed id_of r
      → get j (set (id_of v) v r) ≡ (if id_of v == j then some v else get j r)
  get-set_keyed v j r h = rw h.is_live (get-set (id_of v) j v h.live)

  pub set-IsKeyed :
      (v : V) (r : Option (XMap K V)) → IsKeyed id_of r → IsKeyed id_of (set (id_of v) v r)
  set-IsKeyed v r h = record {
    live = record h.live { data_map = insert (id_of v) v h.live.data_map };
    is_live = rw h.is_live (unfold set in refl);
    valid = insert-Nodup (id_of v) v h.live.data_map h.valid;
    keyed = λ j w t. elim (Bool-cases (id_of v == j)) [
      | inl same ↦
          let new : some v ≡ some w = rw same at (sym (get-set_keyed v j r h) ∙ t) in
          ap id_of (sym (cc new)) ∙ (e.equals_iff (id_of v) j).0 same
      | inr other ↦ h.keyed j w (rw other at (sym (get-set_keyed v j r h) ∙ t))
    ];
  }

  pub remove-IsKeyed :
      (k : K) (r : Option (XMap K V)) → IsKeyed id_of r → IsKeyed id_of (remove k r)
  remove-IsKeyed k r h = record {
    live = record h.live { data_map = delete k h.live.data_map };
    is_live = rw h.is_live (unfold remove in refl);
    valid = delete-Nodup k h.live.data_map h.valid;
    keyed = λ j v t. elim (Bool-cases (k == j)) [
      | inl same ↦ cc (rw same at (sym (get-remove k j r) ∙ t))
      | inr other ↦ h.keyed j v (rw other at (sym (get-remove k j r) ∙ t))
    ];
  }

  pub clear-IsKeyed : (r : Option (XMap K V)) → IsKeyed id_of r → IsKeyed id_of (clear r)
  clear-IsKeyed r h = record {
    live = record h.live { data_map = [] };
    is_live = rw h.is_live (unfold clear in refl);
    valid = Nodup-nil;
    keyed = λ j v t. cc (get-clear j r);
  }

  -- A test that picks the values of one key finds one in `Values` exactly when it holds of the
  -- value at that key.
  pub any-values_of :
      (order : RangeOrder (K × V)) (r : Option (XMap K V)) (q : V → Bool) (k : K)
      → IsKeyed id_of r
      → ((v : V) → q v ≡ true → id_of v ≡ k)
      → any q (values_of order r) ≡ opt_any q (get k r)
  any-values_of order r q k h only =
      let m = h.live.data_map in
      rw h.is_live (
        rw (values_of-records order h.live) (
          any-perm q (Perm.map (λ p. p.1) (records_perm order h.live))
          ∙ any-lookup q k m h.valid (λ j v t hit.
            ∥∥₁_elim (lookup_of_mem_trunc j v m h.valid t) (Comparable-set _ _)
              (λ p. sym (h.keyed j v (rw h.is_live (unfold get in p))) ∙ only v hit))
          ∙ unfold get in refl))

  any-false :
      (q : V → Bool) (m : GoMap K V)
      → ((k : K) (v : V) → Mem (k, v) m → q v ≡ false)
      → any q (values m) ≡ false
  any-false q [] none_passes = refl
  any-false q ((k, v) ∷ m) none_passes =
      rw (none_passes k v mem-cons_self)
        (any-false q m (λ j w t. none_passes j w (mem-cons_of_mem (k, v) t)))

  -- A test that fails at every value of the map finds none in `Values`.
  pub any-values_of-false :
      (order : RangeOrder (K × V)) (r : Option (XMap K V)) (q : V → Bool)
      → IsKeyed id_of r
      → ((k : K) (v : V) → get k r ≡ some v → q v ≡ false)
      → any q (values_of order r) ≡ false
  any-values_of-false order r q h fails =
      let m = h.live.data_map in
      rw h.is_live (
        rw (values_of-records order h.live) (
          any-perm q (Perm.map (λ p. p.1) (records_perm order h.live))
          ∙ any-false q m (λ k v t.
            ∥∥₁_elim (lookup_of_mem_trunc k v m h.valid t) (Bool-set _ _)
              (λ p. fails k v (rw h.is_live (unfold get in p))))))

  pub new-IsKeyed : IsKeyed id_of (some (new (pos 0)))
  new-IsKeyed = record {
    live = new (pos 0);
    is_live = refl;
    valid = new-IsValid K V (pos 0);
    keyed = λ k v t. cc (get-new {K = K} {V = V} k (pos 0));
  }
