-- ===== src/XMap/Snapshots.antt =====
-- What `Keys`, `Values`, `Records`, `AllCopy` and `ForEach` of core/pkg/xmap/main.go show of the
-- map, for every order in which Go may range over it.
use mathlib.Core.List.{Nodup-cons, mem-map_of_mem}
use mathlib.Core.Bool.{false≢true}
use mathlib.Core.List.Perm
use skeyevss_backend_service.Prelude.{
  suc-ne-zero, ◌⊎◌, length-perm, length-map, ◌≡◌, ◌↔◌, refl, ◌∙◌, true, Option, none, some, List,
  [], ◌∷◌, Mem, Nodup, Perm, Comparable, ◌==◌, arith, if◌then◌else◌, length, Bool-cases, inl, inr,
  Option-cases, nat_beq,
}
use skeyevss_backend_service.GoMap.{GoMap, RangeOrder, keys, values, lookup, insert}
use skeyevss_backend_service.GoMap.Laws.{
  lookup-insert, lookup_of_mem, mem_of_lookup, lookup_of_not-mem, not-mem_of_lookup, lookup-perm,
}
use skeyevss_backend_service.XMap.{
  XMap, returned, get, contains, len, keys_of, values_of, records, all_copy, copy_loop,
  snapshot_records, for_each, visit,
}
use skeyevss_backend_service.XMap.Ops.{IsValid}

abbrev or_else {ℓ} : {A : Type ℓ} → Option A → Option A → Option A
or_else (some a) o = some a
or_else none o = o

or_else-none {ℓ} : {A : Type ℓ} (o : Option A) → or_else o none ≡ o
or_else-none (some a) = refl
or_else-none none = refl

module _ {ℓ κ} {K : Type ℓ} {V : Type κ} (order : RangeOrder (K × V)) where
  -- The guard for an empty map changes nothing: an empty map has no other order.
  pub records_perm : (x : XMap K V) → Perm (records order (some x)) x.data_map
  unfolding records
  records_perm x = go x.data_map
    where
      go : (m : GoMap K V) → Perm (if nat_beq (length m) 0 then [] else order.arrange m) m
      go [] = Perm.nil
      go (p ∷ m) = rw (suc-ne-zero (length m)) (order.arrange-perm (p ∷ m))

  snapshot_perm : (x : XMap K V) → Perm (snapshot_records order x) x.data_map
  unfolding records snapshot_records
  snapshot_perm x = records_perm x

  keys_of-records : (x : XMap K V) → keys_of order (some x) ≡ keys (records order (some x))
  unfolding keys_of records
  keys_of-records x = ground arith

  pub values_of-records :
      (x : XMap K V) → values_of order (some x) ≡ values (records order (some x))
  unfolding values_of records
  values_of-records x = ground arith

module _ {ℓ κ} {K : Type ℓ} {V : Type κ} ⦃e : Comparable K⦄ (order : RangeOrder (K × V)) where
  contains_of_mem : (k : K) (x : XMap K V) → Mem k (keys x.data_map) → contains k (some x) ≡ true
  unfolding contains
  contains_of_mem k x t = elim (Option-cases (lookup k x.data_map)) [
    | inl absent ↦ absurd (not-mem_of_lookup k x.data_map absent t)
    | inr (v, here) ↦ rw (here, contains)
  ]

  mem_of_contains : (k : K) (x : XMap K V) → contains k (some x) ≡ true → Mem k (keys x.data_map)
  unfolding contains
  mem_of_contains k x h = elim (Option-cases (lookup k x.data_map)) [
    | inl absent ↦ absurd (false≢true (rw (absent, contains) at h))
    | inr (v, here) ↦ mem-map_of_mem (λ p. p.0) (mem_of_lookup k v x.data_map here)
  ]

  -- Of a map with distinct keys, whatever the order of the range: `Keys` lists no key twice, it
  -- lists exactly the keys that `Contains` confirms, and there are `Len` of them.
  pub keys_of_complete :
      (x : XMap K V)
      → IsValid x
      → Nodup (keys_of order (some x))
        × ((k : K) → Mem k (keys_of order (some x)) ↔ (contains k (some x) ≡ true))
        × (length (keys_of order (some x)) ≡ len (some x))
  unfolding len
  keys_of_complete x d =
      let p : Perm (keys_of order (some x)) (keys x.data_map) =
        rw (keys_of-records order x) (Perm.map (λ q. q.0) (records_perm order x)) in
      (
        Perm.nodup (Perm.symm p) d,
        λ k. (
          λ t. contains_of_mem k x ((Perm.mem_iff p).0 t),
          λ h. (Perm.mem_iff p).1 (mem_of_contains k x h),
        ),
        length-perm p ∙ length-map (λ q. q.0) x.data_map,
      )

  -- Of a map with distinct keys, whatever the order of the range: `Records` holds the pair of a
  -- key and a value exactly when `Get` finds that value at that key.
  pub records_complete :
      (x : XMap K V) (k : K) (v : V)
      → IsValid x
      → IsSet V
      → Mem (k, v) (records order (some x)) ↔ (get k (some x) ≡ some v)
  unfolding get
  records_complete x k v d vs =
      let p = records_perm order x in
      (
        λ t. lookup_of_mem k v x.data_map d vs ((Perm.mem_iff p).0 t),
        λ h. (Perm.mem_iff p).1 (mem_of_lookup k v x.data_map h),
      )

  lookup-copy_loop :
      (k : K) (l acc : GoMap K V)
      → Nodup (keys l)
      → lookup k (copy_loop l acc) ≡ or_else (lookup k l) (lookup k acc)
  unfolding lookup copy_loop
  lookup-copy_loop k [] acc d = refl
  lookup-copy_loop k ((i, v) ∷ l) acc d =
      let ih = lookup-copy_loop k l (insert i v acc) (Nodup-cons.0 d).1 in
      let out = lookup_of_not-mem i l (Nodup-cons.0 d).0 in
      elim (Bool-cases (i == k)) [
        | inl same ↦
            let gone : lookup k l ≡ none = rw ((e.equals_iff i k).0 same) at out in
            ground (arith, ih, lookup-insert i k v acc, gone)
        | inr other ↦ ground (arith, ih, lookup-insert i k v acc)
      ]

  -- Of a map with distinct keys, whatever the order of the range: `AllCopy` returns a map that
  -- reads at every key as `Get` does.
  pub all_copy_complete :
      (x : XMap K V) (k : K)
      → IsValid x
      → IsSet V
      → (m : GoMap K V) × (all_copy order (some x) ≡ returned m) × (lookup k m ≡ get k (some x))
  unfolding all_copy get lookup
  all_copy_complete x k d vs = go x.data_map d
    where
      go :
          (m : GoMap K V)
          → Nodup (keys m)
          → (c : GoMap K V) × ((if nat_beq (length m) 0
                then returned []
                else returned (copy_loop (order.arrange m) []))
              ≡ returned c)
            × (lookup k c ≡ lookup k m)
      go [] dm = ([], refl, refl)
      go (q ∷ m) dm =
          let p = order.arrange-perm (q ∷ m) in
          let dl = Perm.nodup (Perm.symm (Perm.map (λ (r : K × V). r.0) p)) dm in
          (
            _,
            rw (suc-ne-zero (length m)),
            lookup-copy_loop k (order.arrange (q ∷ m)) [] dl
                ∙ or_else-none (lookup k (order.arrange (q ∷ m)))
                ∙ lookup-perm k (order.arrange (q ∷ m)) (q ∷ m) vs dl dm p,
          )

  -- `ForEach` calls `fn` once for every entry that the map holds when it starts, in some order,
  -- whatever the calls of `fn` do, to the same map too. With a nil receiver it does nothing.
  pub for_each_snapshot {μ} :
      {S : Type μ} (self : S → Option (XMap K V)) (fn : K → V → S → S) (s : S)
      → ((self s ≡ none) × (for_each order self (some fn) s ≡ s))
        ⊎ ((x : XMap K V) × (l : List (K × V)) × (self s ≡ some x)
            × Perm l x.data_map
            × (for_each order self (some fn) s ≡ visit fn l s))
  unfolding for_each
  for_each_snapshot self fn s = elim (Option-cases (self s)) [
    | inl e ↦ inl (e, rw (e, for_each))
    | inr (x, e) ↦ inr (x, snapshot_records order x, e, snapshot_perm order x, rw (e, for_each))
  ]
