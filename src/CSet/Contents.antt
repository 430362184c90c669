-- ===== src/CSet/Contents.antt =====
-- What the methods of core/pkg/set/main.go do to the elements of a set.
use mathlib.Core.Bool.{false≢true}
use mathlib.Core.List.{
  not-mem-nil, mem-cons_self, eq-or-mem_of_mem-cons, mem-map_of_mem, Nodup-nil, Mem-prop,
}
use mathlib.Core.List.Perm
use mathlib.Core.Logic.Or
use skeyevss_backend_service.Prelude.{
  beq_refl, ◌≡◌, ◌↔◌, refl, fun_ext, ◌∙◌, subst, Bool, true, false, not, ◌&&◌, ◌||◌, Option, none,
  some, List, [], ◌∷◌, ◌++◌, Mem, Nodup, Perm, Comparable, arith, if◌then◌else◌, length, inl, inr,
  Option-cases, nat_beq, suc-ne-zero, length-perm, length-map,
}
use skeyevss_backend_service.GoMap.{RangeOrder, keys, lookup, insert, delete}
use skeyevss_backend_service.GoMap.Laws.{
  lookup-insert, lookup-delete, insert-Nodup, delete-Nodup, not-mem_of_lookup, mem_of_lookup,
  mem-keys-delete,
}
use skeyevss_backend_service.CSet.{
  CSet, SetMap, add_all, add, remove_all, remove, contains, clear_loop, clear, size, snapshot_keys,
  values, visit, range,
}
use skeyevss_backend_service.Arrays.{contains as member}

abbrev is_some {ℓ} : {A : Type ℓ} → Option A → Bool
is_some none = false
is_some (some a) = true

abbrev pub CSetIsValid {ℓ} : {T : Type ℓ} → CSet T → Type ℓ
CSetIsValid m = Nodup (keys m.members)

module _ {ℓ} {T : Type ℓ} ⦃e : Comparable T⦄ where
  has : T → SetMap T → Bool
  has x s = is_some (lookup x s)

  contains-has : (x : T) (m : CSet T) → contains x (some m) ≡ has x m.members
  unfolding contains has
  contains-has x m = ground arith

  has-add_all : (x : T) (l : List T) (s : SetMap T) → has x (add_all l s) ≡ (member x l || has x s)
  unfolding add_all has member
  has-add_all x [] s = refl
  has-add_all x (v ∷ l) s = ground (arith, has-add_all x l (insert v tt s), lookup-insert v x tt s)

  has-remove_all :
      (x : T) (l : List T) (s : SetMap T) → has x (remove_all l s) ≡ (not (member x l) && has x s)
  unfolding remove_all has member
  has-remove_all x [] s = ground arith
  has-remove_all x (v ∷ l) s = ground (arith, has-remove_all x l (delete v s), lookup-delete v x s)

  clear_loop_all :
      (l : List T) (s : SetMap T) → ((k : T) → Mem k (keys s) → Mem k l) → clear_loop l s ≡ []
  unfolding clear_loop
  clear_loop_all [] [] h = refl
  clear_loop_all [] ((k, u) ∷ s) h = absurd (not-mem-nil (h k mem-cons_self))
  clear_loop_all (v ∷ l) s h = clear_loop_all l (delete v s) λ k t.
      Or.elim Mem-prop (eq-or-mem_of_mem-cons (h k (mem-keys-delete v k s t)))
        (λ here. absurd (
          not-mem_of_lookup v (delete v s) (lookup-delete v v s ∙ rw (beq_refl v) refl)
            (subst (λ a. Mem a (keys (delete v s))) here t)))
        (λ there. there)

  -- `Clear` leaves no element, whatever the order in which its loop visits them.
  pub clear_empties :
      (order : RangeOrder (T × Unit {0})) (m : CSet T)
      → clear order (some m) ≡ some (record { members = [] })
  unfolding clear
  clear_empties order m = rw (
      clear_loop_all (keys (order.arrange m.members)) m.members
        (λ k. (Perm.mem_iff (Perm.map (λ p. p.0) (order.arrange-perm m.members))).1))

  add_all-Nodup : (l : List T) (s : SetMap T) → Nodup (keys s) → Nodup (keys (add_all l s))
  unfolding add_all
  add_all-Nodup [] s d = d
  add_all-Nodup (v ∷ l) s d = add_all-Nodup l (insert v tt s) (insert-Nodup v tt s d)

  remove_all-Nodup : (l : List T) (s : SetMap T) → Nodup (keys s) → Nodup (keys (remove_all l s))
  unfolding remove_all
  remove_all-Nodup [] s d = d
  remove_all-Nodup (v ∷ l) s d = remove_all-Nodup l (delete v s) (delete-Nodup v s d)

pub data SetOp {ℓ} (T : Type ℓ) : Type ℓ where
  adds : List T → SetOp T
  removes : List T → SetOp T
  clears : SetOp T

module _ {ℓ} {T : Type ℓ} ⦃e : Comparable T⦄ (order : RangeOrder (T × Unit {0})) where
  pub step : SetOp T → Option (CSet T) → Option (CSet T)
  step (adds l) m = add l m
  step (removes l) m = remove l m
  step clears m = clear order m

  pub run : List (SetOp T) → Option (CSet T) → Option (CSet T)
  run [] m = m
  run (o ∷ os) m = run os (step o m)

  -- The promise, on a set as its membership test.
  pub spec_step : SetOp T → (T → Bool) → T → Bool
  spec_step (adds l) f x = member x l || f x
  spec_step (removes l) f x = not (member x l) && f x
  spec_step clears f x = false

  pub spec_run : List (SetOp T) → (T → Bool) → T → Bool
  spec_run [] f = f
  spec_run (o ∷ os) f = spec_run os (spec_step o f)

  abbrev tests : CSet T → T → Bool
  tests m x = contains x (some m)

  member-nil : (x : T) → member x [] ≡ false
  unfolding member
  member-nil x = refl

  contains-empty : (x : T) → contains x (some (record { members = [] })) ≡ false
  unfolding contains lookup
  contains-empty x = refl

  step_lem :
      (o : SetOp T) (m : CSet T)
      → CSetIsValid m
      → (n : CSet T) × (step o (some m) ≡ some n)
        × CSetIsValid n
        × (tests n ≡ spec_step o (tests m))
  unfolding step spec_step add remove
  step_lem (adds []) m d = (m, refl, d, fun_ext λ x. rw (member-nil x))
  step_lem (adds (v ∷ l)) m d = (
    _,
    refl,
    add_all-Nodup (v ∷ l) m.members d,
    fun_ext λ x. simp contains-has (has-add_all x (v ∷ l) m.members),
  )
  step_lem (removes []) m d = (m, refl, d, fun_ext λ x. rw (member-nil x))
  step_lem (removes (v ∷ l)) m d = (
    _,
    refl,
    remove_all-Nodup (v ∷ l) m.members d,
    fun_ext λ x. simp contains-has (has-remove_all x (v ∷ l) m.members),
  )
  step_lem clears m d = (_, clear_empties order m, Nodup-nil, fun_ext contains-empty)

  -- After any calls of `Add`, `Remove` and `Clear` on a live set with distinct keys, the set is
  -- live, its keys are distinct, and `Contains` answers as the abstract set does.
  pub set-run-refines :
      (os : List (SetOp T)) (m : CSet T)
      → CSetIsValid m
      → (n : CSet T) × (run os (some m) ≡ some n)
        × CSetIsValid n
        × ((x : T) → contains x (some n) ≡ spec_run os (tests m) x)
  unfolding run spec_run
  set-run-refines [] m d = (m, refl, d, λ x. refl)
  set-run-refines (o ∷ os) m d =
      let s = step_lem o m d in
      let ih = set-run-refines os s.0 s.2 in (ih.0, rw s.1 ih.1, ih.2, rw (← s.3) ih.3)

  snapshot_keys-perm : (m : CSet T) → Perm (snapshot_keys order m) (keys m.members)
  unfolding snapshot_keys
  snapshot_keys-perm m = go m.members
    where
      go :
          (s : SetMap T)
          → Perm (if nat_beq (length s) 0 then [] else keys (order.arrange s)) (keys s)
      go [] = Perm.nil
      go (p ∷ s) = rw (suc-ne-zero (length s)) (Perm.map (λ q. q.0) (order.arrange-perm (p ∷ s)))

  has_iff : (x : T) (s : SetMap T) → (has x s ≡ true) ↔ Mem x (keys s)
  unfolding has
  has_iff x s = (
    λ h. elim (Option-cases (lookup x s)) [
      | inl absent ↦ absurd (false≢true (rw (absent, has) at h))
      | inr (u, here) ↦ mem-map_of_mem (λ p. p.0) (mem_of_lookup x u s here)
    ],
    λ t. elim (Option-cases (lookup x s)) [
      | inl absent ↦ absurd (not-mem_of_lookup x s absent t)
      | inr (u, here) ↦ rw (here, has)
    ],
  )

  -- Of a set with distinct keys, whatever the order of the range: `Values` lists no element twice,
  -- it lists exactly those that `Contains` confirms, and there are `Size` of them.
  pub values_complete :
      (m : CSet T)
      → CSetIsValid m
      → Nodup (values order (some m))
        × ((x : T) → Mem x (values order (some m)) ↔ (contains x (some m) ≡ true))
        × (length (values order (some m)) ≡ size (some m))
  unfolding values size
  values_complete m d =
      let p = snapshot_keys-perm m in
      (
        Perm.nodup (Perm.symm p) d,
        λ x. rw (contains-has x m) (
          λ t. (has_iff x m.members).1 ((Perm.mem_iff p).0 t),
          λ h. (Perm.mem_iff p).1 ((has_iff x m.members).0 h),
        ),
        length-perm p ∙ length-map (λ q. q.0) m.members,
      )

  -- `Range` calls `f` on elements of the set as it stood at the call, each at most once, in some
  -- order and whatever `f` does to the set.
  pub range_snapshot {μ} :
      {S : Type μ} (self : S → Option (CSet T)) (f : T → S → Bool × S) (s : S) (m : CSet T)
      → self s ≡ some m
      → (l : List T) × Perm l (keys m.members) × (range order self (some f) s ≡ visit f l s)
  unfolding range
  range_snapshot self f s m h = (snapshot_keys order m, snapshot_keys-perm m, rw (h, range))

-- An element on which `f` answers `false` ends the walk: what stands behind it is not visited.
pub visit_stops {ℓ μ} :
    {T : Type ℓ} {S : Type μ} (f : T → S → Bool × S) (xs : List T) (k : T) (ys : List T) (s : S)
    → ((t : S) → (f k t).0 ≡ false)
    → visit f (xs ++ k ∷ ys) s ≡ visit f (xs ++ k ∷ []) s
unfolding visit
visit_stops f [] k ys s h = ground (arith, h s)
visit_stops f (x ∷ xs) k ys s h = ground (arith, visit_stops f xs k ys (f x s).1 h)
