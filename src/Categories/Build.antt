-- ===== src/Categories/Build.antt =====
-- When the trees of `makeTrees` are finished, and which items they hold.
use mathlib.Core.Logic.{∥∥₁_elim, ∥∥₁_prop}
use mathlib.Core.Logic.Or
use mathlib.Core.List.{
  Mem-prop, mem-cons, mem-cons_self, mem-cons_of_mem, mem-append, mem-append_left, mem-append_right,
  not-mem-nil,
}
use skeyevss_backend_service.Prelude.{
  ℕ, zero, suc, ◌<◌, ◌≡◌, ◌≢◌, ◌↔◌, refl, sym, ap, subst, ◌∙◌, Bool, true, false, Option, none,
  some, List, [], ◌∷◌, ◌++◌, Mem, arith, Bool-cases, inl, inr, length, suc-ne-zero, ◌||◌,
}
use skeyevss_backend_service.XMap.{returned, panicked}
use skeyevss_backend_service.Categories.{
  KeyType, Item, Forest, empty, node, Run, finish, and_then, same, children_of, make_trees,
  sub_flat_list, Category, conv, conv_list,
}

abbrev Finishes : {A : Type 0} → Run A → Type 0
Finishes {A} r = (a : A) × (r ≡ finish a)

invert-and_then :
    {A B : Type 0} (r : Run A) (f : A → Run B) (b : B)
    → and_then r f ≡ finish b
    → (a : A) × (r ≡ finish a) × (f a ≡ finish b)
invert-and_then none f b h = absurd (cc h)
invert-and_then (some panicked) f b h = absurd (cc h)
invert-and_then (some (returned a)) f b h = (a, refl, h)

invert-finish : {A : Type 0} (a b : A) → finish a ≡ finish b → a ≡ b
invert-finish a b h = cc h

never_panicked : {A : Type 0} (a : A) → some panicked ≢ finish a
never_panicked a h = cc h

module _ {T D : Type 0} ⦃key : KeyType T⦄ where
  -- An item of the list, and its place.
  pub data In : Item T D → List (Option (Item T D)) → Type 0 where
    here : {x : Item T D} {l : List (Option (Item T D))} → In x (some x ∷ l)
    there :
        {x : Item T D} {o : Option (Item T D)} {l : List (Option (Item T D))}
        → In x l
        → In x (o ∷ l)

  abbrev pub no_nil : List (Option (Item T D)) → Bool
  no_nil [] = true
  no_nil (none ∷ l) = false
  no_nil (some x ∷ l) = no_nil l

  children_of-Finishes :
      (make : T → Run (Forest T D)) (pid : T) (l : List (Option (Item T D)))
      → no_nil l ≡ true
      → ((x : Item T D) → In x l → same x.pid pid ≡ true → Finishes (make x.id))
      → Finishes (children_of make pid l)
  unfolding children_of
  children_of-Finishes make pid [] h f = (empty, refl)
  children_of-Finishes make pid (none ∷ l) h f = cc h
  children_of-Finishes make pid (some x ∷ l) h f =
      let rest = children_of-Finishes make pid l h (λ y i e. f y (there i) e) in
      elim (Bool-cases (same x.pid pid)) [
        | inl child ↦
            let below = f x here child in
            (node x below.0 rest.0, rw (child, children_of, below.1, rest.1) refl)
        | inr other ↦ (rest.0, rw (other, children_of) rest.1)
      ]

  -- Where no pointer is nil, and some height falls from every parent to its children, the recursion
  -- of `makeTrees` ends: fuel above the height of the root gives the trees.
  pub make_trees_finishes :
      (height : T → ℕ) (list : List (Option (Item T D))) (fuel : ℕ) (pid : T)
      → no_nil list ≡ true
      → ((x : Item T D) → In x list → height x.id < height x.pid)
      → height pid < fuel
      → (trees : Forest T D) × (make_trees fuel list pid ≡ finish trees)
  unfolding make_trees
  make_trees_finishes height list zero pid h falls b = absurd (omega arith)
  make_trees_finishes height list (suc fuel) pid h falls b =
      children_of-Finishes (make_trees fuel list) pid list h (λ x i e.
        let p = (key.comparable.equals_iff x.pid pid).0 e in
        make_trees_finishes height list fuel x.id h falls (
          let f : height x.id < height pid = subst (λ q. height x.id < height q) p (falls x i) in
          omega arith))

  -- What a finished loop has done with its first item.
  invert_child :
      (make : T → Run (Forest T D)) (pid : T) (x : Item T D) (l : List (Option (Item T D)))
      (trees : Forest T D)
      → same x.pid pid ≡ true
      → children_of make pid (some x ∷ l) ≡ finish trees
      → (below : Forest T D) × (after : Forest T D) × (make x.id ≡ finish below)
        × (children_of make pid l ≡ finish after)
        × (node x below after ≡ trees)
  unfolding children_of
  invert_child make pid x l trees child h =
      let h' = rw child at h in
      let below = invert-and_then (make x.id) _ trees h' in
      let after = invert-and_then (children_of make pid l) _ trees below.2 in
      (below.0, after.0, below.1, after.1, invert-finish _ _ after.2)

  invert_other :
      (make : T → Run (Forest T D)) (pid : T) (x : Item T D) (l : List (Option (Item T D)))
      (trees : Forest T D)
      → same x.pid pid ≡ false
      → children_of make pid (some x ∷ l) ≡ finish trees
      → children_of make pid l ≡ finish trees
  unfolding children_of
  invert_other make pid x l trees other h = rw other at h

  -- A finished loop has finished the trees below every child, and holds the child and those trees.
  children_of-child :
      (make : T → Run (Forest T D)) (pid : T) (l : List (Option (Item T D))) (trees : Forest T D)
      {x : Item T D}
      → children_of make pid l ≡ finish trees
      → In x l
      → same x.pid pid ≡ true
      → (below : Forest T D) × (make x.id ≡ finish below)
        × Mem x (sub_flat_list trees)
        × ((y : Item T D) → Mem y (sub_flat_list below) → Mem y (sub_flat_list trees))
  unfolding sub_flat_list
  children_of-child make pid [] trees h i e = elim i [ ]
  children_of-child make pid (none ∷ l) trees h i e =
      absurd (never_panicked trees (unfold children_of in h))
  children_of-child make pid (some z ∷ l) trees h here e =
      let c = invert_child make pid z l trees e h in
      rw (← c.4)
        (c.0, c.2, mem-cons_self, λ y m. mem-cons_of_mem _ (mem-append_left (sub_flat_list c.1) m))
  children_of-child make pid (some z ∷ l) trees h (there i) e = elim (Bool-cases (same z.pid pid)) [
    | inl child ↦
        let c = invert_child make pid z l trees child h in
        let r = children_of-child make pid l c.1 c.3 i e in
        rw (← c.4) (
          r.0,
          r.1,
          mem-cons_of_mem _ (mem-append_right (sub_flat_list c.0) r.2),
          λ y m. mem-cons_of_mem _ (mem-append_right (sub_flat_list c.0) (r.3 y m)),
        )
    | inr other ↦ children_of-child make pid l trees (invert_other make pid z l trees other h) i e
  ]

  -- Where every identifier of a class is the parent of an item whose identifier is in the class
  -- again, as those of a cycle are, `makeTrees` from one of them never ends, whatever the fuel.
  pub make_trees_never :
      (Loops : T → Type 0) (list : List (Option (Item T D))) (fuel : ℕ) (pid : T)
      (trees : Forest T D)
      → ((p : T) → Loops p → (x : Item T D) × In x list × (x.pid ≡ p) × Loops x.id)
      → Loops pid
      → make_trees fuel list pid ≢ finish trees
  unfolding make_trees
  make_trees_never Loops list zero pid trees next h e = absurd (cc e)
  make_trees_never Loops list (suc fuel) pid trees next h e =
      let n = next pid h in
      let c =
        children_of-child (make_trees fuel list) pid list trees {x = n.0} e n.1
          ((key.comparable.equals_iff n.0.pid pid).1 n.2) in
      make_trees_never Loops list fuel n.0.id c.0 next n.3 c.1

  children_of_nil :
      (make : T → Run (Forest T D)) (pid : T) (l : List (Option (Item T D))) (trees : Forest T D)
      → no_nil l ≡ false
      → children_of make pid l ≢ finish trees
  unfolding children_of
  children_of_nil make pid [] trees h e = absurd (cc h)
  children_of_nil make pid (none ∷ l) trees h e = never_panicked trees e
  children_of_nil make pid (some x ∷ l) trees h e = elim (Bool-cases (same x.pid pid)) [
    | inl child ↦
        let c = invert_child make pid x l trees child e in children_of_nil make pid l c.1 h c.3
    | inr other ↦ children_of_nil make pid l trees h (invert_other make pid x l trees other e)
  ]

  childless :
      (make : T → Run (Forest T D)) (pid : T) (l : List (Option (Item T D)))
      → no_nil l ≡ true
      → ((x : Item T D) → In x l → x.pid ≢ pid)
      → children_of make pid l ≡ finish empty
  unfolding children_of
  childless make pid [] h f = refl
  childless make pid (none ∷ l) h f = cc h
  childless make pid (some x ∷ l) h f = elim (Bool-cases (same x.pid pid)) [
    | inl child ↦ absurd (f x here ((key.comparable.equals_iff x.pid pid).0 child))
    | inr other ↦ rw (other, children_of) (childless make pid l h (λ y i. f y (there i)))
  ]

  make_trees_nil :
      (list : List (Option (Item T D))) (fuel : ℕ) (pid : T) (trees : Forest T D)
      → no_nil list ≡ false
      → make_trees fuel list pid ≢ finish trees
  unfolding make_trees
  make_trees_nil list zero pid trees h e = absurd (cc e)
  make_trees_nil list (suc fuel) pid trees h e =
      children_of_nil (make_trees fuel list) pid list trees h e

  -- Some row has a blank identifier.
  abbrev pub has_blank : (D → Item T D) → List D → Bool
  has_blank call [] = false
  has_blank call (d ∷ rest) = key.is_blank (call d).id || has_blank call rest

  nil-conv_list :
      (call : D → Item T D) (rows : List D)
      → has_blank call rows ≡ true
      → no_nil (conv_list call rows) ≡ false
  unfolding conv_list
  nil-conv_list call [] h = cc h
  nil-conv_list call (d ∷ rest) h = elim (Bool-cases (key.is_blank (call d).id)) [
    | inl blank ↦ rw (blank, conv_list) refl
    | inr other ↦ rw (other, conv_list) (nil-conv_list call rest (rw other at h))
  ]

  -- The bug: when one of the rows has a blank identifier, which `Conv` means to skip, it makes no
  -- category: the nil pointer that it leaves in the list is read by `makeTrees`.
  pub conv_blank :
      (call : D → Item T D) (rows : List D) (fuel : ℕ) (c : Category T D)
      → has_blank call rows ≡ true
      → conv fuel call rows ≢ finish c
  unfolding conv
  conv_blank call [] fuel c h e = cc h
  conv_blank call (d ∷ rows) fuel c h e =
      let e' = rw (suc-ne-zero (length rows)) at e in
      let r = invert-and_then (make_trees fuel (conv_list call (d ∷ rows)) key.zero_key) _ c e' in
      make_trees_nil (conv_list call (d ∷ rows)) fuel key.zero_key r.0
        (nil-conv_list call (d ∷ rows) h) r.1

  -- Where no item names an identifier as its parent, its trees are empty. The bug: `Conv` starts at
  -- the text of one zero byte when the identifiers are strings, and at no row with the parent "".
  pub make_trees_rootless :
      (list : List (Option (Item T D))) (fuel : ℕ) (pid : T)
      → no_nil list ≡ true
      → ((x : Item T D) → In x list → x.pid ≢ pid)
      → make_trees (suc fuel) list pid ≡ finish empty
  unfolding make_trees
  make_trees_rootless list fuel pid h f = childless (make_trees fuel list) pid list h f

  -- The items that the rows put below an identifier: its children, and what is below them.
  pub data Below (list : List (Option (Item T D))) : T → Item T D → Type 0 where
    child : {pid : T} {x : Item T D} → In x list → x.pid ≡ pid → Below list pid x
    deeper :
        {pid : T} {x y : Item T D} → In y list → y.pid ≡ pid → Below list y.id x → Below list pid x

  Below-flat :
      (list : List (Option (Item T D))) (fuel : ℕ) {pid : T} {x : Item T D} (trees : Forest T D)
      → Below list pid x
      → make_trees fuel list pid ≡ finish trees
      → Mem x (sub_flat_list trees)
  unfolding make_trees
  Below-flat list zero trees b e = absurd (cc e)
  Below-flat list (suc fuel) {pid} {x} trees (child i p) e =
      (children_of-child (make_trees fuel list) pid list trees e i
        ((key.comparable.equals_iff x.pid pid).1 p)).2
  Below-flat list (suc fuel) {pid} {x} trees (deeper {y = y} i p b) e =
      let c =
        children_of-child (make_trees fuel list) pid list trees e i
          ((key.comparable.equals_iff y.pid pid).1 p) in
      c.3 x (Below-flat list fuel c.0 b c.1)

  -- Every item of a finished loop is a child, or stands in the trees below a child.
  flat-children_of :
      (make : T → Run (Forest T D)) (list : List (Option (Item T D))) (pid : T)
      (l : List (Option (Item T D))) (trees : Forest T D) (x : Item T D)
      → ((y : Item T D) → In y l → In y list)
      → ((y : Item T D) (below : Forest T D)
          → make y.id ≡ finish below
          → Mem x (sub_flat_list below)
          → ∥ Below list y.id x ∥₁)
      → children_of make pid l ≡ finish trees
      → Mem x (sub_flat_list trees)
      → ∥ Below list pid x ∥₁
  unfolding sub_flat_list
  flat-children_of make list pid [] trees x sub f e m =
      let g : empty ≡ trees = invert-finish _ _ (unfold children_of in e) in
      absurd (not-mem-nil (subst (λ t. Mem x (sub_flat_list t)) (sym g) m))
  flat-children_of make list pid (none ∷ l) trees x sub f e m =
      absurd (never_panicked trees (unfold children_of in e))
  flat-children_of make list pid (some z ∷ l) trees x sub f e m =
      elim (Bool-cases (same z.pid pid)) [
        | inl yes_child ↦
            let c = invert_child make pid z l trees yes_child e in
            let p = (key.comparable.equals_iff z.pid pid).0 yes_child in
            let m' : Mem x (z ∷ (sub_flat_list c.0 ++ sub_flat_list c.1)) =
              subst (λ t. Mem x (sub_flat_list t)) (sym c.4) m in
            Or.elim ∥∥₁_prop (mem-cons.0 m')
              (λ same_item.
                ∣ child (sub x (subst (λ w. In w (some z ∷ l)) (sym same_item) here))
                  (ap (λ (w : Item T D). w.pid) same_item ∙ p) ∣₁)
              (λ later.
                Or.elim ∥∥₁_prop (mem-append.0 later)
                  (λ under.
                    ∥∥₁_elim (f z c.0 c.2 under) ∥∥₁_prop (λ b. ∣ deeper (sub z here) p b ∣₁))
                  (λ after.
                    flat-children_of make list pid l c.1 x (λ y i. sub y (there i)) f c.3 after))
        | inr other ↦
            flat-children_of make list pid l trees x (λ y i. sub y (there i)) f
              (invert_other make pid z l trees other e) m
      ]

  flat-Below :
      (list : List (Option (Item T D))) (fuel : ℕ) (pid : T) (trees : Forest T D) (x : Item T D)
      → make_trees fuel list pid ≡ finish trees
      → Mem x (sub_flat_list trees)
      → ∥ Below list pid x ∥₁
  unfolding make_trees
  flat-Below list zero pid trees x e m = absurd (cc e)
  flat-Below list (suc fuel) pid trees x e m =
      flat-children_of (make_trees fuel list) list pid list trees x (λ y i. i)
        (λ y below e' m'. flat-Below list fuel y.id below x e' m') e m

  -- The trees from an identifier, laid flat, hold exactly the items that the rows put below it.
  pub flat-make_trees :
      (list : List (Option (Item T D))) (fuel : ℕ) (pid : T) (trees : Forest T D) (x : Item T D)
      → make_trees fuel list pid ≡ finish trees
      → Mem x (sub_flat_list trees) ↔ ∥ Below list pid x ∥₁
  flat-make_trees list fuel pid trees x e = (
    flat-Below list fuel pid trees x e,
    λ b. ∥∥₁_elim b Mem-prop (λ b'. Below-flat list fuel trees b' e),
  )
