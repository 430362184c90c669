-- ===== src/Categories/Search.antt =====
-- What the searches in finished trees find, and when the walk to the ancestors ends.
use skeyevss_backend_service.Prelude.{
  ℕ, zero, suc, ◌<◌, ◌≡◌, refl, subst, true, false, Option, none, some, List, [], ◌∷◌, ◌++◌,
  if◌then◌else◌, arith, Bool-cases, inl, inr,
}
use skeyevss_backend_service.Categories.{
  KeyType, Item, Forest, empty, node, Run, finish, same, sub_flat_list, find_id, parents_of,
  find_above,
}
use skeyevss_backend_service.Categories.Build.{In, here, there, no_nil}

module _ {T D : Type 0} ⦃key : KeyType T⦄ where
  -- The first item with the identifier.
  pub first_with : T → List (Item T D) → Option (Item T D)
  first_with id [] = none
  first_with id (x ∷ l) = if same x.id id then some x else first_with id l

  abbrev pub or_else : Option (Item T D) → Option (Item T D) → Option (Item T D)
  or_else none o = o
  or_else (some x) o = some x

  abbrev pub top : Option (Item T D × Forest T D) → Option (Item T D)
  top none = none
  top (some (item, children)) = some item

  first_with-append :
      (id : T) (l m : List (Item T D))
      → first_with id (l ++ m) ≡ or_else (first_with id l) (first_with id m)
  unfolding first_with
  first_with-append id [] m = refl
  first_with-append id (x ∷ l) m = ground (arith, first_with-append id l m)

  -- A search in trees finds the item that a search in the flat list of them finds: the first one in
  -- the order of the list, and nothing only if no item has the identifier.
  pub find_id-sub_flat_list :
      (id : T) (trees : Forest T D) → top (find_id id trees) ≡ first_with id (sub_flat_list trees)
  unfolding find_id sub_flat_list first_with
  find_id-sub_flat_list id empty = refl
  find_id-sub_flat_list id (node item children rest) =
      let below = find_id-sub_flat_list id children in
      let after = find_id-sub_flat_list id rest in
      let split = first_with-append id (sub_flat_list children) (sub_flat_list rest) in
      ground (arith, below, after, split)

  parents_of-finishes :
      (parents : T → Run (List (Item T D))) (pid : T) (l : List (Option (Item T D)))
      → no_nil l ≡ true
      → ((x : Item T D)
          → In x l
          → same x.id pid ≡ true
          → key.is_blank x.pid ≡ false
          → (above : List (Item T D)) × (parents x.pid ≡ finish above))
      → (above : List (Item T D)) × (parents_of parents pid l ≡ finish above)
  unfolding parents_of
  parents_of-finishes parents pid [] h f = ([], refl)
  parents_of-finishes parents pid (none ∷ l) h f = cc h
  parents_of-finishes parents pid (some x ∷ l) h f =
      let rest = parents_of-finishes parents pid l h (λ y i e. f y (there i) e) in
      elim (Bool-cases (same x.id pid)) [
        | inl found ↦ elim (Bool-cases (key.is_blank x.pid)) [
          | inl top_level ↦ (x ∷ [], rw (found, top_level, parents_of) refl)
          | inr below ↦
              let above = f x here found below in
              (x ∷ (above.0 ++ rest.0), rw (found, below, parents_of, above.1, rest.1) refl)
        ]
        | inr other ↦ (rest.0, rw (other, parents_of) rest.1)
      ]

  -- Where no pointer is nil, and some depth falls from every item to its parent unless that is
  -- blank, the walk to the ancestors ends: fuel above the depth of the start gives them.
  pub find_above_finishes :
      (depth : T → ℕ) (list : List (Option (Item T D))) (fuel : ℕ) (pid : T)
      → no_nil list ≡ true
      → ((x : Item T D) → In x list → key.is_blank x.pid ≡ false → depth x.pid < depth x.id)
      → depth pid < fuel
      → (above : List (Item T D)) × (find_above fuel list pid ≡ finish above)
  unfolding find_above
  find_above_finishes depth list zero pid h falls b = absurd (omega arith)
  find_above_finishes depth list (suc fuel) pid h falls b =
      parents_of-finishes (find_above fuel list) pid list h (λ x i e below.
        let p = (key.comparable.equals_iff x.id pid).0 e in
        find_above_finishes depth list fuel x.pid h falls (
          let f : depth x.pid < depth pid =
            subst (λ q. depth x.pid < depth q) p (falls x i below) in
          omega arith))
