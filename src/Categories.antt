-- ===== src/Categories.antt =====
-- core/pkg/categories/main.go: rows that name their parent are put together into trees, and searched.
-- A slice of trees is a Forest. A pointer that may be nil is an Option, and to read through it may
-- panic. The recursion of `makeTrees` and `findParents` follows the rows and may never end; it runs
-- on fuel here, and `none` says that the fuel ran out. The items that the caller's function makes of
-- rows have no children.
pub mod Build
pub mod Search
pub mod Tests
use skeyevss_backend_service.Prelude.{
  ℕ, zero, suc, ◌≡◌, Bool, true, false, Option, none, some, List, [], ◌∷◌, ◌++◌, map, Comparable,
  ◌==◌, if◌then◌else◌, length, nat_beq, ℤ, pos, int_comparable,
}
use skeyevss_backend_service.Text.{Text, text_comparable}
use skeyevss_backend_service.XMap.{Outcome, returned, panicked}

-- keyType: `T(0)`, and the test on the identifiers that `Conv` skips.
pub record KeyType (T : Type 0) : Type 0 where
  pub comparable : Comparable T
  pub zero_key : T
  pub is_blank : T → Bool

instance abbrev pub int_key : KeyType ℤ
int_key = record {
  comparable = int_comparable;
  zero_key = pos 0;
  is_blank = λ z. int_comparable.equals z (pos 0);
}

-- The conversion of 0 to a string is the text of one zero byte.
instance abbrev pub string_key : KeyType Text
string_key = record {
  comparable = text_comparable;
  zero_key = 0 ∷ [];
  is_blank = λ s. text_comparable.equals s [];
}

pub record Item (T D : Type 0) : Type 0 where
  pub id : T
  pub pid : T
  pub name : Text
  pub raw : D

-- Trees next to each other: the first item, its children, and the trees that follow.
pub data Forest (T D : Type 0) : Type 0 where
  empty : Forest T D
  node : Item T D → Forest T D → Forest T D → Forest T D

-- Category
pub record Category (T D : Type 0) : Type 0 where
  pub list : List (Option (Item T D))
  pub trees : Forest T D

-- `none` when the fuel runs out.
abbrev pub Run : Type 0 → Type 0
Run A = Option (Outcome A)

abbrev pub finish : {A : Type 0} → A → Run A
finish a = some (returned a)

abbrev pub and_then : {A B : Type 0} → Run A → (A → Run B) → Run B
and_then none f = none
and_then (some panicked) f = some panicked
and_then (some (returned a)) f = f a

abbrev pub same : {T : Type 0} ⦃key : KeyType T⦄ → T → T → Bool
same ⦃key⦄ = key.comparable.equals

module _ {T D : Type 0} ⦃key : KeyType T⦄ where
  -- The loop of `makeTrees`, which reads every pointer of the list.
  pub children_of : (T → Run (Forest T D)) → T → List (Option (Item T D)) → Run (Forest T D)
  children_of make pid [] = finish empty
  children_of make pid (none ∷ rest) = some panicked
  children_of make pid (some item ∷ rest) =
      let others = children_of make pid rest in
      if same item.pid pid
      then and_then (make item.id)
          (λ children. and_then others (λ trees. finish (node item children trees)))
      else others

  -- makeTrees
  pub make_trees : ℕ → List (Option (Item T D)) → T → Run (Forest T D)
  unfolding children_of
  make_trees zero list pid = none
  make_trees (suc fuel) list pid = children_of (make_trees fuel list) pid list

  -- The loop of `Conv`: a row with a blank identifier leaves a nil pointer behind.
  pub conv_list : (D → Item T D) → List D → List (Option (Item T D))
  conv_list call [] = []
  conv_list call (d ∷ rest) =
      (if key.is_blank (call d).id then none else some (call d)) ∷ conv_list call rest

  -- Conv
  pub conv : ℕ → (D → Item T D) → List D → Run (Category T D)
  unfolding conv_list make_trees
  conv fuel call rows =
      if nat_beq (length rows) 0
      then finish (record { list = []; trees = empty })
      else and_then (make_trees fuel (conv_list call rows) key.zero_key)
          (λ trees. finish (record { list = conv_list call rows; trees = trees }))

  -- SubFlatList
  pub sub_flat_list : Forest T D → List (Item T D)
  sub_flat_list empty = []
  sub_flat_list (node item children rest) = item ∷ (sub_flat_list children ++ sub_flat_list rest)

  -- FindId and find: a tree with its children.
  pub find_id : T → Forest T D → Option (Item T D × Forest T D)
  find_id id empty = none
  find_id id (node item children rest) =
      let below = find_id id children in
      let after = find_id id rest in
      if same item.id id
      then some (item, children)
      else (elim below [ some found ↦ some found | none ↦ after ])

  -- Find
  pub find : T → Category T D → Option (Item T D × Forest T D)
  unfolding find_id
  find id c = find_id id c.trees

  abbrev pub ids_below : Option (Item T D × Forest T D) → List T
  ids_below none = []
  ids_below (some (item, children)) = map (λ (i : Item T D). i.id) (sub_flat_list children)

  pub ids_of : List T → Forest T D → List T
  unfolding find_id sub_flat_list
  ids_of [] trees = []
  ids_of (id ∷ ids) trees = ids_below (find_id id trees) ++ ids_of ids trees

  -- From the trees of `FindTrees` on; nil and the empty slice are both [].
  pub ids_in : List T → Forest T D → List T
  unfolding ids_of
  ids_in parent_ids empty = []
  ids_in parent_ids (node item children rest) =
      parent_ids ++ ids_of parent_ids (node item children rest)

  -- FindTrees
  pub find_trees : ℕ → List T → (D → Item T D) → List D → Run (List T)
  unfolding conv ids_in
  find_trees fuel parent_ids call rows =
      and_then (conv fuel call rows) (λ c. finish (ids_in parent_ids c.trees))

  -- The loop of `findParents`, with the recursive call as `parents`.
  pub parents_of :
      (T → Run (List (Item T D))) → T → List (Option (Item T D)) → Run (List (Item T D))
  parents_of parents pid [] = finish []
  parents_of parents pid (none ∷ rest) = some panicked
  parents_of parents pid (some item ∷ rest) =
      let others = parents_of parents pid rest in
      if same item.id pid
      then (if key.is_blank item.pid
          then finish (item ∷ [])
          else and_then (parents item.pid)
              (λ above. and_then others (λ more. finish (item ∷ (above ++ more)))))
      else others

  -- findParents
  pub find_above : ℕ → List (Option (Item T D)) → T → Run (List (Item T D))
  unfolding parents_of
  find_above zero list pid = none
  find_above (suc fuel) list pid = parents_of (find_above fuel list) pid list

  -- The loop at the start of `FindParents`: the last item with the identifier stays.
  pub last_with : T → List (Option (Item T D)) → Option (Item T D) → Run (Option (Item T D))
  last_with id [] current = finish current
  last_with id (none ∷ rest) current = some panicked
  last_with id (some item ∷ rest) current =
      last_with id rest (if same item.id id then some item else current)

  abbrev pub reverse_onto : List (Item T D) → List (Item T D) → List (Item T D)
  reverse_onto [] acc = acc
  reverse_onto (x ∷ l) acc = reverse_onto l (x ∷ acc)

  pub above_current : ℕ → List (Option (Item T D)) → Option (Item T D) → Run (List (Item T D))
  unfolding find_above
  above_current fuel list none = finish []
  above_current fuel list (some current) =
      if key.is_blank current.pid
      then finish (current ∷ [])
      else and_then (find_above fuel list current.pid)
          (λ above. finish (reverse_onto (current ∷ above) []))

  -- FindParents
  pub find_parents : ℕ → T → Category T D → Run (List (Item T D))
  unfolding last_with above_current
  find_parents fuel id c =
      and_then (last_with id c.list none) (λ current. above_current fuel c.list current)
