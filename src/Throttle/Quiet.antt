-- ===== src/Throttle/Quiet.antt =====
-- What a tick of the debounce makes, and what it drops.
use skeyevss_backend_service.Prelude.{
  ℕ, ◌≡◌, refl, sym, ap, ◌∙◌, Bool, true, false, ◌&&◌, ◌||◌, none, List, [], ◌∷◌, if◌then◌else◌,
  leb, Bool-cases, inl, inr,
}
use mathlib.Core.Bool.{false≢true}
use skeyevss_backend_service.Text.{Text, text_beq, text_beq_iff}
use skeyevss_backend_service.Throttle.{ConcurrentMap}
use skeyevss_backend_service.Throttle.Debounce.{DebounceEntry, debounce, first_call, debounce_items}

-- The calls of the items whose time has come.
abbrev pub due_calls : ℕ → List (Text × DebounceEntry) → List ℕ
due_calls t [] = []
due_calls t ((id, current) ∷ items) =
    let rest = due_calls t items in if leb current.exec_time t then current.call ∷ rest else rest

-- Whether the time of an item of a key has come.
abbrev pub is_due : Text → ℕ → List (Text × DebounceEntry) → Bool
is_due id t [] = false
is_due id t ((i, current) ∷ items) = (leb current.exec_time t && text_beq i id) || is_due id t items

module _ (m : ConcurrentMap DebounceEntry) where
  first_call_calls : (call : ℕ) (a : List ℕ × m.Store) → (first_call m call a).0 ≡ call ∷ a.0
  first_call_calls call (calls, s) = refl

  first_call_store : (call : ℕ) (a : List ℕ × m.Store) → (first_call m call a).1 ≡ a.1
  first_call_store call (calls, s) = refl

  calls_lem :
      (t : ℕ) (items : List (Text × DebounceEntry)) (s : m.Store)
      → (debounce_items m t items s).0 ≡ due_calls t items
  unfolding debounce_items
  calls_lem t [] s = refl
  calls_lem t ((id, current) ∷ items) s = elim (Bool-cases (leb current.exec_time t)) [
    | inl due ↦ rw due (
        first_call_calls current.call (debounce_items m t items (m.remove id s))
        ∙ ap (λ l. current.call ∷ l) (calls_lem t items (m.remove id s)))
    | inr early ↦ rw early (calls_lem t items s)
  ]

  -- A key that is removed stays removed, and another keeps its entry.
  get-remove_cases :
      (id i : Text) (s : m.Store) (later : Bool)
      → (if later then none else m.get id (m.remove i s))
        ≡ (if text_beq i id || later then none else m.get id s)
  get-remove_cases id i s true = elim (Bool-cases (text_beq i id)) [
    | inl same ↦ rw same refl
    | inr other ↦ rw other refl
  ]
  get-remove_cases id i s false = elim (Bool-cases (text_beq i id)) [
    | inl same ↦
        rw same (ap (λ k. m.get id (m.remove k s)) ((text_beq_iff i id).0 same) ∙ m.get-remove id s)
    | inr other ↦
        rw other (
          m.get-remove_other i id s (λ eq. false≢true (sym other ∙ (text_beq_iff i id).1 (sym eq))))
  ]

  store_lem :
      (id : Text) (t : ℕ) (items : List (Text × DebounceEntry)) (s : m.Store)
      → m.get id (debounce_items m t items s).1 ≡ (if is_due id t items then none else m.get id s)
  unfolding debounce_items
  store_lem id t [] s = refl
  store_lem id t ((i, current) ∷ items) s = elim (Bool-cases (leb current.exec_time t)) [
    | inl due ↦ rw due (
        ap (m.get id) (first_call_store current.call (debounce_items m t items (m.remove i s)))
        ∙ store_lem id t items (m.remove i s)
        ∙ get-remove_cases id i s (is_due id t items))
    | inr early ↦ rw early (store_lem id t items s)
  ]

  -- A tick makes the calls of the items it read whose time has come, in their order; and after it
  -- the map has no entry for their keys, and the entry it had for any other key.
  pub debounce_items_lem :
      (id : Text) (t : ℕ) (items : List (Text × DebounceEntry)) (s : m.Store)
      → ((debounce_items m t items s).0 ≡ due_calls t items)
        × (m.get id (debounce_items m t items s).1
            ≡ (if is_due id t items then none else m.get id s))
  debounce_items_lem id t items s = (calls_lem t items s, store_lem id t items s)

  -- A call that Debounce takes after a tick read the items, for a key whose time has come, is not
  -- among the calls of that tick, which are those it read, and is gone from the map.
  pub call_lost :
      (id : Text) (interval call now t : ℕ) (items : List (Text × DebounceEntry)) (s : m.Store)
      → is_due id t items ≡ true
      → ((debounce_items m t items (debounce m id interval call now s)).0 ≡ due_calls t items)
        × (m.get id (debounce_items m t items (debounce m id interval call now s)).1 ≡ none)
  call_lost id interval call now t items s due =
      let later = debounce m id interval call now s in
      (calls_lem t items later, store_lem id t items later ∙ rw due refl)
