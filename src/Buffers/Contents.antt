-- ===== src/Buffers/Contents.antt =====
-- What Get hands out is what was added since the buffer was made or reset.
use skeyevss_backend_service.Prelude.{
  ℕ, ◌≡◌, refl, sym, ap, ◌∙◌, subst, Bool, true, false, Option, none, some, List, [], ◌∷◌, ◌++◌,
  if◌then◌else◌, Bool-cases, Option-cases, inl, inr,
}
use mathlib.Core.List.{Nodup-nil}
use skeyevss_backend_service.GoMap.{lookup, insert}
use skeyevss_backend_service.Text.{Text, text_comparable, text_beq, text_beq_iff}
use skeyevss_backend_service.Buffers.{
  Item, Buffers, item_or_new, add_decoded, add, set, is_empty, get_cached, get, remove, reset_item,
  reset, cleanup_loop, cleanup,
}
use skeyevss_backend_service.Buffers.Promise.{
  Op, adds, sets, gets, removes, resets, cleans, step, run, grown, grow, emptied, kept, spec_step,
  spec_run, given_step, given_run, if_decoded, served, handed_out, bytes_of, seen, IsCopy,
}
use skeyevss_backend_service.Buffers.Entries.{
  Holds, is_old, Holds-insert, Holds-delete, Holds-cleanup_loop, is_old-lookup,
}

own-IsCopy : (contents : Text) (cached : Option Text) → IsCopy contents cached cached
own-IsCopy contents none = refl
own-IsCopy contents (some copied) = refl

module _ (key : Text) where
  Holds-insert_to :
      (k : Text) (item : Item) (bm : Buffers) (c d : Option (Text × ℕ)) (g given : Option Text)
      → Holds key c g bm
      → (text_beq k key ≡ true → IsCopy item.contents given item.cached)
      → (text_beq k key ≡ true → some (item.contents, item.created_at) ≡ d)
      → Holds key
          (if text_beq k key then d else c)
          (if text_beq k key then given else g)
          (insert k item bm)
  Holds-insert_to k item bm c d g given h fresh eq =
      let inserted = Holds-insert key k item bm c g given h fresh in
      elim (Bool-cases (text_beq k key)) [
        | inl same ↦
            rw same
              (subst (λ x. Holds key x given (insert k item bm)) (eq same) (rw same at inserted))
        | inr other ↦ rw other (rw other at inserted)
      ]

  if_same {ℓ} : {B : Type ℓ} (b : Bool) (c : B) → (if b then c else c) ≡ c
  if_same true c = refl
  if_same false c = refl

  -- The entry of a key that is the key.
  seen_same :
      (k : Text) (bm : Buffers) (c : Option (Text × ℕ)) (g : Option Text)
      → Holds key c g bm
      → text_beq k key ≡ true
      → seen (lookup k bm) ≡ c
  seen_same k bm c g h same = ap (λ j. seen (lookup j bm)) ((text_beq_iff k key).0 same) ∙ h.1

  grown_item :
      (now : ℕ) (decoded : Text) (o : Option Item)
      → some ((item_or_new now o).contents ++ decoded, (item_or_new now o).created_at)
        ≡ some (grown now decoded (seen o))
  grown_item now decoded none = refl
  grown_item now decoded (some item) = refl

  Holds-add :
      (k : Text) (now : ℕ) (bm : Buffers) (c : Option (Text × ℕ)) (g decoded : Option Text)
      → Holds key c g bm
      → Holds key
          (if text_beq k key then grow now decoded c else c)
          (if text_beq k key then if_decoded decoded g else g)
          (add_decoded k now bm decoded).1
  Holds-add k now bm c g none h = elim (Bool-cases (text_beq k key)) [
    | inl same ↦ rw same h
    | inr other ↦ rw other h
  ]
  Holds-add k now bm c g (some decoded) h =
      let item = item_or_new now (lookup k bm) in
      Holds-insert_to k (record item { contents = item.contents ++ decoded; cached = none }) bm c
        (some (grown now decoded c)) g none h (λ same. refl)
        (λ same.
          grown_item now decoded (lookup k bm)
          ∙ ap (λ x. some (grown now decoded x)) (seen_same k bm c g h same))

  Holds-reset :
      (k : Text) (bm : Buffers) (c : Option (Text × ℕ)) (g : Option Text) (o : Option Item)
      → lookup k bm ≡ o
      → Holds key c g bm
      → Holds key
          (if text_beq k key then emptied c else c)
          (if text_beq k key then none else g)
          (reset_item k bm o)
  Holds-reset k bm c g none e h = elim (Bool-cases (text_beq k key)) [
    | inl same ↦
        let absent : lookup key bm ≡ none =
          ap (λ j. lookup j bm) (sym ((text_beq_iff k key).0 same)) ∙ e in
        let gone : none ≡ c = ap seen (sym e) ∙ seen_same k bm c g h same in
        rw same (h.0, ap seen absent ∙ ap emptied gone, rw absent tt)
    | inr other ↦ rw other h
  ]
  Holds-reset k bm c g (some item) e h =
      Holds-insert_to k (record item { contents = []; cached = none }) bm c (emptied c) g none h
        (λ same. refl) (λ same. ap emptied (ap seen (sym e) ∙ seen_same k bm c g h same))

  Holds-cached :
      (k : Text) (bm : Buffers) (c : Option (Text × ℕ)) (g : Option Text) (item : Item)
      (o : Option Text)
      → lookup k bm ≡ some item
      → item.cached ≡ o
      → Holds key c g bm
      → Holds key c g (get_cached k item bm o).1
  Holds-cached k bm c g item (some copied) e f h = h
  Holds-cached k bm c g item none e f h =
      let copied : Item = record item { cached = some item.contents } in
      let not_given : text_beq k key ≡ true → g ≡ none = λ same.
        let there : lookup key bm ≡ some item =
          ap (λ j. lookup j bm) (sym ((text_beq_iff k key).0 same)) ∙ e in
        let fresh : IsCopy item.contents g item.cached = rw there at h.2 in
        subst (λ x. IsCopy item.contents g x) f fresh in
      let inserted =
        Holds-insert_to k copied bm c c g g h
          (λ same. ap (served item.contents) (sym (not_given same)))
          (λ same. ap seen (sym e) ∙ seen_same k bm c g h same) in
      rw (if_same (text_beq k key) c, if_same (text_beq k key) g) at inserted

  Holds-get :
      (k : Text) (bm : Buffers) (c : Option (Text × ℕ)) (g : Option Text)
      → Holds key c g bm
      → Holds key c g (get k bm).1
  unfolding get
  Holds-get k bm c g h = elim (Option-cases (lookup k bm)) [
    | inl absent ↦ rw absent h
    | inr (item, e) ↦ elim (Bool-cases (is_empty item.contents)) [
      | inl no_bytes ↦ rw (e, no_bytes) h
      | inr some_bytes ↦ rw (e, some_bytes) (Holds-cached k bm c g item item.cached e refl h)
    ]
  ]

  Holds-step :
      (decode : Text → Option Text) (op : Op) (bm : Buffers) (c : Option (Text × ℕ))
      (g : Option Text)
      → Holds key c g bm
      → Holds key (spec_step decode key op c) (given_step decode key op g) (step decode op bm)
  unfolding add set remove reset cleanup
  Holds-step decode (adds k base64_data now) bm c g h =
      Holds-add k now bm c g (decode base64_data) h
  Holds-step decode (sets k item) bm c g h =
      Holds-insert key k item bm c g item.cached h (λ same. own-IsCopy item.contents item.cached)
  Holds-step decode (gets k) bm c g h = Holds-get k bm c g h
  Holds-step decode (removes k) bm c g h = Holds-delete key k bm c g h
  Holds-step decode (resets k) bm c g h = Holds-reset k bm c g (lookup k bm) refl h
  Holds-step decode (cleans max_age now) bm c g h =
      subst (λ d. Holds key d g (cleanup_loop max_age now bm (0, bm)).1)
        (ap (λ x. if is_old key max_age now bm then none else x) (sym h.1)
          ∙ is_old-lookup key max_age now bm h.0
          ∙ ap (kept max_age now) h.1)
        (Holds-cleanup_loop key max_age now 0 bm bm c g h)

  Holds-run :
      (decode : Text → Option Text) (ops : List Op) (bm : Buffers) (c : Option (Text × ℕ))
      (g : Option Text)
      → Holds key c g bm
      → Holds key (spec_run decode key ops c) (given_run decode key ops g) (run decode ops bm)
  Holds-run decode [] bm c g h = h
  Holds-run decode (op ∷ ops) bm c g h =
      Holds-run decode ops (step decode op bm) (spec_step decode key op c)
        (given_step decode key op g) (Holds-step decode op bm c g h)

  cached_lem :
      (bm : Buffers) (item : Item) (g o : Option Text)
      → IsCopy item.contents g o
      → item.cached ≡ o
      → bytes_of (get_cached key item bm o).0 ≡ some (served item.contents g)
  cached_lem bm item g none fresh e = ap (λ x. some (served item.contents x)) (sym fresh)
  cached_lem bm item g (some copied) fresh e = e ∙ ap some fresh

  get_lem :
      (bm : Buffers) (c : Option (Text × ℕ)) (g : Option Text)
      → Holds key c g bm
      → bytes_of (get key bm).0 ≡ handed_out c g
  unfolding get
  get_lem bm c g h = elim (Option-cases (lookup key bm)) [
    | inl absent ↦ rw (absent, ← h.1, absent) refl
    | inr (item, e) ↦
        let fresh : IsCopy item.contents g item.cached = rw e at h.2 in
        elim (Bool-cases (is_empty item.contents)) [
          | inl no_bytes ↦ rw (← h.1, e, no_bytes) refl
          | inr some_bytes ↦ rw (← h.1, e, some_bytes) (cached_lem bm item g item.cached fresh refl)
        ]
  ]

-- After any calls on new buffers Get hands out for a key without entry or contents nothing, and else
-- the copy that came with the item that was last set, if any, as long as no bytes were added and the
-- buffer was not reset since; in all other cases the bytes that were added or set since the buffer
-- was made, set, reset, removed or cleaned up, whatever calls to Get came before.
pub get-run :
    (decode : Text → Option Text) (ops : List Op) (key : Text)
    → bytes_of (get key (run decode ops [])).0
      ≡ handed_out (spec_run decode key ops none) (given_run decode key ops none)
unfolding lookup
get-run decode ops key =
    get_lem key (run decode ops []) (spec_run decode key ops none) (given_run decode key ops none)
      (Holds-run key decode ops [] none none (Nodup-nil, refl, tt))
