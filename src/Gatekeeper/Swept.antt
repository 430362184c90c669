-- ===== src/Gatekeeper/Swept.antt =====
-- What the clean-up deletes, and that a new id is new.
use skeyevss_backend_service.Prelude.{
  ℕ, zero, suc, ◌≡◌, ◌↔◌, ◌⊎◌, refl, sym, ap, ◌∙◌, subst, Bool, true, false, Option, some, List, [],
  ◌∷◌, map, Mem, Nodup, arith, Bool-cases, inl, inr,
}
use mathlib.Core.List.{
  mem-cons, mem-cons_of_mem, not-mem-nil, eq-or-mem_of_mem-cons, Nodup-cons, Mem-prop,
  mem-map_of_mem,
}
use mathlib.Core.Bool.{Bool-set}
use mathlib.Core.Logic.Or
use mathlib.Core.Option.{some-injective}
use skeyevss_backend_service.Text.{Text}
use skeyevss_backend_service.Crypto.{Cipher}
use skeyevss_backend_service.Gatekeeper.{Json, Gatekeeper, unique_ids_cache_key, decrypt_token}
use skeyevss_backend_service.Gatekeeper.Store.{Answer, found, missing, failed, Redis}
use skeyevss_backend_service.Gatekeeper.Sweep.{
  is_over, delete_ids, generate_unique_id, claim_id, client_id_loop, client_id,
}

module _ (c : Cipher) (j : Json) (r : Redis) where
  claimed :
      (id : Text) (again : Option Text × r.Db) (db : r.Db) (a : Answer Bool) (new_id : Text)
      → (claim_id c j r id again db a).0 ≡ some new_id
      → ((a ≡ found false) × (id ≡ new_id)) ⊎ ((a ≡ found true) × (again.0 ≡ some new_id))
  claimed id again db failed new_id h = ground arith
  claimed id again db missing new_id h = ground arith
  claimed id again db (found true) new_id h = inr (refl, h)
  claimed id again db (found false) new_id h = inl (refl, some-injective id new_id h)

  loop_fresh :
      (node : Text) (readings : ℕ → ℕ × ℕ) (counter tries : ℕ) (db : r.Db) (new_id : Text)
      → (client_id_loop c j r node readings counter tries db).0 ≡ some new_id
      → r.is_member unique_ids_cache_key new_id db ≡ found false
  loop_fresh node readings counter zero db new_id h = ground arith
  loop_fresh node readings counter (suc tries) db new_id h =
      let id = generate_unique_id node (readings counter).0 (readings counter).1 in
      let again = client_id_loop c j r node readings (suc counter) tries db in
      elim (claimed id again db (r.is_member unique_ids_cache_key id db) new_id h) [
        | inl (is_new, eq) ↦ ap (λ x. r.is_member unique_ids_cache_key x db) (sym eq) ∙ is_new
        | inr (is_old, rest) ↦ loop_fresh node readings (suc counter) tries db new_id rest
      ]

  -- An id that ClientID hands out was not one of the ids before.
  pub client_id-fresh :
      (node : Text) (readings : ℕ → ℕ × ℕ) (db : r.Db) (new_id : Text)
      → (client_id c j r node readings db).0 ≡ some new_id
      → r.is_member unique_ids_cache_key new_id db ≡ found false
  unfolding client_id
  client_id-fresh node readings db new_id h = loop_fresh node readings 0 100 db new_id h

  -- The ids to delete are among the keys.
  deleted_key :
      (l : Gatekeeper) (now : ℕ) (maps : List (Text × Text)) (key : Text)
      → Mem key (delete_ids c j r l now maps)
      → Mem key (map (λ p. p.0) maps)
  deleted_key l now [] key h = h
  deleted_key l now ((k, t) ∷ maps) key h =
      elim (Bool-cases (is_over c j r now (decrypt_token c j l t))) [
        | inl over ↦
            Or.elim Mem-prop (eq-or-mem_of_mem-cons (rw over at h))
              (λ here. mem-cons.1 (Or.inl here))
              (λ there. mem-cons_of_mem k (deleted_key l now maps key there))
        | inr lasting ↦ mem-cons_of_mem k (deleted_key l now maps key (rw lasting at h))
      ]

  deleted_over :
      (l : Gatekeeper) (now : ℕ) (maps : List (Text × Text)) (key token : Text)
      → Nodup (map (λ p. p.0) maps)
      → Mem (key, token) maps
      → Mem key (delete_ids c j r l now maps)
      → is_over c j r now (decrypt_token c j l token) ≡ true
  deleted_over l now [] key token distinct h gone = absurd (not-mem-nil h)
  deleted_over l now ((k, t) ∷ maps) key token distinct h gone =
      let absent = (Nodup-cons.0 distinct).0 in
      let ih = deleted_over l now maps key token (Nodup-cons.0 distinct).1 in
      Or.elim (Bool-set _ _) (eq-or-mem_of_mem-cons h)
        (λ here. elim (Bool-cases (is_over c j r now (decrypt_token c j l t))) [
          | inl over ↦ ap (λ p. is_over c j r now (decrypt_token c j l p.1)) here ∙ over
          | inr lasting ↦ absurd (
              absent (
                subst (λ x. Mem x (map (λ p. p.0) maps)) (ap (λ p. p.0) here)
                  (deleted_key l now maps key (rw lasting at gone))))
        ])
        (λ there. elim (Bool-cases (is_over c j r now (decrypt_token c j l t))) [
          | inl over ↦
              Or.elim (Bool-set _ _) (eq-or-mem_of_mem-cons (rw over at gone))
                (λ same. absurd (
                  absent (
                    subst (λ x. Mem x (map (λ p. p.0) maps)) same
                      (mem-map_of_mem (λ p. p.0) there))))
                (ih there)
          | inr lasting ↦ ih there (rw lasting at gone)
        ])

  over_deleted :
      (l : Gatekeeper) (now : ℕ) (maps : List (Text × Text)) (key token : Text)
      → Mem (key, token) maps
      → is_over c j r now (decrypt_token c j l token) ≡ true
      → Mem key (delete_ids c j r l now maps)
  over_deleted l now [] key token h over = absurd (not-mem-nil h)
  over_deleted l now ((k, t) ∷ maps) key token h over =
      Or.elim Mem-prop (eq-or-mem_of_mem-cons h)
        (λ here.
          rw (ap (λ p. is_over c j r now (decrypt_token c j l p.1)) (sym here) ∙ over)
            (mem-cons.1 (Or.inl (ap (λ p. p.0) here))))
        (λ there.
          let ih = over_deleted l now maps key token there over in
          elim (Bool-cases (is_over c j r now (decrypt_token c j l t))) [
            | inl first ↦ rw first (mem-cons_of_mem k ih)
            | inr lasting ↦ rw lasting ih
          ])

  -- Of a map with distinct ids a pass over the tokens deletes an id exactly when its token cannot be
  -- read or is over.
  pub delete_ids_iff :
      (l : Gatekeeper) (now : ℕ) (maps : List (Text × Text)) (key token : Text)
      → Nodup (map (λ p. p.0) maps)
      → Mem (key, token) maps
      → Mem key (delete_ids c j r l now maps)
        ↔ (is_over c j r now (decrypt_token c j l token) ≡ true)
  delete_ids_iff l now maps key token distinct h =
      (deleted_over l now maps key token distinct h, over_deleted l now maps key token h)
