-- ===== src/Gatekeeper/Guarding.antt =====
-- Who gets past Guard.
use skeyevss_backend_service.Prelude.{
  ◌≤◌, ◌≡◌, refl, ◌∙◌, Bool, true, false, Option, none, some, List, ltb, ℤ, arith, Bool-cases, inl,
  inr,
}
use skeyevss_backend_service.Text.{Text, text_beq_iff}
use skeyevss_backend_service.Crypto.{Cipher}
use skeyevss_backend_service.Gatekeeper.{
  CacheItem, Json, Gatekeeper, id_cache_key, is_empty, decrypt_token,
}
use skeyevss_backend_service.Gatekeeper.Store.{Answer, found, missing, failed, Redis}
use skeyevss_backend_service.Gatekeeper.Access.{
  Listing, listed, not_listed, listing_failed, Rate, counted, rate_failed, Task, Reply, passed,
  Times, is_blacklisted, rate_limit, check_expiry, check_token, check_rate, check_listing,
  guard_item, guard,
}

-- A listing that lets a request through, and a count that does.
abbrev pub IsUnlisted : Listing → Type 0
IsUnlisted (listed entry) = ⊥
IsUnlisted not_listed = Unit
IsUnlisted listing_failed = Unit

abbrev pub IsWithin : Rate → Type 0
IsWithin (counted true n) = Unit
IsWithin (counted false n) = ⊥
IsWithin rate_failed = Unit

module _ (c : Cipher) (j : Json) (r : Redis) where
  -- What a token and its item have when the token gets through.
  abbrev pub IsAdmitted : Gatekeeper → Text → Times → r.Db → CacheItem → Type 0
  IsAdmitted l token times db item =
      (decrypt_token c j l token ≡ some item)
      × IsUnlisted (is_blacklisted c j r item.id times.listing_now db).0
      × IsWithin (rate_limit c j r l item.id times.rate_now db).0
      × (r.hget id_cache_key item.id (rate_limit c j r l item.id times.rate_now db).1 ≡ found token)
      × times.guard_now ≤ item.expire

  check_expiry-passed :
      (l : Gatekeeper) (item : CacheItem) (busy : Bool) (times : Times) (db : r.Db) (t : Text)
      → (check_expiry c j r l item busy times db).0 ≡ passed t
      → times.guard_now ≤ item.expire
  unfolding check_expiry
  check_expiry-passed l item busy times db t h =
      elim (Bool-cases (ltb item.expire times.guard_now)) [
        | inl is_over ↦ ground arith
        | inr in_time ↦ ground arith
      ]

  check_token-passed :
      (l : Gatekeeper) (token : Text) (item : CacheItem) (busy : Bool) (times : Times) (db : r.Db)
      (a : Answer Text) (t : Text)
      → (check_token c j r l token item busy times db a).0 ≡ passed t
      → (a ≡ found token) × times.guard_now ≤ item.expire
  check_token-passed l token item busy times db missing t h = ground arith
  check_token-passed l token item busy times db failed t h = ground arith
  check_token-passed l token item busy times db (found cache_token) t h =
      ground (arith, text_beq_iff token cache_token, check_expiry-passed l item busy times db t)

  check_rate-passed :
      (parse_int : Text → ℤ) (l : Gatekeeper) (token : Text) (item : CacheItem) (busy : Bool)
      (times : Times) (a : Rate × r.Db) (t : Text)
      → (check_rate c j r parse_int l token item busy times a).0 ≡ passed t
      → IsWithin a.0
        × (r.hget id_cache_key item.id a.1 ≡ found token)
        × times.guard_now ≤ item.expire
  check_rate-passed parse_int l token item busy times (counted false n, db) t h = ground arith
  check_rate-passed parse_int l token item busy times (counted true n, db) t h =
      let stored =
        check_token-passed l token item busy times db (r.hget id_cache_key item.id db) t h in
      (tt, stored.0, stored.1)
  check_rate-passed parse_int l token item busy times (rate_failed, db) t h =
      let stored =
        check_token-passed l token item busy times db (r.hget id_cache_key item.id db) t h in
      (tt, stored.0, stored.1)

  check_listing-passed :
      (parse_int : Text → ℤ) (l : Gatekeeper) (token : Text) (item : CacheItem) (busy : Bool)
      (times : Times) (db : r.Db) (a : Listing × List Task) (t : Text)
      → (check_listing c j r parse_int l token item busy times db a).0 ≡ passed t
      → IsUnlisted a.0
        × ((check_rate c j r parse_int l token item busy times
              (rate_limit c j r l item.id times.rate_now db)).0
            ≡ passed t)
  check_listing-passed parse_int l token item busy times db (listed entry, tasks) t h = ground arith
  check_listing-passed parse_int l token item busy times db (not_listed, tasks) t h = (tt, h)
  check_listing-passed parse_int l token item busy times db (listing_failed, tasks) t h = (tt, h)

  guard_item-passed :
      (parse_int : Text → ℤ) (l : Gatekeeper) (token : Text) (busy : Bool) (times : Times)
      (db : r.Db) (a : Option CacheItem) (t : Text)
      → decrypt_token c j l token ≡ a
      → (guard_item c j r parse_int l token busy times db a).0 ≡ passed t
      → (item : CacheItem) × IsAdmitted l token times db item
  guard_item-passed parse_int l token busy times db none t eq h = ground arith
  guard_item-passed parse_int l token busy times db (some item) t eq h =
      let rate = rate_limit c j r l item.id times.rate_now db in
      let listing = is_blacklisted c j r item.id times.listing_now db in
      let unlisted = check_listing-passed parse_int l token item busy times db listing t h in
      let within = check_rate-passed parse_int l token item busy times rate t unlisted.1 in
      (item, (eq, unlisted.0, within.0, within.1, within.2))

  -- What Guard lets through is a token that is stored under its id as the last one, whose time is
  -- not over, whose id is not found on the blacklist, and whose second has not had too many
  -- requests; an error of the blacklist or of the limit lets it through as well.
  pub guard_sound :
      (parse_int : Text → ℤ) (l : Gatekeeper) (token : Text) (busy : Bool) (times : Times)
      (db : r.Db) (t : Text)
      → (guard c j r parse_int l token busy times db).0 ≡ passed t
      → (item : CacheItem) × IsAdmitted l token times db item
  unfolding guard
  guard_sound parse_int l token busy times db t h = elim (Bool-cases (is_empty token)) [
    | inl no_token ↦ ground arith
    | inr some_token ↦
        guard_item-passed parse_int l token busy times db (decrypt_token c j l token) t refl
          (ground arith)
  ]

  -- The answer of Guard to a token that is let through.
  abbrev pub answer : Gatekeeper → CacheItem → Bool → Times → r.Db → Reply
  answer l item busy times db =
      (check_expiry c j r l item busy times (rate_limit c j r l item.id times.rate_now db).1).0

  check_rate-within :
      (parse_int : Text → ℤ) (l : Gatekeeper) (token : Text) (item : CacheItem) (busy : Bool)
      (times : Times) (a : Rate × r.Db)
      → IsWithin a.0
      → r.hget id_cache_key item.id a.1 ≡ found token
      → (check_rate c j r parse_int l token item busy times a).0
        ≡ (check_expiry c j r l item busy times a.1).0
  check_rate-within parse_int l token item busy times (counted false n, db) within stored =
      elim within [ ]
  check_rate-within parse_int l token item busy times (counted true n, db) within stored =
      rw stored (rw ((text_beq_iff token token).1 refl) refl)
  check_rate-within parse_int l token item busy times (rate_failed, db) within stored =
      rw stored (rw ((text_beq_iff token token).1 refl) refl)

  check_listing-unlisted :
      (parse_int : Text → ℤ) (l : Gatekeeper) (token : Text) (item : CacheItem) (busy : Bool)
      (times : Times) (db : r.Db) (a : Listing × List Task)
      → IsUnlisted a.0
      → (check_listing c j r parse_int l token item busy times db a).0
        ≡ (check_rate c j r parse_int l token item busy times
            (rate_limit c j r l item.id times.rate_now db)).0
  check_listing-unlisted parse_int l token item busy times db (listed entry, tasks) unlisted =
      elim unlisted [ ]
  check_listing-unlisted parse_int l token item busy times db (not_listed, tasks) unlisted = refl
  check_listing-unlisted parse_int l token item busy times db (listing_failed, tasks) unlisted =
      refl

  pub guard-admitted :
      (parse_int : Text → ℤ) (l : Gatekeeper) (token : Text) (item : CacheItem) (busy : Bool)
      (times : Times) (db : r.Db)
      → is_empty token ≡ false
      → IsAdmitted l token times db item
      → (guard c j r parse_int l token busy times db).0 ≡ answer l item busy times db
  unfolding guard
  guard-admitted parse_int l token item busy times db not_empty h =
      let listing = is_blacklisted c j r item.id times.listing_now db in
      let rate = rate_limit c j r l item.id times.rate_now db in
      rw not_empty (
        rw h.0 (
          check_listing-unlisted parse_int l token item busy times db listing h.1
          ∙ check_rate-within parse_int l token item busy times rate h.2 h.3))
