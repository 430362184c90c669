-- ===== src/Gatekeeper/Renewal.antt =====
-- A token that Credential made gets past Guard, and is renewed in the second half of its time.
use skeyevss_backend_service.Prelude.{
  ℕ, ◌+◌, ◌-◌, ◌/◌, ◌%◌, ◌^◌, ◌≤◌, ◌<◌, ◌≡◌, refl, ap, ◌∙◌, Bool, true, false, some, [],
  if◌then◌else◌, ltb, ℤ, arith, Bool-cases, inl, inr,
}
use skeyevss_backend_service.Text.{Text}
use skeyevss_backend_service.XMap.{returned}
use skeyevss_backend_service.Crypto.{Cipher}
use skeyevss_backend_service.Gatekeeper.{CacheItem, Json, Gatekeeper, id_cache_key, is_empty}
use skeyevss_backend_service.Gatekeeper.Token.{token_of, token_not_empty, decrypt-encryption}
use skeyevss_backend_service.Gatekeeper.Guarding.{IsUnlisted, IsWithin, guard-admitted}
use skeyevss_backend_service.Gatekeeper.Store.{found, Redis}
use skeyevss_backend_service.Gatekeeper.Access.{
  passed, Times, is_blacklisted, rate_limit, credential, saved, renewal, check_expiry, guard,
}

in_time_lem : (m n : ℕ) → n ≤ m → ltb m n ≡ false
in_time_lem m n is_le = ground arith

module _ (c : Cipher) (j : Json) (r : Redis) where
  -- A token that Credential makes.
  abbrev pub fresh_item : Gatekeeper → Text → ℕ → CacheItem
  fresh_item l id now = record { id = id; expire = (now + l.expire) % 2 ^ 64 }

  abbrev pub fresh_token : Gatekeeper → Text → ℕ → Text
  fresh_token l id now = token_of c j l (fresh_item l id now)

  -- The new token that Guard hands out: none when the lock is held or the token cannot be stored.
  abbrev pub renewed_token : Gatekeeper → Text → Bool → ℕ → r.Db → Text
  renewed_token l id busy now db =
      if busy
      then []
      else if (r.hset id_cache_key id (fresh_token l id now) db).0
      then fresh_token l id now
      else []

  saved_cases :
      (token : Text) (a : Bool × r.Db)
      → (renewal c j r (saved c j r token a)).0 ≡ passed (if a.0 then token else [])
  saved_cases token (true, db) = refl
  saved_cases token (false, db) = refl

  saved_first :
      (token : Text) (a : Bool × r.Db)
      → a.0 ≡ true
      → (saved c j r token a).0 ≡ returned (some token)
  saved_first token (true, db) h = refl
  saved_first token (false, db) h = ground arith

  credential_saves :
      (l : Gatekeeper) (id : Text) (now : ℕ) (db : r.Db)
      → c.valid_key l.key ≡ true
      → j.is_json_text id ≡ true
      → is_empty id ≡ false
      → credential c j r l id false now db
        ≡ saved c j r (fresh_token l id now) (r.hset id_cache_key id (fresh_token l id now) db)
  unfolding credential
  credential_saves l id now db is_valid is_text not_empty =
      rw not_empty
        (rw (decrypt-encryption c j l (fresh_item l id now) is_valid is_text not_empty).0 refl)

  renewal_lem :
      (l : Gatekeeper) (id : Text) (busy : Bool) (now : ℕ) (db : r.Db)
      → c.valid_key l.key ≡ true
      → j.is_json_text id ≡ true
      → is_empty id ≡ false
      → (renewal c j r (credential c j r l id busy now db)).0
        ≡ passed (renewed_token l id busy now db)
  unfolding credential
  renewal_lem l id true now db is_valid is_text not_empty = rw not_empty refl
  renewal_lem l id false now db is_valid is_text not_empty =
      ap (λ a. (renewal c j r a).0) (credential_saves l id now db is_valid is_text not_empty)
      ∙ saved_cases (fresh_token l id now) (r.hset id_cache_key id (fresh_token l id now) db)

  -- Whether less than half of the time is left.
  abbrev pub is_ending : Gatekeeper → CacheItem → Times → Bool
  is_ending l item times = ltb (item.expire - times.guard_now) (l.expire / 2)

  answer-in_time :
      (l : Gatekeeper) (item : CacheItem) (busy : Bool) (times : Times) (db : r.Db)
      → c.valid_key l.key ≡ true
      → j.is_json_text item.id ≡ true
      → is_empty item.id ≡ false
      → times.guard_now ≤ item.expire
      → (check_expiry c j r l item busy times db).0
        ≡ passed (
            if is_ending l item times
            then renewed_token l item.id busy times.credential_now db
            else [])
  unfolding check_expiry
  answer-in_time l item busy times db is_valid is_text not_empty in_time =
      let eq = renewal_lem l item.id busy times.credential_now db is_valid is_text not_empty in
      rw (in_time_lem item.expire times.guard_now in_time)
        (elim (Bool-cases (is_ending l item times)) [
          | inl ending ↦ rw ending eq
          | inr lasting ↦ rw lasting refl
        ])

  -- With a key of a valid length, an id that is a text of JSON and not empty, a time that fits in 64
  -- bits and the lock free, Credential hands out a token once it is stored; and Guard, as long as its
  -- time is not over, lets it through when it is still the stored one, its id is not on the blacklist
  -- and its second has not had too many requests, with a new token when less than half of the time is
  -- left.
  pub credential-guard :
      (parse_int : Text → ℤ) (l : Gatekeeper) (id : Text) (now : ℕ) (db : r.Db) (busy : Bool)
      (times : Times) (later : r.Db)
      → c.valid_key l.key ≡ true
      → j.is_json_text id ≡ true
      → is_empty id ≡ false
      → now + l.expire < 2 ^ 64
      → (r.hset id_cache_key id (fresh_token l id now) db).0 ≡ true
      → IsUnlisted (is_blacklisted c j r id times.listing_now later).0
      → IsWithin (rate_limit c j r l id times.rate_now later).0
      → r.hget id_cache_key id (rate_limit c j r l id times.rate_now later).1
        ≡ found (fresh_token l id now)
      → times.guard_now ≤ now + l.expire
      → ((credential c j r l id false now db).0 ≡ returned (some (fresh_token l id now)))
        × ((guard c j r parse_int l (fresh_token l id now) busy times later).0
            ≡ passed (
                if is_ending l (fresh_item l id now) times
                then renewed_token l id busy times.credential_now
                    (rate_limit c j r l id times.rate_now later).1
                else []))
  credential-guard parse_int l id now db busy times later is_valid is_text not_empty fits stored
        unlisted within kept in_time =
      let item = fresh_item l id now in
      let expiry : times.guard_now ≤ (now + l.expire) % 2 ^ 64 = omega (arith, fits, in_time) in
      (
        ap (λ a. a.0) (credential_saves l id now db is_valid is_text not_empty)
            ∙ saved_first (fresh_token l id now) (r.hset id_cache_key id (fresh_token l id now) db)
                stored,
        guard-admitted c j r parse_int l (fresh_token l id now) item busy times later
              (token_not_empty c j l item)
              (
                (decrypt-encryption c j l item is_valid is_text not_empty).1,
                unlisted,
                within,
                kept,
                expiry,
              )
            ∙ answer-in_time l item busy times (rate_limit c j r l id times.rate_now later).1
                is_valid is_text not_empty expiry,
      )
