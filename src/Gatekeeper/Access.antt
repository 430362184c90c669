-- ===== src/Gatekeeper/Access.antt =====
-- core/pkg/gatekeeper/gatekeeper.go: the operations of the gatekeeper, but for the clean-up. Each
-- reading of the clock is an argument, in milliseconds, and so is whether the lock of the clean-up
-- is held by another goroutine.
use skeyevss_backend_service.Prelude.{
  ℕ, ◌+◌, ◌-◌, ◌/◌, ◌%◌, ◌^◌, Bool, true, false, not, Option, none, some, List, [], ◌∷◌, ◌++◌,
  if◌then◌else◌, nat_beq, ltb, ℤ, pos,
}
use skeyevss_backend_service.Text.{Text, bytes, text_beq, decimal}
use skeyevss_backend_service.XMap.{Outcome, returned, panicked}
use skeyevss_backend_service.Crypto.{Cipher}
use skeyevss_backend_service.Gatekeeper.{
  CacheItem, BlacklistItem, Json, Gatekeeper, id_cache_key, is_empty, encryption, decrypt_token,
}
use skeyevss_backend_service.Gatekeeper.Store.{Answer, found, missing, failed, Redis}

abbrev pub blacklist_key : Text → Text
blacklist_key id = bytes "gatekeeper:blacklist:" ++ id

-- The counter of an id in the second of a time.
abbrev pub rate_limit_key : Text → ℕ → Text
rate_limit_key id now = bytes "gatekeeper:ratelimit:" ++ id ++ b':' ∷ decimal (now / 1000)

-- What IsBlacklisted answers.
pub data Listing : Type 0 where
  listed : BlacklistItem → Listing
  not_listed : Listing
  listing_failed : Listing

-- What RateLimit answers: whether the request is allowed, and the count of requests.
pub data Rate : Type 0 where
  counted : Bool → ℕ → Rate
  rate_failed : Rate

-- Goroutines that are started, to run later.
pub data Task : Type 0 where
  remove_listing : Text → Task
  clean_up_token : Text → Task

pub data Refusal : Type 0 where
  empty_token : Refusal
  decrypt_error : Refusal
  denied : BlacklistItem → Refusal
  rate_exceeded : ℕ → ℕ → Option ℕ → Refusal
  credential_not_found : Refusal
  redis_error : Refusal
  invalid_token : Refusal
  token_expired : Refusal

-- What Guard answers: a new token, which is empty when there is none, or an error; or it panics.
pub data Reply : Type 0 where
  passed : Text → Reply
  refused : Refusal → Reply
  crashed : Reply

-- The readings of the clock of a call of Guard.
pub record Times : Type 0 where
  pub listing_now : ℕ
  pub rate_now : ℕ
  pub status_now : ℕ
  pub guard_now : ℕ
  pub credential_now : ℕ

module _ (c : Cipher) (j : Json) (r : Redis) where
  abbrev pub store_listing : Text → ℕ → r.Db → Option Text → Bool × r.Db
  store_listing id duration db none = (false, db)
  store_listing id duration db (some json) = r.set (blacklist_key id) json duration db

  -- AddToBlacklist; the duration in milliseconds.
  pub add_to_blacklist : Text → Text → ℕ → ℕ → ℕ → r.Db → Bool × r.Db
  add_to_blacklist id reason duration now created_at db =
      let item : BlacklistItem = record {
        id = id;
        reason = reason;
        expire = (now + duration) % 2 ^ 64;
        created_at = created_at % 2 ^ 64;
      } in
      if is_empty id then (false, db) else store_listing id duration db (j.marshal_blacklist item)

  -- RemoveFromBlacklist
  pub remove_from_blacklist : Text → r.Db → Bool × r.Db
  remove_from_blacklist id db =
      if is_empty id then (false, db) else r.del (blacklist_key id ∷ []) db

  abbrev pub read_listing : Text → ℕ → Option BlacklistItem → Listing × List Task
  read_listing id now none = (listing_failed, [])
  read_listing id now (some item) =
      if ltb item.expire now then (not_listed, remove_listing id ∷ []) else (listed item, [])

  abbrev pub listing_of : Text → ℕ → Answer Text → Listing × List Task
  listing_of id now missing = (not_listed, [])
  listing_of id now failed = (listing_failed, [])
  listing_of id now (found json) = read_listing id now (j.unmarshal_blacklist json)

  -- IsBlacklisted
  unfoldable pub is_blacklisted : Text → ℕ → r.Db → Listing × List Task
  is_blacklisted id now db =
      if is_empty id then (listing_failed, []) else listing_of id now (r.get (blacklist_key id) db)

  abbrev pub limited : ℕ → Text → ℕ × r.Db → Rate × r.Db
  limited limit key counting = (
    counted (not (ltb limit counting.0)) counting.0,
    if nat_beq counting.0 1 then r.expire_in key 1 counting.1 else counting.1,
  )

  -- RateLimit, with its script.
  unfoldable pub rate_limit : Gatekeeper → Text → ℕ → r.Db → Rate × r.Db
  rate_limit l id now db =
      let key = rate_limit_key id now in
      if is_empty id
      then (rate_failed, db)
      else if not (r.evaluates db)
      then (rate_failed, db)
      else limited l.rate_limit key (r.incr key db)

  abbrev pub status_of : (Text → ℤ) → ℕ → ℕ → Answer Text → Option (ℤ × ℕ × ℕ)
  status_of parse_int limit now missing = some (pos 0, limit, now / 1000 + 1)
  status_of parse_int limit now failed = none
  status_of parse_int limit now (found text) = some (parse_int text, limit, now / 1000 + 1)

  -- GetRateLimitStatus: the count, the limit and the second of the reset; strconv.ParseInt, whose
  -- error is dropped, is a parameter.
  pub get_rate_limit_status : (Text → ℤ) → Gatekeeper → Text → ℕ → r.Db → Option (ℤ × ℕ × ℕ)
  get_rate_limit_status parse_int l id now db =
      if is_empty id
      then none
      else status_of parse_int l.rate_limit now (r.get (rate_limit_key id now) db)

  abbrev pub saved : Text → Bool × r.Db → Outcome (Option Text) × r.Db
  saved token (false, db) = (returned none, db)
  saved token (true, db) = (returned (some token), db)

  abbrev pub save_token : Text → r.Db → Outcome (Option Text) → Outcome (Option Text) × r.Db
  save_token id db panicked = (panicked, db)
  save_token id db (returned none) = (returned none, db)
  save_token id db (returned (some token)) = saved token (r.hset id_cache_key id token db)

  -- Credential; `none` is an error.
  unfoldable pub credential : Gatekeeper → Text → Bool → ℕ → r.Db → Outcome (Option Text) × r.Db
  credential l id busy now db =
      let item : CacheItem = record { id = id; expire = (now + l.expire) % 2 ^ 64 } in
      if is_empty id
      then (returned none, db)
      else if busy
      then (returned none, db)
      else save_token id db (encryption c j l item)

  -- An error of the renewal is dropped.
  abbrev pub renewal : Outcome (Option Text) × r.Db → Reply × List Task × r.Db
  renewal (panicked, db) = (crashed, [], db)
  renewal (returned none, db) = (passed [], [], db)
  renewal (returned (some token), db) = (passed token, [], db)

  -- The end of Guard, from the reading of its clock.
  unfoldable pub check_expiry :
      Gatekeeper → CacheItem → Bool → Times → r.Db → Reply × List Task × r.Db
  check_expiry l item busy times db =
      let remaining_time = item.expire - times.guard_now in
      if ltb item.expire times.guard_now
      then (refused token_expired, clean_up_token item.id ∷ [], db)
      else if ltb remaining_time (l.expire / 2)
      then renewal (credential l item.id busy times.credential_now db)
      else (passed [], [], db)

  abbrev pub check_token :
      Gatekeeper → Text → CacheItem → Bool → Times → r.Db → Answer Text → Reply × List Task × r.Db
  check_token l token item busy times db missing = (refused credential_not_found, [], db)
  check_token l token item busy times db failed = (refused redis_error, [], db)
  check_token l token item busy times db (found cache_token) =
      if not (text_beq token cache_token)
      then (refused invalid_token, [], db)
      else check_expiry l item busy times db

  abbrev pub reset_time : Option (ℤ × ℕ × ℕ) → Option ℕ
  reset_time none = none
  reset_time (some (current, limit, reset)) = some reset

  -- An error of the limit lets the request through.
  abbrev pub check_rate :
      (Text → ℤ)
      → Gatekeeper
      → Text
      → CacheItem
      → Bool
      → Times
      → Rate × r.Db
      → Reply × List Task × r.Db
  check_rate parse_int l token item busy times (counted false current, db) = (
    refused (
        rate_exceeded current l.rate_limit
          (reset_time (get_rate_limit_status parse_int l item.id times.status_now db))),
    [],
    db,
  )
  check_rate parse_int l token item busy times (counted true current, db) =
      check_token l token item busy times db (r.hget id_cache_key item.id db)
  check_rate parse_int l token item busy times (rate_failed, db) =
      check_token l token item busy times db (r.hget id_cache_key item.id db)

  abbrev pub also : List Task → Reply × List Task × r.Db → Reply × List Task × r.Db
  also tasks (reply, more, db) = (reply, tasks ++ more, db)

  -- An error of the blacklist lets the request through.
  abbrev pub check_listing :
      (Text → ℤ)
      → Gatekeeper
      → Text
      → CacheItem
      → Bool
      → Times
      → r.Db
      → Listing × List Task
      → Reply × List Task × r.Db
  check_listing parse_int l token item busy times db (listed entry, tasks) =
      (refused (denied entry), tasks, db)
  check_listing parse_int l token item busy times db (not_listed, tasks) =
      also tasks
        (check_rate parse_int l token item busy times (rate_limit l item.id times.rate_now db))
  check_listing parse_int l token item busy times db (listing_failed, tasks) =
      also tasks
        (check_rate parse_int l token item busy times (rate_limit l item.id times.rate_now db))

  abbrev pub guard_item :
      (Text → ℤ)
      → Gatekeeper
      → Text
      → Bool
      → Times
      → r.Db
      → Option CacheItem
      → Reply × List Task × r.Db
  guard_item parse_int l token busy times db none = (refused decrypt_error, [], db)
  guard_item parse_int l token busy times db (some item) =
      check_listing parse_int l token item busy times db
        (is_blacklisted item.id times.listing_now db)

  -- Guard
  unfoldable pub guard :
      (Text → ℤ) → Gatekeeper → Text → Bool → Times → r.Db → Reply × List Task × r.Db
  guard parse_int l token busy times db =
      if is_empty token
      then (refused empty_token, [], db)
      else guard_item parse_int l token busy times db (decrypt_token c j l token)
