-- ===== src/Gatekeeper/Sweep.antt =====
-- core/pkg/gatekeeper/gatekeeper.go: the clean-up of old tokens and listings, and new ids.
use skeyevss_backend_service.Prelude.{
  ℕ, zero, suc, ◌+◌, ◌/◌, ◌%◌, Bool, true, false, Option, none, some, List, [], ◌∷◌, ◌++◌,
  if◌then◌else◌, ltb, take, length,
}
use skeyevss_backend_service.Arrays.{arr_unique}
use skeyevss_backend_service.Text.{Text, bytes, decimal, text_comparable}
use skeyevss_backend_service.Crypto.{Cipher}
use skeyevss_backend_service.Gatekeeper.{
  CacheItem, BlacklistItem, Json, Gatekeeper, id_cache_key, unique_ids_cache_key, decrypt_token,
}
use skeyevss_backend_service.Gatekeeper.Store.{Answer, found, missing, failed, Redis}
use skeyevss_backend_service.Gatekeeper.Access.{
  Task, remove_listing, clean_up_token, remove_from_blacklist,
}

-- A digit of `%x` and of strconv.FormatInt.
abbrev pub digit : ℕ → ℕ
digit d = if ltb d 10 then 48 + d else 87 + d

-- strconv.FormatInt of a natural number, with fuel.
abbrev pub print_base : ℕ → ℕ → ℕ → Text
print_base base zero n = []
print_base base (suc fuel) n =
    let front = print_base base fuel (n / base) in
    if ltb n base then digit n ∷ [] else front ++ digit (n % base) ∷ []

-- `%x` of a string.
abbrev pub hex : Text → Text
hex [] = []
hex (b ∷ s) = digit (b / 16) ∷ digit (b % 16) ∷ hex s

-- generateUniqueID, with its two readings of the clock in nanoseconds.
unfoldable pub generate_unique_id : Text → ℕ → ℕ → Text
generate_unique_id node first second =
    let node_hash = if ltb 8 (length (hex node)) then take 8 (hex node) else hex node in
    print_base 36 13 first ++ b'_' ∷ node_hash ++ b'_' ∷ decimal second

module _ (c : Cipher) (j : Json) (r : Redis) where
  -- Whether an entry of the tokens is to be deleted.
  abbrev pub is_over : ℕ → Option CacheItem → Bool
  is_over now none = true
  is_over now (some item) = ltb item.expire now

  -- The ids that a pass over the tokens deletes.
  abbrev pub delete_ids : Gatekeeper → ℕ → List (Text × Text) → List Text
  delete_ids l now [] = []
  delete_ids l now ((key, item) ∷ maps) =
      if is_over now (decrypt_token c j l item)
      then key ∷ delete_ids l now maps
      else delete_ids l now maps

  abbrev pub delete_all : List Text → r.Db → r.Db
  delete_all [] db = db
  delete_all (id ∷ ids) db =
      let unique_ids = arr_unique (id ∷ ids) in
      (r.srem unique_ids_cache_key unique_ids (r.hdel id_cache_key unique_ids db).1).1

  abbrev pub clear_entries : Gatekeeper → ℕ → r.Db → Answer (List (Text × Text)) → r.Db
  clear_entries l now db failed = db
  clear_entries l now db missing = db
  clear_entries l now db (found maps) = delete_all (delete_ids l now maps) db

  -- doClearExpireToken
  unfoldable pub do_clear_expire_token : Gatekeeper → Bool → ℕ → r.Db → r.Db
  do_clear_expire_token l busy now db =
      if busy then db else clear_entries l now db (r.hget_all id_cache_key db)

  abbrev pub is_stale : ℕ → Option BlacklistItem → Bool
  is_stale now none = true
  is_stale now (some item) = ltb item.expire now

  abbrev pub stale_key : Text → ℕ → Answer Text → List Text
  stale_key key now failed = []
  stale_key key now missing = []
  stale_key key now (found json) =
      if is_stale now (j.unmarshal_blacklist json) then key ∷ [] else []

  abbrev pub delete_keys : ℕ → r.Db → List Text → List Text
  delete_keys now db [] = []
  delete_keys now db (key ∷ keys) = stale_key key now (r.get key db) ++ delete_keys now db keys

  abbrev pub delete_listings : List Text → r.Db → r.Db
  delete_listings [] db = db
  delete_listings (key ∷ keys) db = (r.del (key ∷ keys) db).1

  abbrev pub clear_listings : ℕ → r.Db → Answer (List Text) → r.Db
  clear_listings now db failed = db
  clear_listings now db missing = db
  clear_listings now db (found keys) = delete_listings (delete_keys now db keys) db

  -- cleanupExpiredBlacklist
  pub cleanup_expired_blacklist : ℕ → r.Db → r.Db
  cleanup_expired_blacklist now db =
      clear_listings now db (r.keys (bytes "gatekeeper:blacklist:*") db)

  -- A tick of startCleanupRoutine.
  pub cleanup_routine : Gatekeeper → Bool → ℕ → ℕ → r.Db → r.Db
  cleanup_routine l busy t now db =
      cleanup_expired_blacklist now (do_clear_expire_token l busy t db)

  abbrev pub drop_item : Text → ℕ → r.Db → Option CacheItem → r.Db
  drop_item id now db none = db
  drop_item id now db (some item) =
      if ltb item.expire now
      then (r.srem unique_ids_cache_key (id ∷ []) (r.hdel id_cache_key (id ∷ []) db).1).1
      else db

  abbrev pub drop_token : Gatekeeper → Text → ℕ → r.Db → Answer Text → r.Db
  drop_token l id now db failed = db
  drop_token l id now db missing = db
  drop_token l id now db (found cache_token) = drop_item id now db (decrypt_token c j l cache_token)

  -- cleanupExpiredToken
  pub cleanup_expired_token : Gatekeeper → Text → Bool → ℕ → r.Db → r.Db
  cleanup_expired_token l id busy now db =
      if busy then db else drop_token l id now db (r.hget id_cache_key id db)

  -- A goroutine that IsBlacklisted or Guard started.
  abbrev pub run_task : Gatekeeper → Bool → ℕ → Task → r.Db → r.Db
  run_task l busy now (remove_listing id) db = (remove_from_blacklist c j r id db).1
  run_task l busy now (clean_up_token id) db = cleanup_expired_token l id busy now db

  abbrev pub claim_id : Text → Option Text × r.Db → r.Db → Answer Bool → Option Text × r.Db
  claim_id id again db failed = (none, db)
  claim_id id again db missing = (none, db)
  claim_id id again db (found true) = again
  claim_id id again db (found false) = (some id, (r.sadd unique_ids_cache_key id db).1)

  -- clientID, for the tries that are left; `readings` are those of the clock in each try. `none` is
  -- an error.
  abbrev pub client_id_loop : Text → (ℕ → ℕ × ℕ) → ℕ → ℕ → r.Db → Option Text × r.Db
  client_id_loop node readings counter zero db = (none, db)
  client_id_loop node readings counter (suc tries) db =
      let id = generate_unique_id node (readings counter).0 (readings counter).1 in
      let again = client_id_loop node readings (suc counter) tries db in
      claim_id id again db (r.is_member unique_ids_cache_key id db)

  -- ClientID, with maxRetryCount tries.
  unfoldable pub client_id : Text → (ℕ → ℕ × ℕ) → r.Db → Option Text × r.Db
  client_id node readings db = client_id_loop node readings 0 100 db
