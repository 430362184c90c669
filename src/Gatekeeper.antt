-- ===== src/Gatekeeper.antt =====
-- core/pkg/gatekeeper: tokens of clients, with a blacklist and a rate limit. This file has the
-- tokens; Store the calls of Redis, Access the operations, and Sweep the clean-up of old entries.
pub mod Store
pub mod Access
pub mod Sweep
pub mod Token
pub mod Guarding
pub mod Renewal
pub mod Limits
pub mod Swept
pub mod Tests
use skeyevss_backend_service.Prelude.{
  ℕ, ◌+◌, ◌-◌, ◌<◌, ◌≡◌, Bool, true, false, Option, none, some, List, [], ◌∷◌, ◌++◌, if◌then◌else◌,
  nat_beq, ltb, length, take, drop,
}
use skeyevss_backend_service.Text.{Text, bytes, trim_space}
use skeyevss_backend_service.Text.Trim.{trim_prefix, trim_suffix}
use skeyevss_backend_service.XMap.{Outcome, returned, panicked}
use skeyevss_backend_service.Crypto.{Cipher, encrypt, decrypt}

pub record CacheItem : Type 0 where
  pub id : Text
  pub expire : ℕ

pub record BlacklistItem : Type 0 where
  pub id : Text
  pub reason : Text
  pub expire : ℕ
  pub created_at : ℕ

-- The JSON of an item, and what the code relies on: an item whose id is a text of JSON is read
-- back. `none` is an error.
pub record Json : Type 0 where
  pub marshal_item : CacheItem → Option Text
  pub unmarshal_item : Text → Option CacheItem
  pub marshal_blacklist : BlacklistItem → Option Text
  pub unmarshal_blacklist : Text → Option BlacklistItem
  pub is_json_text : Text → Bool
  pub item_json : CacheItem → Text
  pub marshal_item_lem :
      (item : CacheItem) → is_json_text item.id ≡ true → marshal_item item ≡ some (item_json item)
  pub length-item_json : (item : CacheItem) → 0 < length (item_json item)
  pub item_inverse :
      (item : CacheItem) → is_json_text item.id ≡ true → unmarshal_item (item_json item) ≡ some item

abbrev pub prefix : Text
prefix = bytes "=GB=l/yb=Gy/b"

abbrev pub suffix : Text
suffix = bytes "=/b/===/=b"

abbrev pub id_cache_key : Text
id_cache_key = bytes "gatekeeper:identity"

abbrev pub unique_ids_cache_key : Text
unique_ids_cache_key = bytes "gatekeeper:uniqueId"

abbrev pub is_empty : Text → Bool
is_empty [] = true
is_empty (c ∷ s) = false

-- swapStringParts
pub swap_string_parts : Text → Text
swap_string_parts s =
    let n = length s in
    if ltb n 10 then s else drop (n - 3) s ++ take (n - 3 - 3) (drop 3 s) ++ take 3 s

-- The fields of Gatekeeper that its methods read.
pub record Gatekeeper : Type 0 where
  pub key : Text
  pub expire : ℕ
  pub rate_limit : ℕ

-- SetRateLimit, for a limit that is not negative.
pub set_rate_limit : ℕ → Gatekeeper → Gatekeeper
set_rate_limit limit l = if ltb 0 limit then record l { rate_limit = limit } else l

-- What is between the prefix and the suffix.
pub inner : Text → Text
inner ipt = trim_suffix (trim_prefix (trim_space ipt) prefix) suffix

module _ (c : Cipher) (j : Json) where
  abbrev pub wrapped : Outcome (Option Text) → Outcome (Option Text)
  wrapped panicked = panicked
  wrapped (returned none) = returned none
  wrapped (returned (some s)) = returned (some (prefix ++ swap_string_parts s ++ suffix))

  abbrev pub encrypted : Gatekeeper → Option Text → Outcome (Option Text)
  encrypted l none = returned none
  encrypted l (some b) = wrapped (encrypt c l.key b)

  -- encryption; the item is never nil.
  pub encryption : Gatekeeper → CacheItem → Outcome (Option Text)
  encryption l item = encrypted l (j.marshal_item item)

  abbrev pub with_id : Option CacheItem → Option CacheItem
  with_id none = none
  with_id (some item) = if is_empty item.id then none else some item

  abbrev pub unmarshalled : Option Text → Option CacheItem
  unmarshalled none = none
  unmarshalled (some s) = with_id (j.unmarshal_item s)

  -- decrypt
  pub decrypt_token : Gatekeeper → Text → Option CacheItem
  unfolding inner
  decrypt_token l ipt =
      if is_empty ipt
      then none
      else if is_empty (inner ipt)
      then none
      else unmarshalled (decrypt c l.key (swap_string_parts (inner ipt)))
