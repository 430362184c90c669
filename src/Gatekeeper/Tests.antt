-- ===== src/Gatekeeper/Tests.antt =====
-- The gatekeeper with a server that keeps tokens and counters, and items written as their bytes.
use skeyevss_backend_service.Prelude.{
  ℕ, ◌+◌, ◌≡◌, refl, true, false, Option, none, some, [], ◌∷◌, if◌then◌else◌, ℤ, pos, arith, inl,
}
use skeyevss_backend_service.Text.{Text, bytes, text_beq, text_beq_iff}
use skeyevss_backend_service.XMap.{returned}
use skeyevss_backend_service.Crypto.Tests.{plain_cipher, key16}
use skeyevss_backend_service.Gatekeeper.{CacheItem, Json, Gatekeeper, encryption, decrypt_token}
use skeyevss_backend_service.Gatekeeper.Token.{token_of, decrypt-encryption}
use skeyevss_backend_service.Gatekeeper.Store.{Answer, found, missing, Redis}
use skeyevss_backend_service.Gatekeeper.Access.{
  Times, passed, guard, credential, is_blacklisted, rate_limit,
}
use skeyevss_backend_service.Gatekeeper.Guarding.{IsAdmitted, guard_sound}
use skeyevss_backend_service.Gatekeeper.Renewal.{fresh_token, credential-guard}
use skeyevss_backend_service.Gatekeeper.Limits.{requests, allowed, min, requests_lem}

abbrev read_item : Text → Option CacheItem
read_item [] = none
read_item (expire ∷ id) = some (record { id = id; expire = expire })

abbrev plain_json : Json
plain_json = record {
  marshal_item = λ item. some (item.expire ∷ item.id);
  unmarshal_item = read_item;
  marshal_blacklist = λ item. none;
  unmarshal_blacklist = λ s. none;
  is_json_text = λ id. true;
  item_json = λ item. item.expire ∷ item.id;
  marshal_item_lem = λ item is_text. refl;
  length-item_json = λ item. omega arith;
  item_inverse = λ item is_text. refl;
}

record Server : Type 0 where
  token : Text → Option Text
  count : Text → ℕ

abbrev answer_of : Option Text → Answer Text
answer_of none = missing
answer_of (some v) = found v

abbrev store : Text → Text → Server → Server
store f v db = record db { token = λ g. if text_beq f g then some v else db.token g }

abbrev count_up : Text → Server → Server
count_up k db = record db { count = λ i. if text_beq k i then db.count i + 1 else db.count i }

count_up_lem : (k : Text) (db : Server) → (count_up k db).count k ≡ db.count k + 1
count_up_lem k db = rw ((text_beq_iff k k).1 refl) refl

stored : (f v : Text) (db : Server) → answer_of ((store f v db).token f) ≡ found v
stored f v db = rw ((text_beq_iff f f).1 refl) refl

abbrev plain_redis : Redis
plain_redis = record {
  Db = Server;
  get = λ k db. missing;
  hget = λ k f db. answer_of (db.token f);
  hget_all = λ k db. missing;
  keys = λ k db. missing;
  is_member = λ k f db. found false;
  set = λ k v n db. (true, db);
  del = λ ks db. (true, db);
  hset = λ k f v db. (true, store f v db);
  hdel = λ k fs db. (true, db);
  srem = λ k fs db. (true, db);
  sadd = λ k f db. (true, db);
  evaluates = λ db. true;
  incr = λ k db. (db.count k + 1, count_up k db);
  expire_in = λ k n db. db;
  counter = λ k db. db.count k;
  incr_answer = λ k db. refl;
  incr_lem = count_up_lem;
  expire_lem = λ k n db. refl;
  hset_lem = λ k f v db is_stored. inl (stored f v db);
}

abbrev keeper : Gatekeeper
keeper = record { key = key16; expire = 1000; rate_limit = 2 }

abbrev bob : Text
bob = bytes "bob"

abbrev bob_item : CacheItem
bob_item = record { id = bob; expire = 1500 }

abbrev nobody : Server
nobody = record { token = λ f. none; count = λ k. 0 }

abbrev zero_of : Text → ℤ
zero_of s = pos 0

decrypt-encryption_example :
    (encryption plain_cipher plain_json keeper bob_item
      ≡ returned (some (token_of plain_cipher plain_json keeper bob_item)))
    × (decrypt_token plain_cipher plain_json keeper
          (token_of plain_cipher plain_json keeper bob_item)
        ≡ some bob_item)
decrypt-encryption_example =
    decrypt-encryption plain_cipher plain_json keeper bob_item refl refl refl

requests_lem_example :
    allowed
      (requests plain_cipher plain_json plain_redis keeper bob (5000 ∷ 5100 ∷ 5999 ∷ []) nobody)
    ≡ min 3 2
requests_lem_example =
    requests_lem plain_cipher plain_json plain_redis keeper bob 5 (5000 ∷ 5100 ∷ 5999 ∷ []) nobody
      refl (refl, (refl, (refl, tt))) (refl, (refl, (refl, tt)))

abbrev times : Times
times = record {
  listing_now = 1200;
  rate_now = 1200;
  status_now = 1200;
  guard_now = 1200;
  credential_now = 1200;
}

abbrev bobs_token : Text
bobs_token = fresh_token plain_cipher plain_json plain_redis keeper bob 500

abbrev with_bob : Server
with_bob = store bob bobs_token nobody

credential-guard_example :
    ((credential plain_cipher plain_json plain_redis keeper bob false 500 nobody).0
      ≡ returned (some bobs_token))
    × ((guard plain_cipher plain_json plain_redis zero_of keeper bobs_token false times with_bob).0
        ≡ passed (fresh_token plain_cipher plain_json plain_redis keeper bob 1200))
unfolding is_blacklisted rate_limit
credential-guard_example =
    credential-guard plain_cipher plain_json plain_redis zero_of keeper bob 500 nobody false times
      with_bob refl refl refl (omega arith) refl tt tt refl (omega arith)

guard_sound_example :
    (item : CacheItem) × IsAdmitted plain_cipher plain_json plain_redis keeper bobs_token times
      with_bob item
guard_sound_example =
    guard_sound plain_cipher plain_json plain_redis zero_of keeper bobs_token false times with_bob
      (fresh_token plain_cipher plain_json plain_redis keeper bob 1200) credential-guard_example.1
