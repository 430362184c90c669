-- ===== src/Gatekeeper/Store.antt =====
-- The calls of Redis that core/pkg/gatekeeper makes by way of core/pkg/redis, as an interface over
-- the state of the server and of the network, and what the code relies on.
use skeyevss_backend_service.Prelude.{ℕ, ◌+◌, ◌≡◌, ◌⊎◌, Bool, true, List}
use skeyevss_backend_service.Text.{Text}

-- An answer: a value, redis.Nil, or another error.
pub data Answer (A : Type 0) : Type 0 where
  found : A → Answer A
  missing : Answer A
  failed : Answer A

pub record Redis : Type 1 where
  pub Db : Type 0
  pub get : Text → Db → Answer Text
  pub hget : Text → Text → Db → Answer Text
  pub hget_all : Text → Db → Answer (List (Text × Text))
  pub keys : Text → Db → Answer (List Text)
  pub is_member : Text → Text → Db → Answer Bool
  -- Writes answer whether they went well.
  pub set : Text → Text → ℕ → Db → Bool × Db
  pub del : List Text → Db → Bool × Db
  pub hset : Text → Text → Text → Db → Bool × Db
  pub hdel : Text → List Text → Db → Bool × Db
  pub srem : Text → List Text → Db → Bool × Db
  pub sadd : Text → Text → Db → Bool × Db
  -- What a script runs on the server, and whether a script can be run.
  pub evaluates : Db → Bool
  pub incr : Text → Db → ℕ × Db
  pub expire_in : Text → ℕ → Db → Db
  -- The counter of a key, which stands for 0 when it is missing.
  pub counter : Text → Db → ℕ
  pub incr_answer : (k : Text) (db : Db) → (incr k db).0 ≡ counter k db + 1
  pub incr_lem : (k : Text) (db : Db) → counter k (incr k db).1 ≡ counter k db + 1
  pub expire_lem : (k : Text) (n : ℕ) (db : Db) → counter k (expire_in k n db) ≡ counter k db
  -- What was stored is found, unless the call fails.
  pub hset_lem :
      (k f v : Text) (db : Db)
      → (hset k f v db).0 ≡ true
      → (hget k f (hset k f v db).1 ≡ found v) ⊎ (hget k f (hset k f v db).1 ≡ failed)
