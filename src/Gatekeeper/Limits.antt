-- ===== src/Gatekeeper/Limits.antt =====
-- The rate limit within a second.
use skeyevss_backend_service.Prelude.{
  ℕ, suc, ◌+◌, ◌-◌, ◌*◌, ◌/◌, ◌≡◌, refl, ap, ◌∙◌, Bool, true, false, not, List, [], ◌∷◌, ◌++◌,
  if◌then◌else◌, ltb, nat_beq, length, arith, Bool-cases, inl, inr,
}
use skeyevss_backend_service.Text.{Text, bytes, decimal}
use skeyevss_backend_service.Crypto.{Cipher}
use skeyevss_backend_service.Gatekeeper.{Json, Gatekeeper, is_empty}
use skeyevss_backend_service.Gatekeeper.Store.{Redis}
use skeyevss_backend_service.Gatekeeper.Access.{
  Rate, counted, rate_failed, rate_limit, rate_limit_key, limited,
}

abbrev pub min : ℕ → ℕ → ℕ
min a b = if ltb a b then a else b

abbrev is_allowed : Rate → Bool
is_allowed (counted allowed n) = allowed
is_allowed rate_failed = false

-- How many of the answers allow the request.
abbrev pub allowed : List Rate → ℕ
allowed [] = 0
allowed (a ∷ rates) = let rest = allowed rates in if is_allowed a then suc rest else rest

min_step :
    (limit n len rest : ℕ) (b : Bool)
    → b ≡ not (ltb limit (n + 1))
    → rest ≡ min len (limit - (n + 1))
    → (if b then suc rest else rest) ≡ min (suc len) (limit - n)
min_step limit n len rest b eq h = ground arith

module _ (c : Cipher) (j : Json) (r : Redis) (l : Gatekeeper) (id : Text) where
  -- The answers to requests at some times.
  pub requests : List ℕ → r.Db → List Rate
  requests [] db = []
  requests (now ∷ nows) db = let a = rate_limit c j r l id now db in a.0 ∷ requests nows a.1

  -- Each script can be run.
  abbrev pub IsServed : List ℕ → r.Db → Type 0
  IsServed [] db = Unit
  IsServed (now ∷ nows) db =
      (r.evaluates db ≡ true) × IsServed nows (rate_limit c j r l id now db).1

  -- The times are of one second.
  abbrev pub IsWithinSecond : ℕ → List ℕ → Type 0
  IsWithinSecond second [] = Unit
  IsWithinSecond second (now ∷ nows) = (now / 1000 ≡ second) × IsWithinSecond second nows

  rate_limit_served :
      (now : ℕ) (db : r.Db)
      → is_empty id ≡ false
      → r.evaluates db ≡ true
      → rate_limit c j r l id now db
        ≡ limited c j r l.rate_limit (rate_limit_key id now) (r.incr (rate_limit_key id now) db)
  unfolding rate_limit
  rate_limit_served now db not_empty runs = rw not_empty (rw runs refl)

  limited_counter :
      (key : Text) (db : r.Db)
      → r.counter key (limited c j r l.rate_limit key (r.incr key db)).1 ≡ r.counter key db + 1
  limited_counter key db = elim (Bool-cases (nat_beq (r.incr key db).0 1)) [
    | inl is_first ↦ rw is_first (r.expire_lem key 1 (r.incr key db).1 ∙ r.incr_lem key db)
    | inr not_first ↦ rw not_first (r.incr_lem key db)
  ]

  limited_answer :
      (key : Text) (db : r.Db)
      → is_allowed (limited c j r l.rate_limit key (r.incr key db)).0
        ≡ not (ltb l.rate_limit (r.counter key db + 1))
  limited_answer key db = rw (r.incr_answer key db) refl

  -- The key of a second.
  pub key_at : ℕ → Text
  key_at second = rate_limit_key id (second * 1000)

  key_at_lem : (second now : ℕ) → now / 1000 ≡ second → rate_limit_key id now ≡ key_at second
  unfolding key_at
  key_at_lem second now eq =
      ap (λ n. bytes "gatekeeper:ratelimit:" ++ id ++ b':' ∷ decimal n) (omega (arith, eq))

  served_limited :
      (second now : ℕ) (db : r.Db)
      → is_empty id ≡ false
      → now / 1000 ≡ second
      → r.evaluates db ≡ true
      → rate_limit c j r l id now db
        ≡ limited c j r l.rate_limit (key_at second) (r.incr (key_at second) db)
  served_limited second now db not_empty eq runs =
      rate_limit_served now db not_empty runs
      ∙ ap (λ k. limited c j r l.rate_limit k (r.incr k db)) (key_at_lem second now eq)

  -- Of the requests of one second for an id that is not empty, which the server all counts, as many
  -- are allowed as there are, or as the limit leaves when that is less.
  pub requests_lem :
      (second : ℕ) (nows : List ℕ) (db : r.Db)
      → is_empty id ≡ false
      → IsWithinSecond second nows
      → IsServed nows db
      → allowed (requests nows db) ≡ min (length nows) (l.rate_limit - r.counter (key_at second) db)
  unfolding requests
  requests_lem second [] db not_empty within served = ground arith
  requests_lem second (now ∷ nows) db not_empty within served =
      let a = rate_limit c j r l id now db in
      let eq = served_limited second now db not_empty within.0 served.0 in
      let rest = requests_lem second nows a.1 not_empty within.1 served.1 in
      min_step l.rate_limit (r.counter (key_at second) db) (length nows)
        (allowed (requests nows a.1)) (is_allowed a.0)
        (ap (λ x. is_allowed x.0) eq ∙ limited_answer (key_at second) db)
        (rest
          ∙ ap (λ n. min (length nows) (l.rate_limit - n))
              (ap (λ x. r.counter (key_at second) x.1) eq ∙ limited_counter (key_at second) db))
