-- ===== src/Gbs/Register/Outcomes.antt =====
-- What a registration accepts, refuses and leaves behind.
use skeyevss_backend_service.Prelude.{
  ℕ, ◌+◌, ◌^◌, ◌≤◌, ◌<◌, ◌≡◌, ◌≢◌, ◌⊎◌, refl, sym, subst, Bool, true, false, ◌&&◌, Option, none,
  some, List, [], ◌∷◌, ◌++◌, if◌then◌else◌, ltb, nat_beq, length, arith, Bool-cases, Option-cases,
  inl, inr, ℤ, pos, negsuc, ◌+ℤ◌,
}
use skeyevss_backend_service.Text.{Text}
use skeyevss_backend_service.XMap.{panicked}
use skeyevss_backend_service.Gbs.{
  Service, SameMaps, SameMaps-refl, Request, AuthHeader, generic, other,
}
use skeyevss_backend_service.Gbs.Register.{
  SipConfig, Digest, Reply, accepted, to_uint64, to_int64, expire_of, check_password, is_zero,
  device_record, sign_off, sign_on, store_device, with_expire, register, before_response,
}

module _ (digest_ok : Digest) (conf : SipConfig) where
  -- The first header carries the digest of the password.
  abbrev pub Proves : List AuthHeader → Type 0
  Proves headers =
      (contents : Text) × (rest : List AuthHeader) × (headers ≡ generic contents ∷ rest)
      × (digest_ok contents conf.password ≡ true)

  abbrev pub stored_state : Request → ℕ → ℤ → Service → Service
  stored_state req now expire s =
      let s' = record s { upserts = s.upserts ++ device_record req now expire ∷ [] } in
      if is_zero expire then sign_off req now s' else sign_on req now expire s'

  -- What a registration may come to.
  abbrev pub Comes : Request → ℕ → Service → Reply × Service → Type 0
  Comes req now s r =
      (((expire : ℤ) → r.0 ≢ accepted expire) × (r.1 ≡ s))
      ⊎ ((expire : ℤ) × (r.0 ≡ accepted expire)
          × (18 ≤ length req.id)
          × (expire_of req.expires ≡ some expire)
          × (conf.use_password ≡ true → Proves req.authorization)
          × (r.1 ≡ stored_state req now expire s))

  check_password-Proves :
      (headers : List AuthHeader)
      → (nat_beq (length headers) 0 && conf.use_password) ≡ false
      → check_password digest_ok conf headers ≡ none
      → conf.use_password ≡ true
      → Proves headers
  unfolding check_password
  check_password-Proves [] h e p = cc (rw p at h)
  check_password-Proves (other ∷ rest) h e p = cc (rw (p, check_password) at e)
  check_password-Proves (generic contents ∷ rest) h e p =
      elim (Bool-cases (digest_ok contents conf.password)) [
        | inl ok ↦ (contents, rest, refl, ok)
        | inr bad ↦ cc (rw (p, bad, check_password) at e)
      ]

  store_device-Comes :
      (stored : Bool) (req : Request) (now : ℕ) (expire : ℤ) (s : Service)
      → 18 ≤ length req.id
      → expire_of req.expires ≡ some expire
      → (conf.use_password ≡ true → Proves req.authorization)
      → Comes req now s (store_device stored req now expire s)
  unfolding store_device
  store_device-Comes false req now expire s l x p = inl (λ z t. cc, refl)
  store_device-Comes true req now expire s l x p = inr (expire, refl, l, x, p, refl)

  with_expire-Comes :
      (stored : Bool) (req : Request) (now : ℕ) (expire : Option ℤ) (s : Service)
      → 18 ≤ length req.id
      → (nat_beq (length req.authorization) 0 && conf.use_password) ≡ false
      → expire_of req.expires ≡ expire
      → Comes req now s (with_expire digest_ok conf stored req now expire s)
  unfolding with_expire
  with_expire-Comes stored req now none s l g x = inl (λ z t. cc, refl)
  with_expire-Comes stored req now (some z) s l g x =
      elim (Option-cases (check_password digest_ok conf req.authorization)) [
        | inl ok ↦
            rw (ok, with_expire)
              (store_device-Comes stored req now z s l x
                (check_password-Proves req.authorization g ok))
        | inr (why, bad) ↦ rw (bad, with_expire) (inl (λ y t. cc, refl))
      ]

  -- A registration either is not accepted, and then leaves the service as it was; or it is accepted
  -- with the lifetime of its header, from an identifier of 18 bytes at least and, where passwords
  -- are used, with a digest of the password. Then the device is stored, and it is signed off if
  -- the lifetime is 0, or else signed on.
  pub register_cases :
      (stored : Bool) (req : Request) (now : ℕ) (s : Service)
      → Comes req now s (register digest_ok conf stored req now s)
  unfolding register
  register_cases stored req now s = elim (Bool-cases (ltb (length req.id) 18)) [
    | inl short ↦ rw (short, register) (inl (λ z t. cc, refl))
    | inr long ↦ elim (Bool-cases (nat_beq (length req.authorization) 0 && conf.use_password)) [
      | inl missing ↦ rw (long, missing, register) (inl (λ z t. cc, refl))
      | inr present ↦
          rw (long, present, register)
            (with_expire-Comes stored req now (expire_of req.expires) s (ground arith) present refl)
    ]
  ]

  -- The bug: where no passwords are used, a registration without an authorization header is
  -- accepted and stored, and the callback that completes the response panics.
  pub register_panics :
      (req : Request) (now : ℕ) (s : Service) (expire : ℤ)
      → conf.use_password ≡ false
      → req.authorization ≡ []
      → 18 ≤ length req.id
      → expire_of req.expires ≡ some expire
      → ((register digest_ok conf true req now s).0 ≡ accepted expire)
        × (before_response digest_ok conf req ≡ panicked)
  unfolding register with_expire check_password store_device before_response
  register_panics req now s expire h₀ h₁ h₂ h₃ = (ground arith, rw (h₁, before_response))

pub register-SameMaps :
    (digest_ok : Digest) (conf : SipConfig) (stored : Bool) (req : Request) (now : ℕ) (s : Service)
    → SameMaps s (register digest_ok conf stored req now s).1
unfolding sign_off sign_on
register-SameMaps digest_ok conf stored req now s =
    elim (register_cases digest_ok conf stored req now s) [
      | inl (why, e) ↦ subst (SameMaps s) (sym e) (SameMaps-refl s)
      | inr (expire, a, l, x, p, e) ↦ subst (SameMaps s) (sym e) (ground arith)
    ]

-- The end of the registration, stored as a uint64 and read back as an int64 by the heartbeat
-- handler, is the time and the lifetime added up, as long as that fits an int64.
pub expiry_roundtrip :
    (req : Request) (now n : ℕ) (expire : ℤ)
    → (expire ≡ pos n) ⊎ ((expire ≡ negsuc n) × (n < now))
    → now + n < 2 ^ 63
    → to_int64 (device_record req now expire).expire ≡ pos now +ℤ expire
unfolding device_record to_int64 to_uint64
expiry_roundtrip req now n expire (inl e) h = rw e (ground arith)
expiry_roundtrip req now n expire (inr (e, later)) h = rw e (ground arith)
