-- ===== src/Gbs/Keepalive.antt =====
-- core/app/sev/vss/internal/logic/gbs_sip/keepalive.go: the heartbeat of a device. The parser of
-- the message and the database service are parameters.
use native.Mathlib.Nat.{mod-eq_of_lt}
use skeyevss_backend_service.Prelude.{
  ℕ, ◌+◌, ◌%◌, ◌^◌, ◌≡◌, ◌⊎◌, ◌≤◌, ◌<◌, refl, Bool-cases, inl, inr, true, false, Option, none, some,
  [], ◌∷◌, ◌++◌, if◌then◌else◌, ltb, leb, nat_beq, length, ℤ, arith,
}
use skeyevss_backend_service.Text.{Text, text_comparable}
use skeyevss_backend_service.XMap.{get}
use skeyevss_backend_service.Gbs.{Service, SameMaps, SameMaps-refl, Request}
use skeyevss_backend_service.Gbs.Register.{to_int64}

-- devices.Item, the columns that the handler reads.
pub record DeviceRow : Type 0 where
  pub device_unique_id : Text
  pub online : ℕ
  pub expire : ℕ

-- The answer of DeviceRow with IgnoreNotFound.
pub data RowAnswer : Type 0 where
  row_error not_found : RowAnswer
  row : DeviceRow → RowAnswer

pub data Reply : Type 0 where
  -- nil: a plain 200
  silent : Reply
  unauthorized bad_message failed : Reply
  -- StatusPreconditionFailed: the device is not answered and registers anew
  expired : Reply

-- `SetDeviceOnline <- …`
pub report_online : DeviceRow → Service → Service
report_online dev s = record s {
  online_queue =
      s.online_queue
      ++ record {
        device_unique_id = dev.device_unique_id;
        channel_unique_id = [];
        c_id = 0;
        online = true;
      }
        ∷ [];
}

-- After a restart of the server the device has no catalog task.
pub restore_catalog : Request → ℕ → Service → Service
restore_catalog req now s = elim (get req.id s.catalog_map) [
  | some _ ↦ s
  | none ↦ record s {
    send_catalog = s.send_catalog ++ req ∷ [];
    catalog_queue = s.catalog_queue ++ record { req = req; online = true; now = now } ∷ [];
  }
]

-- The end of the registration that the new heartbeat entry carries on.
pub carried_expiry : Request → DeviceRow → Service → ℤ
carried_expiry req dev s = elim (get req.id s.heartbeat_map) [
  | some v ↦ v.register_expire_at
  | none ↦ to_int64 dev.expire
]

pub renew_heartbeat : Request → Text → DeviceRow → ℕ → Service → Service
unfolding carried_expiry
renew_heartbeat req device_id dev now s = record s {
  heartbeat_queue =
      s.heartbeat_queue
      ++ record { id = device_id; now = now; register_expire_at = carried_expiry req dev s } ∷ [];
}

pub alive : Request → Text → DeviceRow → ℕ → Service → Service
unfolding report_online restore_catalog renew_heartbeat
alive req device_id dev now s =
    renew_heartbeat req device_id dev now (restore_catalog req now (report_online dev s))

with_row : Request → Text → RowAnswer → ℕ → Service → Reply × Service
unfolding alive
with_row req device_id row_error now s = (failed, s)
with_row req device_id not_found now s = (silent, s)
with_row req device_id (row dev) now s =
    if nat_beq dev.online 0
    then (if leb dev.expire ((now + 5) % 2 ^ 64)
        then (expired, s)
        else (silent, alive req device_id dev now s))
    else (silent, alive req device_id dev now s)

-- KeepaliveLogic.DO: `message` is the device that the body names, if it parses, and `answer` what
-- the database says of it.
pub keepalive : Request → Option Text → (Text → RowAnswer) → ℕ → Service → Reply × Service
unfolding with_row
keepalive req message answer now s =
    if ltb (length req.id) 18 then (unauthorized, s) else (elim message [
      | none ↦ (bad_message, s)
      | some device_id ↦ with_row req device_id (answer device_id) now s
    ])

alive-SameMaps :
    (req : Request) (device_id : Text) (dev : DeviceRow) (now : ℕ) (s : Service)
    → SameMaps s (alive req device_id dev now s)
unfolding alive
alive-SameMaps req device_id dev now s = ground arith

with_row-SameMaps :
    (req : Request) (device_id : Text) (a : RowAnswer) (now : ℕ) (s : Service)
    → SameMaps s (with_row req device_id a now s).1
unfolding with_row
with_row-SameMaps req device_id row_error now s = SameMaps-refl s
with_row-SameMaps req device_id not_found now s = SameMaps-refl s
with_row-SameMaps req device_id (row dev) now s =
    ground (arith, alive-SameMaps req device_id dev now s)

pub keepalive-SameMaps :
    (req : Request) (message : Option Text) (answer : Text → RowAnswer) (now : ℕ) (s : Service)
    → SameMaps s (keepalive req message answer now s).1
unfolding keepalive
keepalive-SameMaps req none answer now s = ground arith
keepalive-SameMaps req (some device_id) answer now s =
    ground (arith, with_row-SameMaps req device_id (answer device_id) now s)

-- A heartbeat that is taken as a sign of life: of which device, and what it sends.
pub record SignOfLife (req : Request) (message : Option Text) (answer : Text → RowAnswer) (now : ℕ)
    (s t : Service) : Type 0 where
  pub device_id : Text
  pub dev : DeviceRow
  pub names : message ≡ some device_id
  pub stands : answer device_id ≡ row dev
  pub long_enough : 18 ≤ length req.id
  pub registered : dev.online ≡ 0 → now + 5 < dev.expire
  pub reported :
      t.online_queue
      ≡ s.online_queue
        ++ record {
          device_unique_id = dev.device_unique_id;
          channel_unique_id = [];
          c_id = 0;
          online = true;
        }
          ∷ []
  pub renewed :
      t.heartbeat_queue
      ≡ s.heartbeat_queue
        ++ record { id = device_id; now = now; register_expire_at = carried_expiry req dev s } ∷ []

alive-SignOfLife :
    (req : Request) (device_id : Text) (dev : DeviceRow) (answer : Text → RowAnswer) (now : ℕ)
    (s : Service)
    → answer device_id ≡ row dev
    → 18 ≤ length req.id
    → (dev.online ≡ 0 → now + 5 < dev.expire)
    → SignOfLife req (some device_id) answer now s (alive req device_id dev now s)
unfolding alive
alive-SignOfLife req device_id dev answer now s e l g = record {
  device_id = device_id;
  dev = dev;
  names = refl;
  stands = e;
  long_enough = l;
  registered = g;
  reported = ground arith;
  renewed = ground arith;
}

still_runs :
    (expire now : ℕ) → now + 5 < 2 ^ 64 → leb expire ((now + 5) % 2 ^ 64) ≡ false → now + 5 < expire
still_runs expire now h e =
    let e' : leb expire (now + 5) ≡ false = rw (← mod-eq_of_lt h) e in ground arith

with_row_cases :
    (req : Request) (device_id : Text) (answer : Text → RowAnswer) (now : ℕ) (s : Service)
    (a : RowAnswer)
    → answer device_id ≡ a
    → 18 ≤ length req.id
    → now + 5 < 2 ^ 64
    → let r = with_row req device_id a now s in
      (r.1 ≡ s) ⊎ ((r.0 ≡ silent) × SignOfLife req (some device_id) answer now s r.1)
unfolding with_row
with_row_cases req device_id answer now s row_error e l h = inl refl
with_row_cases req device_id answer now s not_found e l h = inl refl
with_row_cases req device_id answer now s (row dev) e l h =
    elim (Bool-cases (nat_beq dev.online 0)) [
      | inl off ↦ elim (Bool-cases (leb dev.expire ((now + 5) % 2 ^ 64))) [
        | inl over ↦ rw (off, over, with_row) (inl refl)
        | inr runs ↦
            rw (off, runs, with_row)
              (inr (
                refl,
                alive-SignOfLife req device_id dev answer now s e l
                    (λ o. still_runs dev.expire now h runs),
              ))
      ]
      | inr on ↦
          rw (on, with_row)
            (inr (refl, alive-SignOfLife req device_id dev answer now s e l (λ o. ground arith)))
    ]

-- A heartbeat either changes nothing, or it is a sign of life: its identifier has 18 bytes at
-- least, the message names a device that the database knows, and if that device is off line its
-- registration runs for more than five seconds still. Then the device is reported on line, and
-- one message carries the time and the end of the registration to the heartbeat loop.
pub keepalive_cases :
    (req : Request) (message : Option Text) (answer : Text → RowAnswer) (now : ℕ) (s : Service)
    → now + 5 < 2 ^ 64
    → let r = keepalive req message answer now s in
      (r.1 ≡ s) ⊎ ((r.0 ≡ silent) × SignOfLife req message answer now s r.1)
unfolding keepalive
keepalive_cases req none answer now s h = inl (ground arith)
keepalive_cases req (some device_id) answer now s h = elim (Bool-cases (ltb (length req.id) 18)) [
  | inl short ↦ rw (short, keepalive) (inl refl)
  | inr long ↦
      let l : 18 ≤ length req.id = ground arith in
      rw (long, keepalive) (with_row_cases req device_id answer now s (answer device_id) refl l h)
]
