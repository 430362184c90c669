-- ===== src/Gbs/Register.antt =====
-- core/app/sev/vss/internal/logic/gbs_sip/register.go: a device registers, or leaves with a
-- lifetime of 0. The digest of gosip and the database service are parameters.
pub mod Outcomes
use skeyevss_backend_service.Prelude.{
  ℕ, zero, suc, ◌+◌, ◌-◌, ◌%◌, ◌^◌, ◌≡◌, refl, Bool, true, false, not, ◌&&◌, Option, none, some,
  List, [], ◌∷◌, ◌++◌, if◌then◌else◌, ltb, leb, nat_beq, length, ℤ, pos, negsuc, ◌+ℤ◌, pos_part,
  neg_part,
}
use skeyevss_backend_service.Text.{Text, split, trim_space, atoi}
use skeyevss_backend_service.XMap.{Outcome, returned, panicked}
use skeyevss_backend_service.Gbs.{
  Service, Request, AuthHeader, generic, other, CatalogLoopReq, HeartbeatLoopReq, DeviceRecord,
  Delayed, SameMaps, SameMaps-refl,
}

pub record SipConfig : Type 0 where
  pub use_password : Bool
  pub password : Text

-- sip.AuthFromValue, SetPassword, SetMethod and CalcResponse of gosip: whether the digest in the
-- contents of the header is the one that the password gives.
abbrev pub Digest : Type 0
Digest = Text → Text → Bool

pub data Refusal : Type 0 where
  no_authorization bad_expires wrong_header wrong_password : Refusal

pub data Reply : Type 0 where
  -- nil: a plain 200
  silent : Reply
  -- StatusUnauthorized
  unauthorized : Refusal → Reply
  -- the error of the database call
  failed : Reply
  -- 200, after `before_response`
  accepted : ℤ → Reply

-- The conversions of int64 and uint64.
pub to_uint64 : ℤ → ℕ
to_uint64 (pos n) = n % 2 ^ 64
to_uint64 (negsuc n) = 2 ^ 64 - 1 - n % 2 ^ 64

pub to_int64 : ℕ → ℤ
to_int64 n =
    if ltb (n % 2 ^ 64) (2 ^ 63) then pos (n % 2 ^ 64) else negsuc (2 ^ 64 - 1 - n % 2 ^ 64)

-- The second of exactly two pieces between colons, as a number; `none` is an error of Atoi. A
-- header in another form, like a missing one, gives 0.
pub header_pieces : List Text → Option ℤ
header_pieces (name ∷ value ∷ []) = atoi (trim_space value)
header_pieces pieces = some (pos 0)

unfoldable pub expire_of : List Text → Option ℤ
unfolding header_pieces split
expire_of [] = some (pos 0)
expire_of (header ∷ rest) = header_pieces (split b':' header)

-- `none` is success.
pub auth : Digest → Text → AuthHeader → Option Refusal
auth digest_ok password other = some wrong_header
auth digest_ok password (generic contents) =
    if digest_ok contents password then none else some wrong_password

-- The check before the record is made, when passwords are used. An empty list has been refused.
pub check_password : Digest → SipConfig → List AuthHeader → Option Refusal
unfolding auth
check_password digest_ok conf [] = none
check_password digest_ok conf (header ∷ rest) =
    if conf.use_password then auth digest_ok conf.password header else none

abbrev pub is_zero : ℤ → Bool
is_zero (pos zero) = true
is_zero z = false

pub device_record : Request → ℕ → ℤ → DeviceRecord
unfolding to_uint64
device_record req now expire = record {
  device_unique_id = req.id;
  name = req.source;
  address = req.source;
  state = 1;
  online = if is_zero expire then 0 else 1;
  expire = (to_uint64 (pos now) + to_uint64 expire) % 2 ^ 64;
  register_at = now;
}

-- A lifetime of 0 ends the tasks of the device: a message to the catalog loop, and one without
-- times to the heartbeat loop.
pub sign_off : Request → ℕ → Service → Service
sign_off req now s = record s {
  catalog_queue = s.catalog_queue ++ record { req = req; online = false; now = now } ∷ [];
  heartbeat_queue =
      s.heartbeat_queue ++ record { id = req.id; now = 0; register_expire_at = pos 0 } ∷ [];
}

-- Any other lifetime leaves the rest to a goroutine that sleeps for a second.
pub sign_on : Request → ℕ → ℤ → Service → Service
sign_on req now expire s = record s {
  delayed = s.delayed ++ record { req = req; now = now; expire = expire } ∷ [];
}

-- From the call of the database on; `stored` says whether it succeeds.
pub store_device : Bool → Request → ℕ → ℤ → Service → Reply × Service
unfolding device_record sign_off sign_on
store_device false req now expire s = (failed, s)
store_device true req now expire s =
    let s' = record s { upserts = s.upserts ++ device_record req now expire ∷ [] } in
    (accepted expire, if is_zero expire then sign_off req now s' else sign_on req now expire s')

pub with_expire : Digest → SipConfig → Bool → Request → ℕ → Option ℤ → Service → Reply × Service
unfolding store_device check_password
with_expire digest_ok conf stored req now none s = (unauthorized bad_expires, s)
with_expire digest_ok conf stored req now (some expire) s =
    elim (check_password digest_ok conf req.authorization) [
      | some e ↦ (unauthorized e, s)
      | none ↦ store_device stored req now expire s
    ]

-- RegisterLogic.DO
pub register : Digest → SipConfig → Bool → Request → ℕ → Service → Reply × Service
unfolding with_expire expire_of
register digest_ok conf stored req now s =
    if ltb (length req.id) 18
    then (silent, s)
    else if nat_beq (length req.authorization) 0 && conf.use_password
    then (unauthorized no_authorization, s)
    else with_expire digest_ok conf stored req now (expire_of req.expires) s

-- The callback on an accepted registration: whether it adds the headers to the response. It reads
-- `Authorization[0]` whether or not passwords are used.
pub before_response : Digest → SipConfig → Request → Outcome Bool
before_response digest_ok conf req = elim req.authorization [
  | [] ↦ panicked
  | header ∷ rest ↦
      returned (elim header [ other ↦ false | generic contents ↦ digest_ok contents conf.password ])
]

-- The goroutine of a registration, when it wakes up.
abbrev pub wake : Delayed → List Delayed → Service → Service
wake d rest s = record s {
  delayed = rest;
  catalog_queue = s.catalog_queue ++ record { req = d.req; online = true; now = d.now } ∷ [];
  send_catalog = s.send_catalog ++ d.req ∷ [];
  send_device_info = s.send_device_info ++ d.req ∷ [];
  heartbeat_queue =
      s.heartbeat_queue
      ++ record { id = d.req.id; now = d.now; register_expire_at = pos d.now +ℤ d.expire } ∷ [];
}

unfoldable pub run_delayed : Service → Service
run_delayed s = elim s.delayed [ [] ↦ s | d ∷ rest ↦ wake d rest s ]

pub run_delayed-SameMaps : (s : Service) → SameMaps s (run_delayed s)
unfolding run_delayed
run_delayed-SameMaps s = go s.delayed
  where
    go : (ds : List Delayed) → SameMaps s (elim ds [ [] ↦ s | d ∷ rest ↦ wake d rest s ])
    go [] = SameMaps-refl s
    go (d ∷ rest) = record { same_catalogs = refl; same_heartbeats = refl; same_reports = refl }
