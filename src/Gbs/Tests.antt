-- ===== src/Gbs/Tests.antt =====
-- The theorems of Gbs at concrete states: a camera that registers, reports and falls silent.
use mathlib.Core.List.Perm
use mathlib.Core.Option.{some-injective}
use skeyevss_backend_service.XMap.Ops.{get-new}
use skeyevss_backend_service.Prelude.{
  ◌≡◌, ◌⊎◌, ◌↔◌, ◌≤◌, ◌<◌, refl, sym, ap, subst, ◌∙◌, Bool, true, false, none, some, List, [], ◌∷◌,
  ◌++◌, Mem, ◌==◌, arith, if◌then◌else◌, pos,
}
use skeyevss_backend_service.Text.{Text, bytes, atoi, trim_space, text_comparable}
use skeyevss_backend_service.GoMap.{RangeOrder}
use skeyevss_backend_service.XMap.{panicked, get}
use skeyevss_backend_service.XMap.Keyed.{any, opt_any}
use skeyevss_backend_service.Gbs.{
  Service, Request, CatalogLoopReq, HeartbeatLoopReq, OnlineReq, DbUpdate, init,
}
use skeyevss_backend_service.Gbs.Heartbeat.{receive_heartbeat, is_fresh, offline, heartbeat_tick}
use skeyevss_backend_service.Gbs.Online.{Update, goes, receive_online, online_tick}
use skeyevss_backend_service.Gbs.Online.Writes.{sets_device, takes_channels_off, online_tick_lem}
use skeyevss_backend_service.Gbs.Catalog.{make, catalog_tick, make_lem, catalog_tick_silent}
use skeyevss_backend_service.Gbs.Register.{
  SipConfig, Digest, accepted, expire_of, register, before_response,
}
use skeyevss_backend_service.Gbs.Register.Outcomes.{Comes, register_cases, register_panics}
use skeyevss_backend_service.Gbs.Keepalive.{
  RowAnswer, row, silent, keepalive, SignOfLife, keepalive_cases,
}
use skeyevss_backend_service.Gbs.System.{
  Setup, Event, keeps_alive, takes_heartbeat, takes_catalog, takes_online, ticks_heartbeat,
  ticks_online, run, IsServiceValid, init-IsServiceValid, make-valid, run-init-IsServiceValid,
  receive_online-valid,
}
use skeyevss_backend_service.Gbs.System.Silence.{silent_device}

abbrev in_place {ℓ} : {A : Type ℓ} → RangeOrder A
in_place = record { arrange = λ l. l; arrange-perm = Perm.refl }

abbrev camera : Text
camera = bytes "34020000001320000001"

abbrev greeting : Request
greeting = record {
  id = camera;
  source = bytes "10.0.0.7:5060";
  authorization = [];
  expires = bytes "Expires: 3600" ∷ [];
}

abbrev beat : HeartbeatLoopReq
beat = record { id = camera; now = 1000; register_expire_at = pos 4600 }

abbrev beating : Service
beating = record init { heartbeat_queue = beat ∷ [] }

beating-IsServiceValid : IsServiceValid beating
beating-IsServiceValid = record {
  catalogs = init-IsServiceValid.catalogs;
  heartbeats = init-IsServiceValid.heartbeats;
  reports = init-IsServiceValid.reports;
}

silent_device_example :
    (get camera (heartbeat_tick 90 in_place 1100 (receive_heartbeat beating)).heartbeat_map
      ≡ (if is_fresh 90 1100 4600 beat then some beat else none))
    × ((sent : List OnlineReq) × ((heartbeat_tick 90 in_place 1100
            (receive_heartbeat beating)).online_queue
          ≡ (receive_heartbeat beating).online_queue ++ sent)
        × ((is_fresh 90 1100 4600 beat ≡ false) ↔ Mem (offline camera) sent))
silent_device_example =
    silent_device 90 1100 4600 in_place beating beat [] beating-IsServiceValid refl refl

abbrev reporting : Service
reporting = record init { online_queue = offline camera ∷ [] }

abbrev reported : Service
reported = receive_online reporting

abbrev in_turn : RangeOrder Update
in_turn = record { arrange = λ l. l; arrange-perm = Perm.refl }

reporting-IsServiceValid : IsServiceValid reporting
reporting-IsServiceValid = record {
  catalogs = init-IsServiceValid.catalogs;
  heartbeats = init-IsServiceValid.heartbeats;
  reports = init-IsServiceValid.reports;
}

online_tick_lem_example :
    (calls : List DbUpdate) × ((online_tick in_place in_turn 1100 reported).db
      ≡ reported.db ++ calls)
    × ((o : Bool) (k : Text)
        → any (sets_device o k) calls ≡ opt_any (goes o) (get k reported.online_map))
    × ((k : Text)
        → any (takes_channels_off k) calls ≡ opt_any (goes false) (get k reported.online_map))
    × ((k : Text) → get k (online_tick in_place in_turn 1100 reported).online_map ≡ none)
online_tick_lem_example =
    online_tick_lem in_place in_turn 1100 reported
      (receive_online-valid reporting reporting-IsServiceValid).reports

abbrev enrolment : CatalogLoopReq
enrolment = record { req = greeting; online = true; now = 1000 }

abbrev enrolled : Service
enrolled = make enrolment init

init-empty : (k : Text) → get k init.catalog_map ≡ none
unfolding init
init-empty k = get-new k (pos 0)

the_one :
    (b : Bool) (v : CatalogLoopReq) → (if b then some enrolment else none) ≡ some v → enrolment ≡ v
the_one true v e = some-injective enrolment v e
the_one false v e = cc e

enrolled_times :
    (k : Text) (v : CatalogLoopReq)
    → get k enrolled.catalog_map ≡ some v
    → (60 < v.now) × (v.now ≤ 1060)
enrolled_times k v t =
    let here : get k enrolled.catalog_map
        ≡ (if camera == k then some enrolment else get k init.catalog_map) =
      make_lem enrolment init k init-IsServiceValid.catalogs in
    let e : (if camera == k then some enrolment else none) ≡ some v =
      ap (λ o. if camera == k then some enrolment else o) (sym (init-empty k)) ∙ sym here ∙ t in
    subst (λ (c : CatalogLoopReq). (60 < c.now) × (c.now ≤ 1060)) (the_one (camera == k) v e)
      (omega arith, omega arith)

catalog_tick_silent_example : catalog_tick 60 in_place 1060 enrolled ≡ enrolled
catalog_tick_silent_example =
    catalog_tick_silent 60 1060 in_place enrolled
      (make-valid enrolment init init-IsServiceValid).catalogs (omega arith) enrolled_times

abbrev no_password : SipConfig
no_password = record { use_password = false; password = [] }

abbrev any_digest : Digest
any_digest contents password = true

register_cases_example :
    Comes any_digest no_password greeting 1000 init
      (register any_digest no_password true greeting 1000 init)
register_cases_example = register_cases any_digest no_password true greeting 1000 init

greeting-expires : expire_of greeting.expires ≡ some (pos 3600)
unfolding expire_of atoi trim_space
greeting-expires = refl

register_panics_example :
    ((register any_digest no_password true greeting 1000 init).0 ≡ accepted (pos 3600))
    × (before_response any_digest no_password greeting ≡ panicked)
register_panics_example =
    register_panics any_digest no_password greeting 1000 init (pos 3600) refl refl (omega arith)
      greeting-expires

abbrev known : Text → RowAnswer
known id = row (record { device_unique_id = camera; online = 0; expire = 4600 })

keepalive_cases_example :
    ((keepalive greeting (some camera) known 1000 init).1 ≡ init)
    ⊎ (((keepalive greeting (some camera) known 1000 init).0 ≡ silent)
        × SignOfLife greeting
            (some camera)
            known
            1000
            init
            (keepalive greeting (some camera) known 1000 init).1)
keepalive_cases_example = keepalive_cases greeting (some camera) known 1000 init (omega arith)

abbrev setup : Setup
setup = record {
  digest_ok = any_digest;
  sip = no_password;
  heartbeat_timeout = 90;
  catalog_interval = 60;
}

abbrev an_hour : List Event
an_hour =
    keeps_alive greeting (some camera) known 1000
    ∷ takes_heartbeat
    ∷ takes_online
    ∷ takes_catalog
    ∷ ticks_online in_place in_place 1001
    ∷ ticks_heartbeat in_place 1090
    ∷ []

run-init-IsServiceValid_example : IsServiceValid (run setup an_hour init)
run-init-IsServiceValid_example = run-init-IsServiceValid setup an_hour
