-- ===== src/Gbs/System.antt =====
-- The goroutines and handlers of the GB28181 service as one machine: each event is one step, and a
-- run is any interleaving of them.
pub mod Silence
use skeyevss_backend_service.Prelude.{
  ℕ, ◌≡◌, refl, sym, ap, subst, Bool, true, false, Option, none, some, List, [], ◌∷◌, ◌++◌,
  if◌then◌else◌, arith, pos, Bool-cases, inl, inr,
}
use skeyevss_backend_service.Text.{Text, text_comparable}
use skeyevss_backend_service.GoMap.{RangeOrder}
use skeyevss_backend_service.XMap.{XMap, new, get, set, remove, clear, values_of}
use skeyevss_backend_service.Prelude.{List-cases}
use skeyevss_backend_service.XMap.Keyed.{
  IsKeyed, set-IsKeyed, remove-IsKeyed, clear-IsKeyed, new-IsKeyed,
}
use skeyevss_backend_service.Gbs.{
  Service, SameMaps, SameMaps-refl, SameMaps-trans, Request, CatalogLoopReq, HeartbeatLoopReq,
  OnlineReq, init,
}
use skeyevss_backend_service.Gbs.Heartbeat.{
  receive_heartbeat, is_due, take_offline, heartbeat_items, heartbeat_tick,
}
use skeyevss_backend_service.Gbs.Online.{
  Update, receive_online, set_device, set_channel, when_any, batches, flush, clear_online,
  online_tick, flush-SameMaps,
}
use skeyevss_backend_service.Gbs.Catalog.{
  id_of, make, receive_catalog, is_wanted, catalog_items, catalog_tick,
}
use skeyevss_backend_service.Gbs.Register.{
  SipConfig, Digest, register, run_delayed, run_delayed-SameMaps,
}
use skeyevss_backend_service.Gbs.Register.Outcomes.{register-SameMaps}
use skeyevss_backend_service.Gbs.Keepalive.{RowAnswer, keepalive, keepalive-SameMaps}

-- What the process is set up with.
pub record Setup : Type 0 where
  pub digest_ok : Digest
  pub sip : SipConfig
  pub heartbeat_timeout : ℕ
  pub catalog_interval : ℕ

pub data Event : Type 0 where
  registers : Bool → Request → ℕ → Event
  wakes : Event
  keeps_alive : Request → Option Text → (Text → RowAnswer) → ℕ → Event
  takes_heartbeat takes_online takes_catalog : Event
  ticks_heartbeat : RangeOrder (Text × HeartbeatLoopReq) → ℕ → Event
  ticks_online : RangeOrder (Text × OnlineReq) → RangeOrder Update → ℕ → Event
  ticks_catalog : RangeOrder (Text × CatalogLoopReq) → ℕ → Event

pub step : Setup → Event → Service → Service
step c (registers stored req now) s = (register c.digest_ok c.sip stored req now s).1
step c wakes s = run_delayed s
step c (keeps_alive req message answer now) s = (keepalive req message answer now s).1
step c takes_heartbeat s = receive_heartbeat s
step c takes_online s = receive_online s
step c takes_catalog s = receive_catalog s
step c (ticks_heartbeat order now) s = heartbeat_tick c.heartbeat_timeout order now s
step c (ticks_online order go now) s = online_tick order go now s
step c (ticks_catalog order now) s = catalog_tick c.catalog_interval order now s

pub run : Setup → List Event → Service → Service
run c [] s = s
run c (e ∷ es) s = run c es (step c e s)

-- The three maps are live and hold every entry under its own device.
pub record IsServiceValid (s : Service) : Type 0 where
  pub catalogs : IsKeyed id_of s.catalog_map
  pub heartbeats : IsKeyed (λ (v : HeartbeatLoopReq). v.id) s.heartbeat_map
  pub reports : IsKeyed (λ (v : OnlineReq). v.device_unique_id) s.online_map

moved : (s t : Service) → SameMaps s t → IsServiceValid s → IsServiceValid t
moved s t m v = record {
  catalogs = subst (IsKeyed id_of) (sym m.same_catalogs) v.catalogs;
  heartbeats =
      subst (IsKeyed (λ (x : HeartbeatLoopReq). x.id)) (sym m.same_heartbeats) v.heartbeats;
  reports = subst (IsKeyed (λ (x : OnlineReq). x.device_unique_id)) (sym m.same_reports) v.reports;
}

pub receive_heartbeat-valid :
    (s : Service) → IsServiceValid s → IsServiceValid (receive_heartbeat s)
unfolding receive_heartbeat
receive_heartbeat-valid s v = elim (List-cases s.heartbeat_queue) [
  | inl e ↦ rw (e, receive_heartbeat) v
  | inr (x, rest, e) ↦
      rw (e, receive_heartbeat)
        (record {
          catalogs = v.catalogs;
          heartbeats = set-IsKeyed (λ (y : HeartbeatLoopReq). y.id) x s.heartbeat_map v.heartbeats;
          reports = v.reports;
        })
]

pub receive_online-valid : (s : Service) → IsServiceValid s → IsServiceValid (receive_online s)
unfolding receive_online
receive_online-valid s v = elim (List-cases s.online_queue) [
  | inl e ↦ rw (e, receive_online) v
  | inr (x, rest, e) ↦
      rw (e, receive_online)
        (record {
          catalogs = v.catalogs;
          heartbeats = v.heartbeats;
          reports = set-IsKeyed (λ (y : OnlineReq). y.device_unique_id) x s.online_map v.reports;
        })
]

abbrev entered : CatalogLoopReq → Service → Service
entered x s = record s { catalog_map = set x.req.id x s.catalog_map }

abbrev left : CatalogLoopReq → Service → Service
left x s = record s { catalog_map = remove x.req.id s.catalog_map }

enters-make : (x : CatalogLoopReq) (s : Service) → x.online ≡ true → make x s ≡ entered x s
unfolding make
enters-make x s e = ap (λ b. if b then entered x s else left x s) e

leaves-make : (x : CatalogLoopReq) (s : Service) → x.online ≡ false → make x s ≡ left x s
unfolding make
leaves-make x s e = ap (λ b. if b then entered x s else left x s) e

pub make-valid : (x : CatalogLoopReq) (s : Service) → IsServiceValid s → IsServiceValid (make x s)
unfolding make
make-valid x s v = elim (Bool-cases x.online) [
  | inl there ↦ subst IsServiceValid (sym (enters-make x s there)) (record {
    catalogs = set-IsKeyed id_of x s.catalog_map v.catalogs;
    heartbeats = v.heartbeats;
    reports = v.reports;
  })
  | inr gone ↦ subst IsServiceValid (sym (leaves-make x s gone)) (record {
    catalogs = remove-IsKeyed id_of x.req.id s.catalog_map v.catalogs;
    heartbeats = v.heartbeats;
    reports = v.reports;
  })
]

pub receive_catalog-valid : (s : Service) → IsServiceValid s → IsServiceValid (receive_catalog s)
unfolding receive_catalog
receive_catalog-valid s v = elim (List-cases s.catalog_queue) [
  | inl e ↦ rw (e, receive_catalog) v
  | inr (x, rest, e) ↦
      rw (e, receive_catalog)
        (make-valid x (record s { catalog_queue = rest })
          (record { catalogs = v.catalogs; heartbeats = v.heartbeats; reports = v.reports }))
]

heartbeat_items-valid :
    (timeout now : ℕ) (l : List HeartbeatLoopReq) (s : Service)
    → IsServiceValid s
    → IsServiceValid (heartbeat_items timeout now l s)
unfolding heartbeat_items
heartbeat_items-valid timeout now [] s v = v
heartbeat_items-valid timeout now (x ∷ l) s v = elim (Bool-cases (is_due timeout now x)) [
  | inl due ↦
      rw (due, heartbeat_items)
        (heartbeat_items-valid timeout now l (take_offline x s) (record {
          catalogs = v.catalogs;
          heartbeats =
              remove-IsKeyed (λ (y : HeartbeatLoopReq). y.id) x.id s.heartbeat_map v.heartbeats;
          reports = v.reports;
        }))
  | inr fresh ↦ rw (fresh, heartbeat_items) (heartbeat_items-valid timeout now l s v)
]

heartbeat_tick-valid :
    (timeout : ℕ) (order : RangeOrder (Text × HeartbeatLoopReq)) (now : ℕ) (s : Service)
    → IsServiceValid s
    → IsServiceValid (heartbeat_tick timeout order now s)
unfolding heartbeat_tick
heartbeat_tick-valid timeout order now s v =
    heartbeat_items-valid timeout now (values_of order s.heartbeat_map) s v

online_tick-valid :
    (order : RangeOrder (Text × OnlineReq)) (go : RangeOrder Update) (now : ℕ) (s : Service)
    → IsServiceValid s
    → IsServiceValid (online_tick order go now s)
unfolding online_tick
online_tick-valid order go now s v =
    let t = flush order go now s in
    let w = moved s t (flush-SameMaps order go now s) v in
    record {
      catalogs = w.catalogs;
      heartbeats = w.heartbeats;
      reports = clear-IsKeyed (λ (y : OnlineReq). y.device_unique_id) t.online_map w.reports;
    }

abbrev ask : CatalogLoopReq → Service → Service
ask x s = record s { send_catalog = s.send_catalog ++ x.req ∷ [] }

ask-SameMaps : (x : CatalogLoopReq) (s : Service) → SameMaps s (ask x s)
ask-SameMaps x s = record { same_catalogs = refl; same_heartbeats = refl; same_reports = refl }

catalog_items-SameMaps :
    (interval now : ℕ) (l : List CatalogLoopReq) (s : Service)
    → SameMaps s (catalog_items interval now l s)
unfolding catalog_items
catalog_items-SameMaps interval now [] s = SameMaps-refl s
catalog_items-SameMaps interval now (x ∷ l) s = elim (Bool-cases (is_wanted interval now x)) [
  | inl wanted ↦
      rw (wanted, catalog_items)
        (SameMaps-trans (ask-SameMaps x s) (catalog_items-SameMaps interval now l (ask x s)))
  | inr not_now ↦ rw (not_now, catalog_items) (catalog_items-SameMaps interval now l s)
]

catalog_tick-valid :
    (interval : ℕ) (order : RangeOrder (Text × CatalogLoopReq)) (now : ℕ) (s : Service)
    → IsServiceValid s
    → IsServiceValid (catalog_tick interval order now s)
unfolding catalog_tick
catalog_tick-valid interval order now s v =
    moved s _ (catalog_items-SameMaps interval now (values_of order s.catalog_map) s) v

-- Every event keeps the maps live, and every entry under its own device.
pub step-IsServiceValid :
    (c : Setup) (e : Event) (s : Service) → IsServiceValid s → IsServiceValid (step c e s)
unfolding step
step-IsServiceValid c (registers stored req now) s v =
    moved s _ (register-SameMaps c.digest_ok c.sip stored req now s) v
step-IsServiceValid c wakes s v = moved s _ (run_delayed-SameMaps s) v
step-IsServiceValid c (keeps_alive req message answer now) s v =
    moved s _ (keepalive-SameMaps req message answer now s) v
step-IsServiceValid c takes_heartbeat s v = receive_heartbeat-valid s v
step-IsServiceValid c takes_online s v = receive_online-valid s v
step-IsServiceValid c takes_catalog s v = receive_catalog-valid s v
step-IsServiceValid c (ticks_heartbeat order now) s v =
    heartbeat_tick-valid c.heartbeat_timeout order now s v
step-IsServiceValid c (ticks_online order go now) s v = online_tick-valid order go now s v
step-IsServiceValid c (ticks_catalog order now) s v =
    catalog_tick-valid c.catalog_interval order now s v

run-IsServiceValid :
    (c : Setup) (es : List Event) (s : Service) → IsServiceValid s → IsServiceValid (run c es s)
unfolding run
run-IsServiceValid c [] s v = v
run-IsServiceValid c (e ∷ es) s v =
    run-IsServiceValid c es (step c e s) (step-IsServiceValid c e s v)

pub init-IsServiceValid : IsServiceValid init
unfolding init
init-IsServiceValid = record {
  catalogs = new-IsKeyed id_of;
  heartbeats = new-IsKeyed (λ (y : HeartbeatLoopReq). y.id);
  reports = new-IsKeyed (λ (y : OnlineReq). y.device_unique_id);
}

-- From the start of the server on, after any interleaving of registrations, heartbeats, messages
-- and ticks, the three maps are live and hold every entry under its own device.
pub run-init-IsServiceValid : (c : Setup) (es : List Event) → IsServiceValid (run c es init)
run-init-IsServiceValid c es = run-IsServiceValid c es init init-IsServiceValid
