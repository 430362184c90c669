-- ===== src/Gbs/Online.antt =====
-- core/app/sev/vss/internal/logic/gbs_proc/set_device_online_state_loop.go: reports of devices and
-- channels going on and off line are collected for a second and then written to the database.
pub mod Writes
use mathlib.Core.List.{append-nil, append_assoc, mem-cons, mem-cons_of_mem, not-mem-nil}
use mathlib.Core.Bool.{Bool-set, false≢true}
use mathlib.Core.Logic.Or
use skeyevss_backend_service.Prelude.{
  ℕ, zero, suc, ◌+◌, ◌≡◌, ◌≢◌, ◌↔◌, refl, sym, ap, ◌∙◌, fun_ext, Bool, true, false, not, ◌&&◌, ◌||◌,
  Option, none, some, List, [], ◌∷◌, ◌++◌, map, Mem, ◌==◌, arith, if◌then◌else◌, Bool-cases,
  Option-cases, inl, inr,
}
use skeyevss_backend_service.Text.{Text, text_comparable, text_beq_iff}
use skeyevss_backend_service.Arrays.{contains}
use skeyevss_backend_service.GoMap.{RangeOrder}
use skeyevss_backend_service.XMap.{XMap, set, get, clear, values_of}
use skeyevss_backend_service.XMap.Keyed.{
  any, opt_any, IsKeyed, get-set_keyed, set-IsKeyed, get-clear, any-values_of,
}
use skeyevss_backend_service.Gbs.{
  SameMaps, SameMaps-refl, SameMaps-trans, Service, Request, CatalogLoopReq, OnlineReq, DbUpdate,
  set_devices, set_channels_of, set_channels,
}

-- The receiving goroutine: `DeviceOnlineStateUpdateMap.Set(v.DeviceUniqueId, v)`.
unfoldable pub receive_online : Service → Service
receive_online s = elim s.online_queue [
  | [] ↦ s
  | v ∷ rest ↦ record s { online_map = set v.device_unique_id v s.online_map; online_queue = rest }
]

pub record Batches : Type 0 where
  pub channel_online : List ℕ
  pub channel_offline : List ℕ
  pub device_online : List Text
  pub device_offline : List Text

-- `item.ChannelUniqueId != ""`
abbrev pub is_channel : Text → Bool
is_channel [] = false
is_channel (c ∷ t) = true

-- The body of the loop over the collected reports.
pub sort_item : OnlineReq → Batches → Batches
sort_item item b =
    if is_channel item.channel_unique_id
    then (if item.online
        then record b { channel_online = b.channel_online ++ item.c_id ∷ [] }
        else record b { channel_offline = b.channel_offline ++ item.c_id ∷ [] })
    else (if item.online
        then record b { device_online = b.device_online ++ item.device_unique_id ∷ [] }
        else record b { device_offline = b.device_offline ++ item.device_unique_id ∷ [] })

pub sort_items : List OnlineReq → Batches → Batches
sort_items [] b = b
sort_items (item ∷ rest) b = sort_items rest (sort_item item b)

-- For each device going off line: a message that ends its catalog task.
pub end_catalogs : ℕ → List Text → List CatalogLoopReq
end_catalogs now [] = []
end_catalogs now (id ∷ ids) =
    record {
      req = record { id = id; source = []; authorization = []; expires = [] };
      online = false;
      now = now;
    }
    ∷ end_catalogs now ids

-- A failed call of the database service is only logged.
pub set_device : ℕ → List Text → Bool → Service → Service
unfolding end_catalogs
set_device now ids false s = record s {
  catalog_queue = s.catalog_queue ++ end_catalogs now ids;
  db = s.db ++ set_channels_of ids false ∷ set_devices ids false now ∷ [];
}
set_device now ids true s = record s { db = s.db ++ set_devices ids true now ∷ [] }

pub set_channel : List ℕ → Bool → Service → Service
set_channel ids online s = record s { db = s.db ++ set_channels ids online ∷ [] }

-- A goroutine of a tick: a call of setDevice or of setChannel.
pub data Update : Type 0 where
  devices_go : List Text → Bool → Update
  channels_go : List ℕ → Bool → Update

abbrev pub make_update : ℕ → Update → Service → Service
make_update now (devices_go ids online) s = set_device now ids online s
make_update now (channels_go ids online) s = set_channel ids online s

pub make_updates : ℕ → List Update → Service → Service
make_updates now [] s = s
make_updates now (u ∷ us) s = make_updates now us (make_update now u s)

-- `if len(ids) > 0`
abbrev pub when_any {ℓ} : {A : Type ℓ} → List A → Update → List Update
when_any [] u = []
when_any (x ∷ xs) u = u ∷ []

-- The goroutines that a tick starts.
abbrev pub updates_of : Batches → List Update
updates_of b =
    when_any b.device_online (devices_go b.device_online true)
    ++ (when_any b.device_offline (devices_go b.device_offline false)
        ++ (when_any b.channel_online (channels_go b.channel_online true)
            ++ when_any b.channel_offline (channels_go b.channel_offline false)))

abbrev pub none_yet : Batches
none_yet = record {
  channel_online = [];
  channel_offline = [];
  device_online = [];
  device_offline = [];
}

pub batches : RangeOrder (Text × OnlineReq) → Service → Batches
batches order s = sort_items (values_of order s.online_map) none_yet

-- One tick of the ticker at the time `now`, up to the last line of its body. The updates run in
-- goroutines of their own, here in any order, each in one step before the next event of the service.
pub flush : RangeOrder (Text × OnlineReq) → RangeOrder Update → ℕ → Service → Service
unfolding batches make_updates
flush order go now s = make_updates now (go.arrange (updates_of (batches order s))) s

-- `DeviceOnlineStateUpdateMap.Clear()`
pub clear_online : Service → Service
clear_online s = record s { online_map = clear s.online_map }

unfoldable pub online_tick :
    RangeOrder (Text × OnlineReq) → RangeOrder Update → ℕ → Service → Service
unfolding flush clear_online
online_tick order go now s = clear_online (flush order go now s)

contains-snoc :
    (k v : Text) (xs : List Text) → contains k (xs ++ v ∷ []) ≡ (contains k xs || (v == k))
unfolding contains
contains-snoc k v [] = ground arith
contains-snoc k v (x ∷ xs) = ground (arith, contains-snoc k v xs)

abbrev pub goes : Bool → OnlineReq → Bool
goes online item =
    not (is_channel item.channel_unique_id)
    && (elim online [ true ↦ item.online | false ↦ not item.online ])

pub goes_at : Bool → Text → OnlineReq → Bool
goes_at online k item = goes online item && (item.device_unique_id == k)

-- The batch of devices that go on line, or off line.
abbrev pub devices_of : Bool → Batches → List Text
devices_of true b = b.device_online
devices_of false b = b.device_offline

pub contains-sort_item :
    (o : Bool) (k : Text) (item : OnlineReq) (b : Batches)
    → contains k (devices_of o (sort_item item b))
      ≡ (contains k (devices_of o b) || goes_at o k item)
unfolding sort_item goes_at
contains-sort_item true k item b =
    ground (arith, contains-snoc k item.device_unique_id b.device_online)
contains-sort_item false k item b =
    ground (arith, contains-snoc k item.device_unique_id b.device_offline)

set_device-SameMaps :
    (now : ℕ) (ids : List Text) (o : Bool) (s : Service) → SameMaps s (set_device now ids o s)
unfolding set_device
set_device-SameMaps now ids true s = record {
  same_catalogs = refl;
  same_heartbeats = refl;
  same_reports = refl;
}
set_device-SameMaps now ids false s = record {
  same_catalogs = refl;
  same_heartbeats = refl;
  same_reports = refl;
}

set_channel-SameMaps : (ids : List ℕ) (o : Bool) (s : Service) → SameMaps s (set_channel ids o s)
unfolding set_channel
set_channel-SameMaps ids o s = record {
  same_catalogs = refl;
  same_heartbeats = refl;
  same_reports = refl;
}

make_updates-SameMaps :
    (now : ℕ) (us : List Update) (s : Service) → SameMaps s (make_updates now us s)
unfolding make_updates make_update
make_updates-SameMaps now [] s = SameMaps-refl s
make_updates-SameMaps now (devices_go ids o ∷ us) s =
    SameMaps-trans (set_device-SameMaps now ids o s)
      (make_updates-SameMaps now us (set_device now ids o s))
make_updates-SameMaps now (channels_go ids o ∷ us) s =
    SameMaps-trans (set_channel-SameMaps ids o s)
      (make_updates-SameMaps now us (set_channel ids o s))

pub flush-SameMaps :
    (order : RangeOrder (Text × OnlineReq)) (go : RangeOrder Update) (now : ℕ) (s : Service)
    → SameMaps s (flush order go now s)
unfolding flush
flush-SameMaps order go now s =
    make_updates-SameMaps now (go.arrange (updates_of (batches order s))) s
