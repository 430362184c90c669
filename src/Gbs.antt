-- ===== src/Gbs.antt =====
-- The GB28181 device state of the VSS server: the service context of
-- core/app/sev/vss/internal/types/types.go, the messages between its goroutines, and what it asks
-- of the database. A Go channel is a queue, a send appends to it, and the goroutine that receives
-- takes the head. Unix times are natural numbers; a registration may carry a negative lifetime.
pub mod Heartbeat
pub mod Online
pub mod Catalog
pub mod Register
pub mod Keepalive
pub mod Check
pub mod System
pub mod Tests
use skeyevss_backend_service.Prelude.{
  ◌≡◌, refl, ◌∙◌, ℕ, Bool, true, false, Option, none, some, List, [], ◌∷◌, ◌++◌, ℤ, pos,
}
use skeyevss_backend_service.Text.{Text}
use skeyevss_backend_service.XMap.{XMap, new}

-- A header of a SIP request, as gosip hands it over: its contents, if it is a generic header.
pub data AuthHeader : Type 0 where
  generic : Text → AuthHeader
  other : AuthHeader

-- types.Request: what the handlers read of a SIP request. `expires` lists the headers "Expires"
-- as gosip prints them.
pub record Request : Type 0 where
  pub id : Text
  pub source : Text
  pub authorization : List AuthHeader
  pub expires : List Text

-- types.SipCatalogLoopReq
pub record CatalogLoopReq : Type 0 where
  pub req : Request
  pub online : Bool
  pub now : ℕ

-- types.SipHeartbeatLoopReq
pub record HeartbeatLoopReq : Type 0 where
  pub id : Text
  pub now : ℕ
  pub register_expire_at : ℤ

-- types.DCOnlineReq
pub record OnlineReq : Type 0 where
  pub device_unique_id : Text
  pub channel_unique_id : Text
  pub c_id : ℕ
  pub online : Bool

-- The updates that are sent to the database service.
pub data DbUpdate : Type 0 where
  -- DeviceUpdate: online, keepaliveAt, and onlineAt or offlineAt, for devices; the time stands for
  -- the same moment in milliseconds
  set_devices : List Text → Bool → ℕ → DbUpdate
  -- ChannelUpdate: online, for all channels of devices
  set_channels_of : List Text → Bool → DbUpdate
  -- ChannelUpdate: online, for channels
  set_channels : List ℕ → Bool → DbUpdate

-- devices.Devices, the columns that a registration writes.
pub record DeviceRecord : Type 0 where
  pub device_unique_id : Text
  pub name : Text
  pub address : Text
  pub state : ℕ
  pub online : ℕ
  pub expire : ℕ
  pub register_at : ℕ

-- What a registration leaves to a goroutine that sleeps for a second.
pub record Delayed : Type 0 where
  pub req : Request
  pub now : ℕ
  pub expire : ℤ

-- types.ServiceContext: the maps, the channels, and the calls made of the database service.
pub record Service : Type 0 where
  pub catalog_map : Option (XMap Text CatalogLoopReq)
  pub heartbeat_map : Option (XMap Text HeartbeatLoopReq)
  pub online_map : Option (XMap Text OnlineReq)
  pub catalog_queue : List CatalogLoopReq
  pub heartbeat_queue : List HeartbeatLoopReq
  pub online_queue : List OnlineReq
  pub send_catalog : List Request
  pub send_device_info : List Request
  pub delayed : List Delayed
  pub db : List DbUpdate
  pub upserts : List DeviceRecord

unfoldable pub init : Service
init = record {
  catalog_map = some (new (pos 0));
  heartbeat_map = some (new (pos 0));
  online_map = some (new (pos 0));
  catalog_queue = [];
  heartbeat_queue = [];
  online_queue = [];
  send_catalog = [];
  send_device_info = [];
  delayed = [];
  db = [];
  upserts = [];
}

-- Two states with the same three maps.
pub record SameMaps (s t : Service) : Type 0 where
  pub same_catalogs : t.catalog_map ≡ s.catalog_map
  pub same_heartbeats : t.heartbeat_map ≡ s.heartbeat_map
  pub same_reports : t.online_map ≡ s.online_map

pub SameMaps-refl : (s : Service) → SameMaps s s
SameMaps-refl s = record { same_catalogs = refl; same_heartbeats = refl; same_reports = refl }

pub SameMaps-trans : {s t u : Service} → SameMaps s t → SameMaps t u → SameMaps s u
SameMaps-trans a b = record {
  same_catalogs = b.same_catalogs ∙ a.same_catalogs;
  same_heartbeats = b.same_heartbeats ∙ a.same_heartbeats;
  same_reports = b.same_reports ∙ a.same_reports;
}
