-- ===== src/Gbs/Check.antt =====
-- core/app/sev/vss/internal/logic/gbs_proc/check_device_online_state_loop.go: the state of streams
-- that are pulled. The RPC call, and the checkers of the media servers, are parameters; the
-- goroutines of one pass send their reports in any order.
pub mod Answers
pub mod Tests
use mathlib.Core.List.{
  map-append, mem-append, mem-append_left, mem-append_right, mem-map_of_mem, exists_of_mem-map,
  mem-cons_self, mem-cons_of_mem, not-mem-nil, eq-or-mem_of_mem-cons, Mem-prop,
}
use mathlib.Core.Bool.{false≢true}
use mathlib.Core.List.Perm
use mathlib.Core.Logic.Or
use mathlib.Core.Logic.{∥∥₁_elim}
use skeyevss_backend_service.Prelude.{
  ℕ, zero, suc, ◌+◌, ◌≡◌, ◌≢◌, refl, sym, ap, ◌∙◌, subst, Bool, true, false, not, ◌&&◌, Option,
  none, some, List, [], ◌∷◌, ◌++◌, map, Mem, Perm, ◌==◌, arith, if◌then◌else◌, length, length-map,
  Bool-cases, inl, inr,
}
use skeyevss_backend_service.Text.{Text, text_comparable, text_beq, text_beq_iff}
use skeyevss_backend_service.GoMap.{RangeOrder}
use skeyevss_backend_service.XMap.{XMap, set, get}
use skeyevss_backend_service.XMap.Keyed.{get-set_keyed, set-IsKeyed, IsKeyed}
use skeyevss_backend_service.Gbs.{Service, OnlineReq}
use skeyevss_backend_service.Gbs.Online.{receive_online}

-- types.RtspStreamGroupItem
pub record StreamItem : Type 0 where
  pub c_id : ℕ
  pub channel_unique_id : Text
  pub device_unique_id : Text
  pub stream_url : Text

-- types.RtspStreamGroupResp
pub record StreamGroups : Type 0 where
  pub rtmp : List StreamItem
  pub onvif : List StreamItem
  pub stream_source_rtsp : List StreamItem
  pub http : List StreamItem

-- The answer of the RPC call: an error, no data, or data.
pub data GroupsAnswer : Type 0 where
  groups_failed : GroupsAnswer
  no_groups : GroupsAnswer
  groups : StreamGroups → GroupsAnswer

-- Whether a checker answers for a URL that the stream is on line.
pub record Checkers : Type 0 where
  pub rtsp_online : Text → Bool
  pub rtmp_online : Text → Bool
  pub http_online : Text → Bool

abbrev pub is_url : Text → Bool
is_url [] = false
is_url (c ∷ s) = true

-- What the goroutine of an item sends.
abbrev pub report_of : (Text → Bool) → StreamItem → OnlineReq
report_of online item = record {
  device_unique_id = item.device_unique_id;
  channel_unique_id = item.channel_unique_id;
  c_id = item.c_id;
  online = is_url item.stream_url && online item.stream_url;
}

-- The reports of a pass, one for each item.
unfoldable pub reports : Checkers → StreamGroups → List OnlineReq
reports c g =
    map (report_of c.rtsp_online) (g.onvif ++ g.stream_source_rtsp)
    ++ map (report_of c.rtmp_online) g.rtmp
    ++ map (report_of c.http_online) g.http

-- check, with the order in which the reports are sent.
unfoldable pub check : RangeOrder OnlineReq → Checkers → GroupsAnswer → Service → Service
check order c groups_failed s = s
check order c no_groups s = s
check order c (groups g) s = record s {
  online_queue = s.online_queue ++ order.arrange (reports c g);
}

-- A tick of proc: no pass starts while one runs.
pub starts_check : Bool → Bool
starts_check executing = not executing

-- The receiving goroutine of the online loop, as often as it takes to empty the channel.
pub receive_all : ℕ → Service → Service
receive_all zero s = s
receive_all (suc n) s = receive_all n (receive_online s)

-- The map after messages.
abbrev pub set_all : List OnlineReq → Option (XMap Text OnlineReq) → Option (XMap Text OnlineReq)
set_all [] m = m
set_all (v ∷ l) m = set_all l (set v.device_unique_id v m)

pub receive_all_lem :
    (l : List OnlineReq) (s : Service)
    → s.online_queue ≡ l
    → receive_all (length l) s ≡ record s { online_map = set_all l s.online_map; online_queue = [] }
unfolding receive_all receive_online
receive_all_lem [] s eq = ap (λ q. record s { online_queue = q }) eq
receive_all_lem (v ∷ l) s eq =
    let later : Service = record s {
      online_map = set v.device_unique_id v s.online_map;
      online_queue = l;
    } in
    let taken : receive_online s ≡ later = rw eq refl in
    ap (receive_all (length l)) taken ∙ receive_all_lem l later refl

abbrev pub key_of : OnlineReq → Text
key_of v = v.device_unique_id

-- A report stays when the others of its device are the same.
stays :
    (x : OnlineReq) (l : List OnlineReq) (m : Option (XMap Text OnlineReq))
    → IsKeyed key_of m
    → ((y : OnlineReq) → Mem y l → y.device_unique_id ≡ x.device_unique_id → y ≡ x)
    → get x.device_unique_id m ≡ some x
    → get x.device_unique_id (set_all l m) ≡ some x
stays x [] m keyed only here = here
stays x (v ∷ l) m keyed only here =
    stays x l (set v.device_unique_id v m) (set-IsKeyed key_of v m keyed)
      (λ y t. only y (mem-cons_of_mem v t))
      (get-set_keyed key_of v x.device_unique_id m keyed
        ∙ elim (Bool-cases (text_beq v.device_unique_id x.device_unique_id)) [
          | inl same ↦ rw same (
              ap some (
                only v mem-cons_self ((text_beq_iff v.device_unique_id x.device_unique_id).0 same)))
          | inr other ↦ rw other here
        ])

pub arrives :
    (x : OnlineReq) (l : List OnlineReq) (m : Option (XMap Text OnlineReq))
    → IsKeyed key_of m
    → ((y : OnlineReq) → Mem y l → y.device_unique_id ≡ x.device_unique_id → y ≡ x)
    → Mem x l
    → get x.device_unique_id (set_all l m) ≡ some x
arrives x [] m keyed only t = absurd (not-mem-nil t)
arrives x (v ∷ l) m keyed only t =
    let after = set v.device_unique_id v m in
    let later : (y : OnlineReq) → Mem y l → y.device_unique_id ≡ x.device_unique_id → y ≡ x =
      λ y u. only y (mem-cons_of_mem v u) in
    elim (Bool-cases (text_beq v.device_unique_id x.device_unique_id)) [
      | inl same ↦
          let eq : v ≡ x =
            only v mem-cons_self ((text_beq_iff v.device_unique_id x.device_unique_id).0 same) in
          stays x l after (set-IsKeyed key_of v m keyed) later
            (get-set_keyed key_of v x.device_unique_id m keyed ∙ rw same (ap some eq))
      | inr other ↦ arrives x l after (set-IsKeyed key_of v m keyed) later (
          Or.elim Mem-prop (eq-or-mem_of_mem-cons t)
            (λ here. absurd (
              false≢true (
                sym other
                ∙ (text_beq_iff v.device_unique_id x.device_unique_id).1 (ap key_of (sym here)))))
            (λ there. there))
    ]
