-- ===== src/Gbs/Check/Answers.antt =====
-- What a pass over the streams makes of the answers of the checkers.
use mathlib.Core.List.{
  map-append, mem-append, mem-append_left, mem-append_right, mem-map_of_mem, exists_of_mem-map,
}
use mathlib.Core.List.Perm
use mathlib.Core.Logic.Or
use mathlib.Core.Logic.{∥∥₁_elim}
use skeyevss_backend_service.Prelude.{
  ◌≡◌, refl, sym, ap, ◌∙◌, subst, Bool, false, some, List, [], ◌∷◌, ◌++◌, map, Mem, length,
}
use skeyevss_backend_service.Text.{Text, text_comparable}
use skeyevss_backend_service.GoMap.{RangeOrder}
use skeyevss_backend_service.XMap.{get}
use skeyevss_backend_service.XMap.Keyed.{IsKeyed}
use skeyevss_backend_service.Gbs.{Service, OnlineReq}
use skeyevss_backend_service.Gbs.Check.{
  StreamItem, StreamGroups, Checkers, groups, report_of, reports, check, receive_all, key_of,
  receive_all_lem, arrives,
}

-- A stream of a group is asked of the checker of the group.
pub data Asked (c : Checkers) (g : StreamGroups) (item : StreamItem) (probe : Text → Bool)
    : Type 0 where
  onvif_rule : Mem item g.onvif → probe ≡ c.rtsp_online → Asked c g item probe
  source_rule : Mem item g.stream_source_rtsp → probe ≡ c.rtsp_online → Asked c g item probe
  rtmp_rule : Mem item g.rtmp → probe ≡ c.rtmp_online → Asked c g item probe
  http_rule : Mem item g.http → probe ≡ c.http_online → Asked c g item probe

-- A stream without a URL is off line.
abbrev pub answer : (Text → Bool) → Text → Bool
answer probe [] = false
answer probe (c ∷ url) = probe (c ∷ url)

report_of_lem :
    (probe : Text → Bool) (item : StreamItem)
    → report_of probe item ≡ record {
      device_unique_id = item.device_unique_id;
      channel_unique_id = item.channel_unique_id;
      c_id = item.c_id;
      online = answer probe item.stream_url;
    }
report_of_lem probe item =
    elim item.stream_url
      as (λ url. report_of probe (record item { stream_url = url }) ≡ record {
        device_unique_id = item.device_unique_id;
        channel_unique_id = item.channel_unique_id;
        c_id = item.c_id;
        online = answer probe url;
      }) [ [] ↦ refl | c ∷ url ↦ refl ]

reported_for :
    (c : Checkers) (g : StreamGroups) (item : StreamItem) (probe : Text → Bool)
    → Asked c g item probe
    → Mem (report_of probe item) (reports c g)
unfolding reports
reported_for c g item probe (onvif_rule t e) =
    subst (λ p. Mem (report_of p item) (reports c g)) (sym e)
      (mem-append_left (map (report_of c.http_online) g.http) (
        mem-append_left (map (report_of c.rtmp_online) g.rtmp)
          (mem-map_of_mem (report_of c.rtsp_online) (mem-append_left g.stream_source_rtsp t))))
reported_for c g item probe (source_rule t e) =
    subst (λ p. Mem (report_of p item) (reports c g)) (sym e)
      (mem-append_left (map (report_of c.http_online) g.http) (
        mem-append_left (map (report_of c.rtmp_online) g.rtmp)
          (mem-map_of_mem (report_of c.rtsp_online) (mem-append_right g.onvif t))))
reported_for c g item probe (rtmp_rule t e) =
    subst (λ p. Mem (report_of p item) (reports c g)) (sym e)
      (mem-append_left (map (report_of c.http_online) g.http) (
        mem-append_right (map (report_of c.rtsp_online) (g.onvif ++ g.stream_source_rtsp))
          (mem-map_of_mem (report_of c.rtmp_online) t)))
reported_for c g item probe (http_rule t e) =
    subst (λ p. Mem (report_of p item) (reports c g)) (sym e)
      (mem-append_right
        (map (report_of c.rtsp_online) (g.onvif ++ g.stream_source_rtsp)
          ++ map (report_of c.rtmp_online) g.rtmp)
        (mem-map_of_mem (report_of c.http_online) t))

OnlineReq_set : IsSet OnlineReq
OnlineReq_set = hlevel

module _ (c : Checkers) (g : StreamGroups) (x y : OnlineReq)
    (only : (item : StreamItem) (probe : Text → Bool)
      → Asked c g item probe
      → report_of probe item ≡ y
      → y ≡ x) where
  -- A report of a list of streams that one checker is asked about.
  from_map :
      (probe : Text → Bool) (items : List StreamItem)
      → ((item : StreamItem) → Mem item items → Asked c g item probe)
      → Mem y (map (report_of probe) items)
      → y ≡ x
  from_map probe items asked t =
      ∥∥₁_elim (exists_of_mem-map t) (OnlineReq_set y x) (λ w. only w.0 probe (asked w.0 w.1) w.2)

  from_rtsp : Mem y (map (report_of c.rtsp_online) (g.onvif ++ g.stream_source_rtsp)) → y ≡ x
  from_rtsp t =
      Or.elim (OnlineReq_set y x)
        (mem-append.0
          (subst (Mem y) (map-append (report_of c.rtsp_online) g.onvif g.stream_source_rtsp) t))
        (from_map c.rtsp_online g.onvif (λ i u. onvif_rule u refl))
        (from_map c.rtsp_online g.stream_source_rtsp (λ i u. source_rule u refl))

  from_reports : Mem y (reports c g) → y ≡ x
  unfolding reports
  from_reports t =
      Or.elim (OnlineReq_set y x) (mem-append.0 t)
        (λ early.
          Or.elim (OnlineReq_set y x) (mem-append.0 early) from_rtsp
            (from_map c.rtmp_online g.rtmp (λ i u. rtmp_rule u refl)))
        (from_map c.http_online g.http (λ i u. http_rule u refl))

-- Where no report waits and the map of the online loop is live and keyed by device, after a pass
-- whose reports are all received, in whatever order they were sent, the map holds for a device that
-- has one stream only its channel, and that it is on line exactly when the stream has a URL for
-- which the checker of its group, that of RTSP for ONVIF and RTSP sources, says so.
pub check_lem :
    (order : RangeOrder OnlineReq) (c : Checkers) (g : StreamGroups) (s : Service)
    (item : StreamItem) (probe : Text → Bool)
    → s.online_queue ≡ []
    → IsKeyed key_of s.online_map
    → Asked c g item probe
    → ((other : StreamItem) (its_probe : Text → Bool)
        → Asked c g other its_probe
        → other.device_unique_id ≡ item.device_unique_id
        → (other ≡ item) × (its_probe ≡ probe))
    → get item.device_unique_id
        (receive_all (length (order.arrange (reports c g))) (check order c (groups g) s)).online_map
      ≡ some (record {
        device_unique_id = item.device_unique_id;
        channel_unique_id = item.channel_unique_id;
        c_id = item.c_id;
        online = answer probe item.stream_url;
      })
unfolding check
check_lem order c g s item probe no_queue keyed asked only =
    let l = order.arrange (reports c g) in
    let x = report_of probe item in
    let sent : Service = record s { online_queue = s.online_queue ++ l } in
    let alone : (y : OnlineReq)
        → Mem y (reports c g)
        → y.device_unique_id ≡ x.device_unique_id
        → y ≡ x =
      λ y t same.
        from_reports c g x y
          (λ other its_probe its eq.
            let e = only other its_probe its (ap key_of eq ∙ same) in
            sym eq ∙ ap (λ p. report_of p other) e.1 ∙ ap (report_of probe) e.0)
          t in
    ap (λ a. get x.device_unique_id a.online_map)
      (receive_all_lem l sent (ap (λ q. q ++ l) no_queue))
    ∙ arrives x l s.online_map keyed
        (λ y u. alone y ((Perm.mem_iff (order.arrange-perm (reports c g))).0 u))
        ((Perm.mem_iff (order.arrange-perm (reports c g))).1 (reported_for c g item probe asked))
    ∙ ap some (report_of_lem probe item)
