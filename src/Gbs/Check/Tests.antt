-- ===== src/Gbs/Check/Tests.antt =====
-- A pass over one ONVIF stream that is on line.
use mathlib.Core.List.{mem-singleton, mem-cons_self, not-mem-nil}
use mathlib.Core.List.Perm
use skeyevss_backend_service.Prelude.{Bool, ◌≡◌, refl, true, false, some, [], ◌∷◌, length}
use skeyevss_backend_service.Text.{Text, bytes, text_comparable}
use skeyevss_backend_service.GoMap.{RangeOrder}
use skeyevss_backend_service.XMap.{get}
use skeyevss_backend_service.Gbs.{OnlineReq, init}
use skeyevss_backend_service.Gbs.System.{init-IsServiceValid}
use skeyevss_backend_service.Gbs.Check.{
  StreamItem, StreamGroups, Checkers, groups, reports, check, receive_all,
}
use skeyevss_backend_service.Gbs.Check.Answers.{
  Asked, onvif_rule, source_rule, rtmp_rule, http_rule, check_lem,
}

abbrev gate : StreamItem
gate = record {
  c_id = 7;
  channel_unique_id = bytes "c7";
  device_unique_id = bytes "gate";
  stream_url = bytes "rtsp://gate";
}

abbrev streams : StreamGroups
streams = record { rtmp = []; onvif = gate ∷ []; stream_source_rtsp = []; http = [] }

abbrev checkers : Checkers
checkers = record { rtsp_online = λ u. true; rtmp_online = λ u. false; http_online = λ u. false }

abbrev in_order : RangeOrder OnlineReq
in_order = record { arrange = λ l. l; arrange-perm = Perm.refl }

StreamItem_set : IsSet StreamItem
StreamItem_set = hlevel

-- No other stream is asked for.
only_gate :
    (other : StreamItem) (probe : Text → Bool)
    → Asked checkers streams other probe
    → other.device_unique_id ≡ bytes "gate"
    → (other ≡ gate) × (probe ≡ checkers.rtsp_online)
only_gate other probe (onvif_rule t e) same = ((mem-singleton StreamItem_set).0 t, e)
only_gate other probe (source_rule t e) same = absurd (not-mem-nil t)
only_gate other probe (rtmp_rule t e) same = absurd (not-mem-nil t)
only_gate other probe (http_rule t e) same = absurd (not-mem-nil t)

check_lem_example :
    get
      (bytes "gate")
      (receive_all
        (length (reports checkers streams))
        (check in_order checkers (groups streams) init)).online_map
    ≡ some (record {
      device_unique_id = bytes "gate";
      channel_unique_id = bytes "c7";
      c_id = 7;
      online = true;
    })
unfolding init
check_lem_example =
    check_lem in_order checkers streams init gate checkers.rtsp_online refl
      init-IsServiceValid.reports (onvif_rule mem-cons_self refl) only_gate
