-- ===== src/Gbs/System/Silence.antt =====
-- What the heartbeat loop makes of a device that falls silent: the receiving goroutine of
-- core/app/sev/vss/internal/logic/gbs_proc/heartbeat_offline_loop.go, then a tick.
use skeyevss_backend_service.Prelude.{
  ℕ, ◌≡◌, ◌↔◌, refl, ap, ◌∙◌, Bool, true, false, not, none, some, List, ◌∷◌, ◌++◌, Mem,
  if◌then◌else◌, pos,
}
use skeyevss_backend_service.Text.{Text, text_comparable}
use skeyevss_backend_service.GoMap.{RangeOrder}
use skeyevss_backend_service.XMap.{get}
use skeyevss_backend_service.XMap.Keyed.{opt_any}
use skeyevss_backend_service.Gbs.{Service, HeartbeatLoopReq, OnlineReq}
use skeyevss_backend_service.Gbs.Heartbeat.{
  receive_heartbeat, is_due, is_fresh, offline, heartbeat_tick, heartbeat_tick_lem, is_due-is_fresh,
  get-receive_heartbeat,
}
use skeyevss_backend_service.Gbs.System.{IsServiceValid, receive_heartbeat-valid}

if-not : {A : Type 0} (b : Bool) (x y : A) → (if not b then x else y) ≡ (if b then y else x)
if-not true x y = refl
if-not false x y = refl

not-true : (b : Bool) → (not b ≡ true) ↔ (b ≡ false)
not-true true = (λ h. cc, λ h. cc)
not-true false = (λ h. refl, λ h. refl)

-- A device whose heartbeat `v` has been taken from the queue of a valid state is looked at by the
-- tick at `now`: within the timeout after the heartbeat, and up to ten seconds past the end of the
-- registration, its entry stays and it is not reported; otherwise its entry goes and it is
-- reported offline.
pub silent_device :
    (timeout now expire_at : ℕ) (order : RangeOrder (Text × HeartbeatLoopReq)) (s : Service)
    (v : HeartbeatLoopReq) (rest : List HeartbeatLoopReq)
    → IsServiceValid s
    → s.heartbeat_queue ≡ v ∷ rest
    → v.register_expire_at ≡ pos expire_at
    → let before = receive_heartbeat s in
      let after = heartbeat_tick timeout order now before in
      let fresh = is_fresh timeout now expire_at v in
      (get v.id after.heartbeat_map ≡ (if fresh then some v else none))
      × ((sent : List OnlineReq) × (after.online_queue ≡ before.online_queue ++ sent)
          × ((fresh ≡ false) ↔ Mem (offline v.id) sent))
silent_device timeout now expire_at order s v rest valid e h =
    let w = receive_heartbeat-valid s valid in
    let there = get-receive_heartbeat s v rest e valid.heartbeats in
    let due : opt_any (is_due timeout now) (get v.id (receive_heartbeat s).heartbeat_map)
        ≡ not (is_fresh timeout now expire_at v) =
      ap (opt_any (is_due timeout now)) there ∙ is_due-is_fresh timeout now expire_at v h in
    let main = heartbeat_tick_lem timeout now order (receive_heartbeat s) v.id w.heartbeats in
    let reported = main.1.2 in
    let flag = not-true (is_fresh timeout now expire_at v) in
    (
      main.0 ∙ rw (due, there) (if-not (is_fresh timeout now expire_at v) none (some v)),
      (
        main.1.0,
        main.1.1,
        (λ stale. reported.0 (due ∙ flag.1 stale), λ m. flag.0 (rw (← due) (reported.1 m))),
      ),
    )
