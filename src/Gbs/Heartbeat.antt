-- ===== src/Gbs/Heartbeat.antt =====
-- core/app/sev/vss/internal/logic/gbs_proc/heartbeat_offline_loop.go: devices that stay silent, or
-- whose registration has run out, are reported offline once a second.
use mathlib.Core.List.{append-nil, append_assoc, mem-cons, mem-cons_of_mem, not-mem-nil}
use mathlib.Core.Logic.Or
use mathlib.Core.Bool.{Bool-set}
use skeyevss_backend_service.Prelude.{
  and-true, ℕ, ◌+◌, ◌≡◌, ◌↔◌, refl, sym, ap, ◌∙◌, Bool, true, false, ◌&&◌, ◌||◌, none, some, List,
  [], ◌∷◌, ◌++◌, Mem, ◌==◌, arith, if◌then◌else◌, ltb, leb, not, beq_refl, Bool-cases, Option-cases,
  inl, inr, pos, ◌+ℤ◌, ltb_ℤ,
}
use skeyevss_backend_service.Text.{Text, text_comparable, text_beq_iff}
use skeyevss_backend_service.GoMap.{RangeOrder}
use skeyevss_backend_service.XMap.{set, get, remove, values_of}
use skeyevss_backend_service.XMap.Keyed.{
  any, opt_any, IsKeyed, get-remove, get-set_keyed, any-values_of,
}
use skeyevss_backend_service.Gbs.{Service, HeartbeatLoopReq, OnlineReq}

-- The receiving goroutine: `SipHeartbeatLoopMap.Set(v.ID, v)` for the next message.
unfoldable pub receive_heartbeat : Service → Service
receive_heartbeat s = elim s.heartbeat_queue [
  | [] ↦ s
  | v ∷ rest ↦ record s { heartbeat_map = set v.id v s.heartbeat_map; heartbeat_queue = rest }
]

-- The registration ran out more than ten seconds ago, or the last heartbeat is too old.
pub is_due : ℕ → ℕ → HeartbeatLoopReq → Bool
is_due timeout now item =
    ltb_ℤ (item.register_expire_at +ℤ pos 10) (pos now) || leb (item.now + timeout) now

abbrev pub offline : Text → OnlineReq
offline id = record { device_unique_id = id; channel_unique_id = []; c_id = 0; online = false }

-- The map forgets the device, and a message reports it offline.
abbrev pub take_offline : HeartbeatLoopReq → Service → Service
take_offline item s = record s {
  heartbeat_map = remove item.id s.heartbeat_map;
  online_queue = s.online_queue ++ offline item.id ∷ [];
}

unfoldable pub heartbeat_items : ℕ → ℕ → List HeartbeatLoopReq → Service → Service
heartbeat_items timeout now [] s = s
heartbeat_items timeout now (item ∷ rest) s =
    heartbeat_items timeout now rest (if is_due timeout now item then take_offline item s else s)

-- One tick of the ticker, at the time `now`.
unfoldable pub heartbeat_tick : ℕ → RangeOrder (Text × HeartbeatLoopReq) → ℕ → Service → Service
heartbeat_tick timeout order now s = heartbeat_items timeout now (values_of order s.heartbeat_map) s

or-true : (a : Bool) {b : Bool} → b ≡ true → (a || b) ≡ true
or-true a h = ground arith

module _ (timeout now : ℕ) where
  due_at : Text → HeartbeatLoopReq → Bool
  due_at k item = is_due timeout now item && (item.id == k)

  map-heartbeat_items :
      (k : Text) (l : List HeartbeatLoopReq) (s : Service)
      → get k (heartbeat_items timeout now l s).heartbeat_map
        ≡ (if any (due_at k) l then none else get k s.heartbeat_map)
  unfolding heartbeat_items due_at
  map-heartbeat_items k [] s = refl
  map-heartbeat_items k (item ∷ l) s = elim (Bool-cases (is_due timeout now item)) [
    | inl due ↦
        ground (
          arith,
          map-heartbeat_items k l (take_offline item s),
          get-remove item.id k s.heartbeat_map,
        )
    | inr fresh ↦ rw (fresh, heartbeat_items) (map-heartbeat_items k l s)
  ]

  -- The messages that the loop sends.
  reports : List HeartbeatLoopReq → List OnlineReq
  reports [] = []
  reports (item ∷ rest) =
      let r = reports rest in if is_due timeout now item then offline item.id ∷ r else r

  queue-heartbeat_items :
      (l : List HeartbeatLoopReq) (s : Service)
      → (heartbeat_items timeout now l s).online_queue ≡ s.online_queue ++ reports l
  unfolding heartbeat_items reports
  queue-heartbeat_items [] s = sym (append-nil s.online_queue)
  queue-heartbeat_items (item ∷ l) s = elim (Bool-cases (is_due timeout now item)) [
    | inl due ↦
        rw (due, heartbeat_items)
          (queue-heartbeat_items l (take_offline item s)
            ∙ append_assoc s.online_queue (offline item.id ∷ []) (reports l))
    | inr fresh ↦ rw (fresh, heartbeat_items) (queue-heartbeat_items l s)
  ]

  mem-reports :
      (k : Text) (l : List HeartbeatLoopReq)
      → (any (due_at k) l ≡ true) ↔ Mem (offline k) (reports l)
  unfolding due_at reports
  mem-reports k [] = (λ h. cc, λ t. absurd (not-mem-nil t))
  mem-reports k (item ∷ l) =
      let ih = mem-reports k l in
      elim (Bool-cases (is_due timeout now item)) [
        | inl due ↦ rw due (
          λ h. elim (Bool-cases (item.id == k)) [
            | inl same ↦ mem-cons.1 (Or.inl (ap offline (sym ((text_beq_iff item.id k).0 same))))
            | inr different ↦ mem-cons_of_mem _ (ih.0 (rw different at h))
          ],
          λ t.
              Or.elim (Bool-set _ _) (mem-cons.0 t)
                (λ here. rw (
                  (text_beq_iff item.id k).1
                    (sym (ap (λ (r : OnlineReq). r.device_unique_id) here))))
                (λ there. or-true (item.id == k) (ih.1 there)),
        )
        | inr fresh ↦ rw fresh ih
      ]

  due_at-key : (k : Text) (v : HeartbeatLoopReq) → due_at k v ≡ true → v.id ≡ k
  unfolding due_at
  due_at-key k v h = (text_beq_iff v.id k).0 (ground arith)

  due_at-get :
      (s : Service) (k : Text)
      → IsKeyed (λ (v : HeartbeatLoopReq). v.id) s.heartbeat_map
      → opt_any (due_at k) (get k s.heartbeat_map)
        ≡ opt_any (is_due timeout now) (get k s.heartbeat_map)
  unfolding due_at
  due_at-get s k h = elim (Option-cases (get k s.heartbeat_map)) [
    | inl e ↦ rw e
    | inr (v, e) ↦ rw e (rw ((text_beq_iff v.id k).1 (h.keyed k v e)) (and-true _))
  ]

  -- Where every entry of the heartbeat map stands under its own device, one tick at `now`, in any
  -- order of the range: a device whose entry is due leaves the map and is reported offline; any
  -- other device keeps its entry and is not reported.
  pub heartbeat_tick_lem :
      (order : RangeOrder (Text × HeartbeatLoopReq)) (s : Service) (k : Text)
      → IsKeyed (λ (v : HeartbeatLoopReq). v.id) s.heartbeat_map
      → let due = opt_any (is_due timeout now) (get k s.heartbeat_map) in
        (get k (heartbeat_tick timeout order now s).heartbeat_map
          ≡ (if due then none else get k s.heartbeat_map))
        × ((sent : List OnlineReq) × ((heartbeat_tick timeout order now s).online_queue
              ≡ s.online_queue ++ sent)
            × ((due ≡ true) ↔ Mem (offline k) sent))
  unfolding heartbeat_tick
  heartbeat_tick_lem order s k h =
      let items = values_of order s.heartbeat_map in
      let e : any (due_at k) items ≡ opt_any (is_due timeout now) (get k s.heartbeat_map) =
        any-values_of (λ v. v.id) order s.heartbeat_map (due_at k) k h (due_at-key k)
        ∙ due_at-get s k h in
      (
        rw (← e) (map-heartbeat_items k items s),
        (reports items, queue-heartbeat_items items s, rw (← e) (mem-reports k items)),
      )

-- Within the timeout, and up to ten seconds past the end of the registration.
pub is_fresh : (timeout now expire_at : ℕ) → HeartbeatLoopReq → Bool
is_fresh timeout now expire_at item = ltb now (item.now + timeout) && leb now (expire_at + 10)

-- An entry whose registration ends at a natural time is due exactly when it is not fresh.
pub is_due-is_fresh :
    (timeout now expire_at : ℕ) (item : HeartbeatLoopReq)
    → item.register_expire_at ≡ pos expire_at
    → is_due timeout now item ≡ not (is_fresh timeout now expire_at item)
unfolding is_due is_fresh
is_due-is_fresh timeout now expire_at item h = rw h (ground arith)

-- The message of a device has become its entry.
pub get-receive_heartbeat :
    (s : Service) (v : HeartbeatLoopReq) (rest : List HeartbeatLoopReq)
    → s.heartbeat_queue ≡ v ∷ rest
    → IsKeyed (λ (x : HeartbeatLoopReq). x.id) s.heartbeat_map
    → get v.id (receive_heartbeat s).heartbeat_map ≡ some v
unfolding receive_heartbeat
get-receive_heartbeat s v rest e h = rw e (
    get-set_keyed (λ (x : HeartbeatLoopReq). x.id) v v.id s.heartbeat_map h
    ∙ rw (beq_refl v.id) refl)
