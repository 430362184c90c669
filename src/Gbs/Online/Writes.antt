-- ===== src/Gbs/Online/Writes.antt =====
-- Which devices one tick of the online loop writes to the database, and which reports are lost.
use mathlib.Core.List.{append-nil, append_assoc}
use skeyevss_backend_service.Prelude.{
  and-true, ℕ, ◌≡◌, refl, sym, ap, subst, ◌∙◌, Bool, true, false, not, ◌&&◌, ◌||◌, none, List, [],
  ◌∷◌, ◌++◌, arith, Option-cases, inl, inr,
}
use skeyevss_backend_service.Text.{Text, text_comparable, text_beq_iff}
use skeyevss_backend_service.Arrays.{contains}
use skeyevss_backend_service.GoMap.{RangeOrder}
use skeyevss_backend_service.XMap.{get, set, values_of}
use skeyevss_backend_service.XMap.Keyed.{
  any, any-perm, opt_any, IsKeyed, get-clear, set-set_self, any-values_of,
}
use skeyevss_backend_service.Gbs.{
  Service, OnlineReq, DbUpdate, set_devices, set_channels_of, set_channels,
}
use skeyevss_backend_service.Gbs.Online.{
  receive_online, Update, devices_go, channels_go, make_update, make_updates, updates_of, Batches,
  sort_items, set_device, set_channel, when_any, sort_item, none_yet, batches, flush, clear_online,
  online_tick, contains-sort_item, goes, goes_at, devices_of,
}

or_assoc : (a b c : Bool) → ((a || b) || c) ≡ (a || (b || c))
or_assoc a b c = ground arith

contains-sort_items :
    (o : Bool) (k : Text) (l : List OnlineReq) (b : Batches)
    → contains k (devices_of o (sort_items l b))
      ≡ (contains k (devices_of o b) || any (goes_at o k) l)
unfolding sort_items
contains-sort_items o k [] b = ground arith
contains-sort_items o k (item ∷ l) b =
    contains-sort_items o k l (sort_item item b)
    ∙ ap (λ c. c || any (goes_at o k) l) (contains-sort_item o k item b)
    ∙ or_assoc (contains k (devices_of o b)) (goes_at o k item) (any (goes_at o k) l)

goes_at-key : (o : Bool) (k : Text) (v : OnlineReq) → goes_at o k v ≡ true → v.device_unique_id ≡ k
unfolding goes_at
goes_at-key o k v h = (text_beq_iff v.device_unique_id k).0 (ground arith)

goes_at-get :
    (o : Bool) (k : Text) (s : Service)
    → IsKeyed (λ (v : OnlineReq). v.device_unique_id) s.online_map
    → opt_any (goes_at o k) (get k s.online_map) ≡ opt_any (goes o) (get k s.online_map)
unfolding goes_at
goes_at-get o k s h = elim (Option-cases (get k s.online_map)) [
  | inl e ↦ rw e
  | inr (v, e) ↦
      rw e (rw ((text_beq_iff v.device_unique_id k).1 (h.keyed k v e)) (and-true (goes o v)))
]

contains-none_yet : (o : Bool) (k : Text) → contains k (devices_of o none_yet) ≡ false
unfolding contains
contains-none_yet true k = refl
contains-none_yet false k = refl

-- Where every report stands under its own device, whatever the order of the range: a device is in
-- the batch that goes on line (`true`), or off line (`false`), exactly when the last report kept
-- for it names no channel and says so.
pub batches_lem :
    (order : RangeOrder (Text × OnlineReq)) (s : Service) (o : Bool) (k : Text)
    → IsKeyed (λ (v : OnlineReq). v.device_unique_id) s.online_map
    → contains k (devices_of o (batches order s)) ≡ opt_any (goes o) (get k s.online_map)
unfolding batches
batches_lem order s o k h =
    contains-sort_items o k (values_of order s.online_map) none_yet
    ∙ ap (λ c. c || any (goes_at o k) (values_of order s.online_map)) (contains-none_yet o k)
    ∙ any-values_of (λ v. v.device_unique_id) order s.online_map (goes_at o k) k h (goes_at-key o k)
    ∙ goes_at-get o k s h

-- The database calls of an update.
abbrev calls_of : ℕ → Update → List DbUpdate
calls_of now (devices_go ids true) = set_devices ids true now ∷ []
calls_of now (devices_go ids false) = set_channels_of ids false ∷ set_devices ids false now ∷ []
calls_of now (channels_go ids online) = set_channels ids online ∷ []

abbrev all_calls : ℕ → List Update → List DbUpdate
all_calls now [] = []
all_calls now (u ∷ us) = calls_of now u ++ all_calls now us

db-make_update :
    (now : ℕ) (u : Update) (s : Service) → (make_update now u s).db ≡ s.db ++ calls_of now u
unfolding set_device set_channel
db-make_update now (devices_go ids true) s = refl
db-make_update now (devices_go ids false) s = refl
db-make_update now (channels_go ids o) s = refl

db-make_updates :
    (now : ℕ) (us : List Update) (s : Service)
    → (make_updates now us s).db ≡ s.db ++ all_calls now us
unfolding make_updates
db-make_updates now [] s = sym (append-nil s.db)
db-make_updates now (u ∷ us) s =
    db-make_updates now us (make_update now u s)
    ∙ ap (λ l. l ++ all_calls now us) (db-make_update now u s)
    ∙ append_assoc s.db (calls_of now u) (all_calls now us)

abbrev pub agrees : Bool → Bool → Bool
agrees true p = p
agrees false p = not p

-- Whether a call of the database sets a device on line, or off line, or the channels of a device off
-- line.
abbrev pub sets_device : Bool → Text → DbUpdate → Bool
sets_device o k (set_devices ids p now) = agrees o p && contains k ids
sets_device o k (set_channels_of ids p) = false
sets_device o k (set_channels ids p) = false

abbrev pub takes_channels_off : Text → DbUpdate → Bool
takes_channels_off k (set_channels_of ids p) = agrees false p && contains k ids
takes_channels_off k (set_devices ids p now) = false
takes_channels_off k (set_channels ids p) = false

abbrev moves : Bool → Text → Update → Bool
moves o k (devices_go ids p) = agrees o p && contains k ids
moves o k (channels_go ids p) = false

any-append {ℓ} : {A : Type ℓ} (q : A → Bool) (l m : List A) → any q (l ++ m) ≡ (any q l || any q m)
any-append q [] m = refl
any-append q (x ∷ l) m = ground (arith, any-append q l m)

-- Calls and updates, where the calls of each update pass as the update does.
any-all_calls :
    (q : DbUpdate → Bool) (p : Update → Bool) (now : ℕ) (us : List Update)
    → ((u : Update) → any q (calls_of now u) ≡ p u)
    → any q (all_calls now us) ≡ any p us
any-all_calls q p now [] h = refl
any-all_calls q p now (u ∷ us) h =
    any-append q (calls_of now u) (all_calls now us)
    ∙ ground (arith, h u, any-all_calls q p now us h)

sets_device-calls_of :
    (o : Bool) (k : Text) (now : ℕ) (u : Update)
    → any (sets_device o k) (calls_of now u) ≡ moves o k u
sets_device-calls_of true k now (devices_go ids true) = ground arith
sets_device-calls_of false k now (devices_go ids true) = ground arith
sets_device-calls_of true k now (devices_go ids false) = ground arith
sets_device-calls_of false k now (devices_go ids false) = ground arith
sets_device-calls_of o k now (channels_go ids p) = refl

takes_channels_off-calls_of :
    (k : Text) (now : ℕ) (u : Update)
    → any (takes_channels_off k) (calls_of now u) ≡ moves false k u
takes_channels_off-calls_of k now (devices_go ids true) = ground arith
takes_channels_off-calls_of k now (devices_go ids false) = ground arith
takes_channels_off-calls_of k now (channels_go ids p) = refl

any-when_any {ℓ} :
    {A : Type ℓ} (q : Update → Bool) (l : List A) (u : Update)
    → (l ≡ [] → q u ≡ false)
    → any q (when_any l u) ≡ q u
any-when_any q [] u h = sym (h refl)
any-when_any q (x ∷ l) u h = ground arith

any-four {ℓ} :
    {A : Type ℓ} (q : A → Bool) (l m n r : List A)
    → any q (l ++ (m ++ (n ++ r))) ≡ (any q l || (any q m || (any q n || any q r)))
any-four q l m n r =
    any-append q l (m ++ (n ++ r))
    ∙ ap (λ c. any q l || c) (any-append q m (n ++ r) ∙ ap (λ c. any q m || c) (any-append q n r))

-- No goroutine is missing but for an empty batch.
moves-updates_of :
    (o : Bool) (k : Text) (b : Batches)
    → any (moves o k) (updates_of b) ≡ contains k (devices_of o b)
unfolding contains
moves-updates_of true k b =
    any-four (moves true k) (when_any b.device_online (devices_go b.device_online true))
      (when_any b.device_offline (devices_go b.device_offline false))
      (when_any b.channel_online (channels_go b.channel_online true))
      (when_any b.channel_offline (channels_go b.channel_offline false))
    ∙ ground (
      arith,
      any-when_any (moves true k) b.device_online (devices_go b.device_online true)
          (λ e. ap (contains k) e),
      any-when_any (moves true k) b.device_offline (devices_go b.device_offline false) (λ e. refl),
      any-when_any (moves true k) b.channel_online (channels_go b.channel_online true) (λ e. refl),
      any-when_any (moves true k) b.channel_offline (channels_go b.channel_offline false)
          (λ e. refl),
    )
moves-updates_of false k b =
    any-four (moves false k) (when_any b.device_online (devices_go b.device_online true))
      (when_any b.device_offline (devices_go b.device_offline false))
      (when_any b.channel_online (channels_go b.channel_online true))
      (when_any b.channel_offline (channels_go b.channel_offline false))
    ∙ ground (
      arith,
      any-when_any (moves false k) b.device_online (devices_go b.device_online true) (λ e. refl),
      any-when_any (moves false k) b.device_offline (devices_go b.device_offline false)
          (λ e. ap (contains k) e),
      any-when_any (moves false k) b.channel_online (channels_go b.channel_online true) (λ e. refl),
      any-when_any (moves false k) b.channel_offline (channels_go b.channel_offline false)
          (λ e. refl),
    )

-- Where every report stands under its own device, and in whatever order the reports are read and
-- the goroutines run: the database calls of a tick set a device on line, or off line, exactly when
-- the last report kept for it names no channel and says so; they take the channels of a device off
-- line exactly when they set it off line; and the map is empty afterwards.
pub online_tick_lem :
    (order : RangeOrder (Text × OnlineReq)) (go : RangeOrder Update) (now : ℕ) (s : Service)
    → IsKeyed (λ (v : OnlineReq). v.device_unique_id) s.online_map
    → (calls : List DbUpdate) × ((online_tick order go now s).db ≡ s.db ++ calls)
      × ((o : Bool) (k : Text)
          → any (sets_device o k) calls ≡ opt_any (goes o) (get k s.online_map))
      × ((k : Text) → any (takes_channels_off k) calls ≡ opt_any (goes false) (get k s.online_map))
      × ((k : Text) → get k (online_tick order go now s).online_map ≡ none)
unfolding online_tick flush
online_tick_lem order go now s keyed =
    let us = go.arrange (updates_of (batches order s)) in
    let all : (o : Bool) (k : Text) → any (moves o k) us ≡ opt_any (goes o) (get k s.online_map) =
      λ o k.
        any-perm (moves o k) (go.arrange-perm (updates_of (batches order s)))
        ∙ moves-updates_of o k (batches order s)
        ∙ batches_lem order s o k keyed in
    (
      all_calls now us,
      db-make_updates now us s,
      (λ o k.
          any-all_calls (sets_device o k) (moves o k) now us (sets_device-calls_of o k now)
          ∙ all o k),
      (λ k.
          any-all_calls (takes_channels_off k) (moves false k) now us
            (takes_channels_off-calls_of k now)
          ∙ all false k),
      (λ k. get-clear k _),
    )

-- The bug: a report is lost when another report for the same device follows it before the tick,
-- also if the two are about different channels.
pub report_overwritten :
    (s : Service) (v w : OnlineReq) (rest : List OnlineReq)
    → v.device_unique_id ≡ w.device_unique_id
    → receive_online (receive_online (record s { online_queue = v ∷ w ∷ rest }))
      ≡ receive_online (record s { online_queue = w ∷ rest })
unfolding receive_online
report_overwritten s v w rest h =
    ap (λ m. record s { online_map = m; online_queue = rest })
      (subst
        (λ i.
          set w.device_unique_id w (set i v s.online_map) ≡ set w.device_unique_id w s.online_map)
        (sym h) (set-set_self w.device_unique_id v w s.online_map))

db-receive_online : (s : Service) → (receive_online s).db ≡ s.db
unfolding receive_online
db-receive_online s = ground arith

-- The bug: a report that is received while a tick runs, after its map was read and before it is
-- cleared, is in no database call and in no map.
report_during_tick :
    (order : RangeOrder (Text × OnlineReq)) (go : RangeOrder Update) (now : ℕ) (s : Service)
    (k : Text)
    → let t = clear_online (receive_online (flush order go now s)) in
      (t.db ≡ (online_tick order go now s).db) × (get k t.online_map ≡ none)
unfolding online_tick
report_during_tick order go now s k = (db-receive_online (flush order go now s), get-clear k _)
