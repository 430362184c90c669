-- ===== src/Gbs/Catalog.antt =====
-- core/app/sev/vss/internal/logic/gbs_proc/catalog_loop.go: the devices of which the channel
-- catalog is to be asked for once in a while.
use native.Mathlib.Nat.{mod-eq_of_lt, mod_self}
use native.Mathlib.Decide.{dec_lt}
use skeyevss_backend_service.Prelude.{
  ℕ, ◌%◌, ◌≤◌, ◌<◌, ◌≡◌, ◌≢◌, refl, Bool, false, not, ◌||◌, none, some, List, [], ◌∷◌, ◌++◌, ◌==◌,
  arith, if◌then◌else◌, nat_beq,
}
use skeyevss_backend_service.Text.{Text, text_comparable}
use skeyevss_backend_service.GoMap.{RangeOrder}
use skeyevss_backend_service.XMap.{set, get, remove, values_of}
use skeyevss_backend_service.XMap.Keyed.{
  any, IsKeyed, get-remove, get-set_keyed, any-values_of-false,
}
use skeyevss_backend_service.Gbs.{Service, CatalogLoopReq}

abbrev pub id_of : CatalogLoopReq → Text
id_of v = v.req.id

-- The device is entered in the map, or taken from it.
unfoldable pub make : CatalogLoopReq → Service → Service
make item s =
    if item.online
    then record s { catalog_map = set item.req.id item s.catalog_map }
    else record s { catalog_map = remove item.req.id s.catalog_map }

-- The receiving goroutine.
unfoldable pub receive_catalog : Service → Service
unfolding make
receive_catalog s = elim s.catalog_queue [
  | [] ↦ s
  | v ∷ rest ↦ make v (record s { catalog_queue = rest })
]

-- `!(item.Now%val.Unix() != CatalogInterval || !item.Online)`, where `%` is that of int64, at
-- times from 1 on.
pub is_wanted : ℕ → ℕ → CatalogLoopReq → Bool
is_wanted interval now item = not (not (nat_beq (item.now % now) interval) || not item.online)

unfoldable pub catalog_items : ℕ → ℕ → List CatalogLoopReq → Service → Service
catalog_items interval now [] s = s
catalog_items interval now (item ∷ rest) s = catalog_items interval now rest (
    if is_wanted interval now item
    then record s { send_catalog = s.send_catalog ++ item.req ∷ [] }
    else s)

-- One tick of the ticker, at the time `now`.
unfoldable pub catalog_tick : ℕ → RangeOrder (Text × CatalogLoopReq) → ℕ → Service → Service
catalog_tick interval order now s = catalog_items interval now (values_of order s.catalog_map) s

-- A message that says so enters the device under its own identifier, any other message takes it
-- out, and the entries of the other devices stay.
pub make_lem :
    (item : CatalogLoopReq) (s : Service) (k : Text)
    → IsKeyed id_of s.catalog_map
    → get k (make item s).catalog_map ≡ (
        if item.req.id == k then (if item.online then some item else none) else get k s.catalog_map)
unfolding make
make_lem item s k h =
    ground
      (arith, get-set_keyed id_of item k s.catalog_map h, get-remove item.req.id k s.catalog_map)

or-false : (a b : Bool) → (a || b) ≡ false → (a ≡ false) × (b ≡ false)
or-false a b h = ground arith

catalog_items_silent :
    (interval now : ℕ) (l : List CatalogLoopReq) (s : Service)
    → any (is_wanted interval now) l ≡ false
    → catalog_items interval now l s ≡ s
unfolding catalog_items
catalog_items_silent interval now [] s h = refl
catalog_items_silent interval now (item ∷ l) s h =
    let parts = or-false (is_wanted interval now item) (any (is_wanted interval now) l) h in
    rw (parts.0, catalog_items) (catalog_items_silent interval now l s parts.1)

mod_far : (i t n : ℕ) → 0 < i → i < n → n ≤ t → n % t ≢ i
mod_far i t n h₀ h₁ h₂ = elim (dec_lt n t) [
  | yes earlier ↦ rw (mod-eq_of_lt earlier) (omega arith)
  | no same ↦ let e : n ≡ t = omega arith in rw (e, mod_self) (omega arith)
]

not_wanted :
    (interval now : ℕ) (item : CatalogLoopReq)
    → 0 < interval
    → interval < item.now
    → item.now ≤ now
    → is_wanted interval now item ≡ false
unfolding is_wanted
not_wanted interval now item h₀ h₁ h₂ =
    let far : item.now % now ≢ interval = mod_far interval now item.now h₀ h₁ h₂ in ground arith

-- The bug: no tick asks any device for its catalog, as long as every entry was made at or before
-- the tick, at a time above the interval. (The interval is some seconds, the times are Unix times.)
pub catalog_tick_silent :
    (interval now : ℕ) (order : RangeOrder (Text × CatalogLoopReq)) (s : Service)
    → IsKeyed id_of s.catalog_map
    → 0 < interval
    → ((k : Text) (v : CatalogLoopReq)
        → get k s.catalog_map ≡ some v
        → (interval < v.now) × (v.now ≤ now))
    → catalog_tick interval order now s ≡ s
unfolding catalog_tick
catalog_tick_silent interval now order s h h₀ times =
    catalog_items_silent interval now (values_of order s.catalog_map) s (
      any-values_of-false id_of order s.catalog_map (is_wanted interval now) h
        (λ k v t. not_wanted interval now v h₀ (times k v t).0 (times k v t).1))
