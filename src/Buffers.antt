-- ===== src/Buffers.antt =====
-- core/pkg/bmap/main.go: buffers of bytes by a key, filled by chunks in base64. Each method holds
-- the lock for as long as it reads or writes; the decoder of encoding/base64 is a parameter. An item
-- is a value: what a caller does to an item that Get handed out is not modelled, and neither is an
-- item without a buffer, which only Set could put in.
pub mod Promise
pub mod Entries
pub mod Contents
pub mod Tests
use skeyevss_backend_service.Prelude.{
  ℕ, suc, ◌+◌, ◌≡◌, Bool, true, false, Option, none, some, List, [], ◌∷◌, ◌++◌, if◌then◌else◌, ltb,
  length, map,
}
use skeyevss_backend_service.GoMap.{GoMap, keys, lookup, insert, delete}
use skeyevss_backend_service.Text.{Text, text_comparable}

-- Item without ConvBytes, which this file does not use; `none` is nil.
pub record Item : Type 0 where
  pub contents : Text
  pub created_at : ℕ
  pub cached : Option Text

-- BufferManager
abbrev pub Buffers : Type 0
Buffers = GoMap Text Item

-- NewBufferManager
abbrev pub new_buffer_manager : Buffers
new_buffer_manager = []

abbrev pub item_or_new : ℕ → Option Item → Item
item_or_new now none = record { contents = []; created_at = now; cached = none }
item_or_new now (some item) = item

abbrev pub add_decoded : Text → ℕ → Buffers → Option Text → Bool × Buffers
add_decoded key now bm none = (false, bm)
add_decoded key now bm (some decoded) =
    let item = item_or_new now (lookup key bm) in
    (true, insert key (record item { contents = item.contents ++ decoded; cached = none }) bm)

-- Add, with the time in milliseconds; whether there is no error.
unfoldable pub add : (Text → Option Text) → Text → Text → ℕ → Buffers → Bool × Buffers
add decode key base64_data now bm = add_decoded key now bm (decode base64_data)

-- Set
unfoldable pub set : Text → Item → Buffers → Buffers
set key item bm = insert key item bm

abbrev pub is_empty : Text → Bool
is_empty [] = true
is_empty (c ∷ s) = false

abbrev pub get_cached : Text → Item → Buffers → Option Text → Option Item × Buffers
get_cached key item bm (some bytes) = (some item, bm)
get_cached key item bm none =
    let copied : Item = record item { cached = some item.contents } in
    (some copied, insert key copied bm)

abbrev pub get_item : Text → Buffers → Option Item → Option Item × Buffers
get_item key bm none = (none, bm)
get_item key bm (some item) =
    if is_empty item.contents then (none, bm) else get_cached key item bm item.cached

-- Get
unfoldable pub get : Text → Buffers → Option Item × Buffers
get key bm = get_item key bm (lookup key bm)

abbrev pub size_of : Option Item → ℕ
size_of none = 0
size_of (some item) = length item.contents

-- GetBufferSize
unfoldable pub get_buffer_size : Text → Buffers → ℕ
get_buffer_size key bm = size_of (lookup key bm)

-- Remove
unfoldable pub remove : Text → Buffers → Buffers
remove key bm = delete key bm

abbrev pub reset_item : Text → Buffers → Option Item → Buffers
reset_item key bm none = bm
reset_item key bm (some item) = insert key (record item { contents = []; cached = none }) bm

-- Reset
unfoldable pub reset : Text → Buffers → Buffers
reset key bm = reset_item key bm (lookup key bm)

-- All, Len and Exists
pub all : Buffers → List Text
all bm = keys bm

pub len : Buffers → ℕ
len bm = length bm

abbrev pub is_there : Option Item → Bool
is_there none = false
is_there (some item) = true

pub exists : Text → Buffers → Bool
exists key bm = is_there (lookup key bm)

-- Size
abbrev pub size : Buffers → ℕ
size [] = 0
size ((key, item) ∷ bm) = length item.contents + size bm

-- Range, with a callback that changes a state of the caller.
pub range : {S : Type 0} → (Text → Item → S → S) → Buffers → S → S
range callback [] s = s
range callback ((key, item) ∷ snapshot) s = range callback snapshot (callback key item s)

-- The loop of Cleanup over the entries, with a maximal age that is not negative.
abbrev pub cleanup_loop : ℕ → ℕ → List (Text × Item) → ℕ × Buffers → ℕ × Buffers
cleanup_loop max_age now [] acc = acc
cleanup_loop max_age now ((key, item) ∷ items) acc =
    let old = cleanup_loop max_age now items (suc acc.0, delete key acc.1) in
    let rest = cleanup_loop max_age now items acc in
    if ltb (item.created_at + max_age) now then old else rest

-- Cleanup: the number of entries that are removed.
unfoldable pub cleanup : ℕ → ℕ → Buffers → ℕ × Buffers
cleanup max_age now bm = cleanup_loop max_age now bm (0, bm)
