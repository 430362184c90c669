-- ===== src/Buffers/Promise.antt =====
-- Calls on the buffers, and what they promise for one key.
use skeyevss_backend_service.Prelude.{
  ℕ, ◌+◌, ◌≡◌, Option, none, some, List, [], ◌∷◌, ◌++◌, if◌then◌else◌, ltb,
}
use skeyevss_backend_service.Text.{Text, text_comparable, text_beq}
use skeyevss_backend_service.Buffers.{
  Item, Buffers, add, set, is_empty, get, remove, reset, cleanup,
}

-- Calls; an item that is set may come with a copy of its bytes.
pub data Op : Type 0 where
  adds : Text → Text → ℕ → Op
  sets : Text → Item → Op
  gets : Text → Op
  removes : Text → Op
  resets : Text → Op
  cleans : ℕ → ℕ → Op

abbrev pub step : (Text → Option Text) → Op → Buffers → Buffers
step decode (adds key base64_data now) bm = (add decode key base64_data now bm).1
step decode (sets key item) bm = set key item bm
step decode (gets key) bm = (get key bm).1
step decode (removes key) bm = remove key bm
step decode (resets key) bm = reset key bm
step decode (cleans max_age now) bm = (cleanup max_age now bm).1

abbrev pub run : (Text → Option Text) → List Op → Buffers → Buffers
run decode [] bm = bm
run decode (op ∷ ops) bm = run decode ops (step decode op bm)

-- The promise, for one key: its contents and the time it was made.
abbrev pub grown : ℕ → Text → Option (Text × ℕ) → Text × ℕ
grown now decoded none = (decoded, now)
grown now decoded (some (contents, made)) = (contents ++ decoded, made)

abbrev pub grow : ℕ → Option Text → Option (Text × ℕ) → Option (Text × ℕ)
grow now none c = c
grow now (some decoded) c = some (grown now decoded c)

abbrev pub emptied : Option (Text × ℕ) → Option (Text × ℕ)
emptied none = none
emptied (some (contents, made)) = some ([], made)

abbrev pub kept : ℕ → ℕ → Option (Text × ℕ) → Option (Text × ℕ)
kept max_age now none = none
kept max_age now (some (contents, made)) =
    if ltb (made + max_age) now then none else some (contents, made)

-- A call leaves the contents of the other keys, but for a clean-up.
abbrev pub spec_step : (Text → Option Text) → Text → Op → Option (Text × ℕ) → Option (Text × ℕ)
spec_step decode key (adds k base64_data now) c =
    if text_beq k key then grow now (decode base64_data) c else c
spec_step decode key (sets k item) c =
    if text_beq k key then some (item.contents, item.created_at) else c
spec_step decode key (gets k) c = c
spec_step decode key (removes k) c = if text_beq k key then none else c
spec_step decode key (resets k) c = if text_beq k key then emptied c else c
spec_step decode key (cleans max_age now) c = kept max_age now c

abbrev pub spec_run : (Text → Option Text) → Text → List Op → Option (Text × ℕ) → Option (Text × ℕ)
spec_run decode key [] c = c
spec_run decode key (op ∷ ops) c = spec_run decode key ops (spec_step decode key op c)

abbrev pub if_decoded : Option Text → Option Text → Option Text
if_decoded none g = g
if_decoded (some decoded) g = none

-- The copy that came with the item that was set last, until bytes are added or the buffer is reset.
abbrev pub given_step : (Text → Option Text) → Text → Op → Option Text → Option Text
given_step decode key (adds k base64_data now) g =
    if text_beq k key then if_decoded (decode base64_data) g else g
given_step decode key (sets k item) g = if text_beq k key then item.cached else g
given_step decode key (resets k) g = if text_beq k key then none else g
given_step decode key (gets k) g = g
given_step decode key (removes k) g = g
given_step decode key (cleans max_age now) g = g

abbrev pub given_run : (Text → Option Text) → Text → List Op → Option Text → Option Text
given_run decode key [] g = g
given_run decode key (op ∷ ops) g = given_run decode key ops (given_step decode key op g)

-- A copy that was given is served in place of the contents.
abbrev pub served : Text → Option Text → Text
served contents none = contents
served contents (some copy) = copy

-- What Get hands out: none for a key without contents.
abbrev pub handed_out : Option (Text × ℕ) → Option Text → Option Text
handed_out none g = none
handed_out (some (contents, made)) g = if is_empty contents then none else some (served contents g)

abbrev pub bytes_of : Option Item → Option Text
bytes_of none = none
bytes_of (some item) = item.cached

abbrev pub seen : Option Item → Option (Text × ℕ)
seen none = none
seen (some item) = some (item.contents, item.created_at)

-- A copy of the bytes, where there is one, is what is served; without one none was given.
abbrev pub IsCopy : Text → Option Text → Option Text → Type 0
IsCopy contents g none = g ≡ none
IsCopy contents g (some copied) = copied ≡ served contents g

abbrev pub IsFresh : Option Text → Option Item → Type 0
IsFresh g none = Unit
IsFresh g (some item) = IsCopy item.contents g item.cached
