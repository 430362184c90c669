-- ===== src/Stream.antt =====
-- core/common/stream/main.go: the names of media streams. A name joins "stream", the device, the
-- channel, the play type and, in some cases, a number or an identifier with underscores. The
-- counter of playbacks is shared by the goroutines that produce names.
pub mod Names
pub mod Counter
pub mod Tests
use skeyevss_backend_service.Prelude.{
  ℕ, suc, ◌+◌, Bool, true, false, Option, none, some, List, [], ◌∷◌, ◌++◌, if◌then◌else◌, leb, ltb,
  length, ◌&&◌,
}
use skeyevss_backend_service.Text.{Text, bytes, text_beq, text_comparable, split, decimal}
use skeyevss_backend_service.Arrays.{contains}

-- PlayType: the declared constants.
abbrev pub talk : Text
talk = bytes "talk"

abbrev pub play : Text
play = bytes "play"

abbrev pub playback : Text
playback = bytes "playback"

-- streamNameFlag
abbrev pub flag : ℕ
flag = b'_'

pub record Item : Type 0 where
  pub channel : Text
  pub device : Text
  pub play_type : Text

abbrev pub stem : Text → Text → Text → Text
stem device channel play_type =
    bytes "stream" ++ (flag ∷ (device ++ (flag ∷ (channel ++ (flag ∷ play_type)))))

-- The name that `Produce` makes when it reads `count` as the counter.
pub produce_at : ℕ → Text → Text → Text → Text
unfolding decimal
produce_at count device channel play_type =
    if text_beq play_type playback
    then stem device channel (play_type ++ flag ∷ decimal count)
    else stem device channel play_type

-- Produce: the name, and the counter, an int64 that is taken to stay below 2^63.
pub produce : Text → Text → Text → ℕ → Text × ℕ
unfolding produce_at
produce device channel play_type count =
    (produce_at (count + 1) device channel play_type, count + 1)

-- ProduceWith
pub produce_with : Text → Text → Text → Text → Text
produce_with device channel play_type unique_id =
    stem device channel (play_type ++ flag ∷ unique_id)

-- PrefixDeviceUniqueId
pub prefix_device_unique_id : Text → Text
prefix_device_unique_id device = bytes "stream" ++ (flag ∷ device)

-- strings.ToLower on ASCII
abbrev pub to_lower : Text → Text
to_lower [] = []
to_lower (c ∷ s) = (if leb b'A' c && leb c b'Z' then c + 32 else c) ∷ to_lower s

-- ToPlayType
pub to_play_type : Text → Text
to_play_type v = if text_beq (to_lower v) playback then playback else play

-- PlayTypeVerify
pub play_type_verify : Text → Bool
unfolding contains
play_type_verify v = contains v (play ∷ playback ∷ [])

-- `none` is the error for fewer than four pieces.
pub item_of : List Text → Option Item
unfolding to_play_type
item_of (p ∷ device ∷ channel ∷ play_type ∷ rest) =
    some (record { channel = channel; device = device; play_type = to_play_type play_type })
item_of pieces = none

-- Parse
pub parse : Text → Option Item
unfolding item_of split
parse stream_name = item_of (split flag stream_name)
