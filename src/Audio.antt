-- ===== src/Audio.antt =====
-- core/pkg/audio/g711codec.go: the codecs of G.711. A byte is a number below 256, and an int16 and an
-- int are integers; the conversions of bytes and of int16 wrap around.
pub mod Codes
pub mod Streams
pub mod Rtp
pub mod Tests
use Prim.Native.Nat.{bit_and, bit_or, bit_xor}
use skeyevss_backend_service.Prelude.{
  ℕ, zero, suc, ◌+◌, ◌-◌, ◌*◌, ◌/◌, ◌%◌, ◌^◌, ◌≡◌, Bool, true, false, not, Option, none, some, List,
  [], ◌∷◌, ◌++◌, map, if◌then◌else◌, ltb, leb, nat_beq, length, ℤ, pos, negsuc, sub_ℕ,
}

-- The conversion to int16, and the 16 bits of an int16.
pub to_bits : ℤ → ℕ
to_bits (pos n) = n % 2 ^ 16
to_bits (negsuc n) = 2 ^ 16 - 1 - n % 2 ^ 16

pub of_bits : ℕ → ℤ
of_bits n = if ltb (n % 2 ^ 16) (2 ^ 15) then pos (n % 2 ^ 16) else negsuc (2 ^ 16 - 1 - n % 2 ^ 16)

pub to_int16 : ℤ → ℤ
unfolding to_bits of_bits
to_int16 z = of_bits (to_bits z)

abbrev pub seg_end : List ℕ
seg_end = 0xFF ∷ 0x1FF ∷ 0x3FF ∷ 0x7FF ∷ 0xFFF ∷ 0x1FFF ∷ 0x3FFF ∷ 0x7FFF ∷ []

abbrev pub seg_a_end : List ℕ
seg_a_end = 0x1F ∷ 0x3F ∷ 0x7F ∷ 0xFF ∷ 0x1FF ∷ 0x3FF ∷ 0x7FF ∷ 0xFFF ∷ []

-- The loop of `search` over a table, from the index `i` on; both tables have `size` entries.
pub search_from : ℕ → ℕ → List ℕ → ℕ
search_from val i [] = i
search_from val i (bound ∷ table) =
    let rest = search_from val (suc i) table in if leb val bound then i else rest

pub search : ℕ → List ℕ → ℕ
unfolding search_from
search val table = search_from val 0 table

-- The switch of Alaw2Linear.
pub alaw_magnitude : ℕ → ℕ → ℕ
alaw_magnitude seg t =
    if nat_beq seg 0
    then t + 8
    else if nat_beq seg 1
    then t + 0x108
    else (t + 0x108) * 2 ^ (seg - 1)

-- -n
abbrev pub negated : ℕ → ℤ
negated n = sub_ℕ 0 n

-- Alaw2Linear
pub alaw2linear : ℕ → ℤ
unfolding alaw_magnitude to_int16
alaw2linear a_val =
    let t = bit_xor a_val 0x55 in
    let m = alaw_magnitude (bit_and t 0x70 / 2 ^ 4) (bit_and t 0x0F * 2 ^ 4) in
    if nat_beq (bit_and a_val 0x80) 0 then to_int16 (negated m) else to_int16 (pos m)

-- Ulaw2Linear
pub ulaw2linear : ℕ → ℤ
unfolding to_int16
ulaw2linear u_val =
    let u = 255 - u_val in
    let t = (bit_and u 0x0F * 2 ^ 3 + 0x84) * 2 ^ (bit_and u 0x70 / 2 ^ 4) in
    if nat_beq (bit_and u 0x80) 0 then to_int16 (sub_ℕ t 0x84) else to_int16 (sub_ℕ 0x84 t)

-- From the segment on, in Linear2Alaw.
pub alaw_code : ℕ → ℕ → ℕ → ℕ
alaw_code seg val mask =
    if leb 8 seg
    then bit_xor 0x7F mask
    else let quant = if ltb seg 2 then bit_and (val / 2) 0x0F else bit_and (val / 2 ^ seg) 0x0F in
      bit_xor (bit_or (seg * 2 ^ 4 % 256) (quant % 256)) mask

-- Linear2Alaw: `>>` rounds down, and `-val - 1` of a negative number is its index in `negsuc`.
pub linear2alaw : ℤ → ℕ
unfolding search alaw_code
linear2alaw (pos n) = alaw_code (search (n / 2 ^ 3) seg_a_end) (n / 2 ^ 3) 0xD5
linear2alaw (negsuc n) = alaw_code (search (n / 2 ^ 3) seg_a_end) (n / 2 ^ 3) 0x55

-- From the segment on, in Linear2Ulaw.
pub ulaw_code : ℕ → ℕ → ℕ → ℕ
ulaw_code seg val mask =
    if leb 8 seg
    then bit_xor 0x7F mask
    else bit_xor (bit_or (seg * 2 ^ 4 % 256) (bit_and (val / 2 ^ (seg + 3)) 0x0F)) mask

-- Linear2Ulaw
pub linear2ulaw : ℤ → ℕ
unfolding search ulaw_code
linear2ulaw (pos n) = ulaw_code (search (n + 0x84) seg_end) (n + 0x84) 0xFF
linear2ulaw (negsuc n) = ulaw_code (search (0x84 + suc n) seg_end) (0x84 + suc n) 0x7F

-- G711aDecode, G711uDecode, G711aEncode and G711uEncode: the loops over slices.
pub decode : (ℕ → ℤ) → List ℕ → List ℤ
decode code [] = []
decode code (x ∷ l) = code x ∷ decode code l

pub encode : (ℤ → ℕ) → List ℤ → List ℕ
encode code [] = []
encode code (x ∷ l) = code x ∷ encode code l

-- The loop of G711aDecodeToBytes and G711uDecodeToBytes: the low byte, then the high one.
pub to_bytes : List ℤ → List ℕ
unfolding to_bits
to_bytes [] = []
to_bytes (sample ∷ amp) = to_bits sample % 256 ∷ to_bits sample / 256 ∷ to_bytes amp

pub g711a_decode_to_bytes : List ℕ → List ℕ
unfolding decode to_bytes alaw2linear
g711a_decode_to_bytes g711a_data = to_bytes (decode alaw2linear g711a_data)

pub g711u_decode_to_bytes : List ℕ → List ℕ
unfolding decode to_bytes ulaw2linear
g711u_decode_to_bytes g711u_data = to_bytes (decode ulaw2linear g711u_data)

-- The samples of PCM bytes. A byte that is left over is not read.
pub of_bytes : List ℕ → List ℤ
unfolding of_bits
of_bytes [] = []
of_bytes (x ∷ []) = []
of_bytes (low ∷ high ∷ pcm) = of_bits (low + 256 * high) ∷ of_bytes pcm

-- G711AEncode and G711UEncode; `none` is the error.
pub g711a_encode_pcm : List ℕ → Option (List ℕ)
unfolding encode of_bytes linear2alaw
g711a_encode_pcm pcm_data =
    if nat_beq (length pcm_data % 2) 0 then some (encode linear2alaw (of_bytes pcm_data)) else none

pub g711u_encode_pcm : List ℕ → Option (List ℕ)
unfolding encode of_bytes linear2ulaw
g711u_encode_pcm pcm_data =
    if nat_beq (length pcm_data % 2) 0 then some (encode linear2ulaw (of_bytes pcm_data)) else none
