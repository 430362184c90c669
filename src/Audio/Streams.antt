-- ===== src/Audio/Streams.antt =====
-- The codecs on streams of bytes.
use skeyevss_backend_service.Prelude.{
  ℕ, suc, ◌+◌, ◌*◌, ◌/◌, ◌%◌, ◌<◌, ◌≡◌, ◌⊎◌, refl, ap, ◌∙◌, true, none, some, List, [], ◌∷◌, map,
  nat_beq, length, arith, All, ℤ, pos, negsuc, Bool-cases, inl, inr,
}
use skeyevss_backend_service.Audio.{
  to_bits, of_bits, alaw2linear, ulaw2linear, linear2alaw, linear2ulaw, decode, encode, to_bytes,
  of_bytes, g711a_decode_to_bytes, g711u_decode_to_bytes, g711a_encode_pcm, g711u_encode_pcm,
}
use skeyevss_backend_service.Audio.Codes.{fits, canonical, alaw_roundtrip, ulaw_roundtrip}

-- The two bytes of an int16 are read back.
sample_roundtrip : (z : ℤ) → fits z ≡ true → of_bits (to_bits z % 256 + 256 * (to_bits z / 256)) ≡ z
unfolding of_bits to_bits
sample_roundtrip (pos n) h = ground arith
sample_roundtrip (negsuc n) h = ground arith

of_bytes-to_bytes : (amp : List ℤ) → All (λ z. fits z ≡ true) amp → of_bytes (to_bytes amp) ≡ amp
unfolding of_bytes to_bytes
of_bytes-to_bytes [] h = refl
of_bytes-to_bytes (z ∷ amp) h =
    rw (sample_roundtrip z h.0) (ap (λ l. z ∷ l) (of_bytes-to_bytes amp h.1))

even-to_bytes : (amp : List ℤ) → nat_beq (length (to_bytes amp) % 2) 0 ≡ true
unfolding to_bytes
even-to_bytes [] = refl
even-to_bytes (z ∷ amp) = let ih = even-to_bytes amp in ground arith

abbrev pub IsBytes : List ℕ → Type 0
IsBytes = All (λ b. b < 256)

decode-fits :
    (code : ℕ → ℤ) (l : List ℕ)
    → ((b : ℕ) → b < 256 → fits (code b) ≡ true)
    → IsBytes l
    → All (λ z. fits z ≡ true) (decode code l)
unfolding decode
decode-fits code [] f h = tt
decode-fits code (b ∷ l) f h = (f b h.0, decode-fits code l f h.1)

encode-decode :
    (dec : ℕ → ℤ) (enc : ℤ → ℕ) (back : ℕ → ℕ) (l : List ℕ)
    → ((b : ℕ) → b < 256 → enc (dec b) ≡ back b)
    → IsBytes l
    → encode enc (decode dec l) ≡ map back l
unfolding encode decode
encode-decode dec enc back [] f h = refl
encode-decode dec enc back (b ∷ l) f h =
    rw (f b h.0) (ap (λ m. back b ∷ m) (encode-decode dec enc back l f h.1))

map_same : (l : List ℕ) → map (λ (b : ℕ). b) l ≡ l
map_same [] = refl
map_same (b ∷ l) = ap (λ m. b ∷ m) (map_same l)

-- A stream of A-law that is decoded to PCM bytes and encoded again comes back, and a stream of u-law
-- comes back with every 127 replaced by 255.
pub streams_roundtrip :
    (l : List ℕ)
    → IsBytes l
    → (g711a_encode_pcm (g711a_decode_to_bytes l) ≡ some l)
      × (g711u_encode_pcm (g711u_decode_to_bytes l) ≡ some (map canonical l))
unfolding g711a_encode_pcm g711a_decode_to_bytes g711u_encode_pcm g711u_decode_to_bytes
streams_roundtrip l h = (
  rw
      (
        even-to_bytes (decode alaw2linear l),
        of_bytes-to_bytes (decode alaw2linear l)
            (decode-fits alaw2linear l (λ b i. (alaw_roundtrip b i).1) h),
      )
      (ap some (
        encode-decode alaw2linear linear2alaw (λ b. b) l (λ b i. (alaw_roundtrip b i).0) h
        ∙ map_same l)),
  rw
      (
        even-to_bytes (decode ulaw2linear l),
        of_bytes-to_bytes (decode ulaw2linear l)
            (decode-fits ulaw2linear l (λ b i. (ulaw_roundtrip b i).1) h),
      )
      (ap some
        (encode-decode ulaw2linear linear2ulaw canonical l (λ b i. (ulaw_roundtrip b i).0) h)),
)

length-of_bytes : (l : List ℕ) → length (of_bytes l) ≡ length l / 2
unfolding of_bytes
length-of_bytes [] = refl
length-of_bytes (x ∷ []) = refl
length-of_bytes (x ∷ y ∷ l) = let ih = length-of_bytes l in omega arith

length-encode : (code : ℤ → ℕ) (l : List ℤ) → length (encode code l) ≡ length l
unfolding encode
length-encode code [] = refl
length-encode code (z ∷ l) = ap suc (length-encode code l)

-- PCM of an odd length is refused; of an even length, it gives half as many bytes.
pub encode_pcm_lengths :
    (l : List ℕ)
    → ((length l % 2 ≡ 1) × (g711a_encode_pcm l ≡ none) × (g711u_encode_pcm l ≡ none))
      ⊎ ((a : List ℕ) × (u : List ℕ) × (g711a_encode_pcm l ≡ some a)
          × (g711u_encode_pcm l ≡ some u)
          × (2 * length a ≡ length l)
          × (2 * length u ≡ length l))
unfolding g711a_encode_pcm g711u_encode_pcm
encode_pcm_lengths l = elim (Bool-cases (nat_beq (length l % 2) 0)) [
  | inl even ↦
      let e : length l % 2 ≡ 0 = ground arith in
      inr (
        encode linear2alaw (of_bytes l),
        encode linear2ulaw (of_bytes l),
        rw even refl,
        rw even refl,
        rw (length-encode linear2alaw (of_bytes l), length-of_bytes l) (omega arith),
        rw (length-encode linear2ulaw (of_bytes l), length-of_bytes l) (omega arith),
      )
  | inr odd ↦ inl (ground arith, rw odd refl, rw odd refl)
]
