-- ===== src/Crypto/Roundtrip.antt =====
-- What is decrypted is what was encrypted, but for the empty text.
use skeyevss_backend_service.Prelude.{
  ℕ, zero, suc, ◌+◌, ◌-◌, ◌%◌, ◌<◌, ◌≡◌, refl, ap, ◌∙◌, Bool, true, false, some, [], ◌∷◌, ◌++◌,
  if◌then◌else◌, nat_beq, length, take, replicate, length-append, arith,
}
use skeyevss_backend_service.Text.{Text}
use skeyevss_backend_service.Text.Trim.{take-append}
use skeyevss_backend_service.XMap.{returned, panicked}
use skeyevss_backend_service.Crypto.{
  Cipher, padding, last_byte, un_padding, encrypt_aes, decrypt_aes, encrypt, decrypt,
}

length-replicate : (n b : ℕ) → length (replicate n b) ≡ n
length-replicate zero b = refl
length-replicate (suc n) b = omega (arith, length-replicate n b)

-- The last byte after one byte or more of padding.
last-replicate : (s : Text) (n b : ℕ) → last_byte (s ++ replicate (suc n) b) ≡ b
last-replicate [] zero b = refl
last-replicate [] (suc n) b = last-replicate [] n b
last-replicate (c ∷ []) n b = last-replicate [] n b
last-replicate (c ∷ d ∷ s) n b = last-replicate (d ∷ s) n b

length-padding : (s : Text) → length (padding s 16) ≡ length s + (16 - length s % 16)
unfolding padding
length-padding s =
    length-append s (replicate (16 - length s % 16) ((16 - length s % 16) % 256))
    ∙ ap (λ n. length s + n) (length-replicate (16 - length s % 16) ((16 - length s % 16) % 256))

even-padding : (s : Text) → length (padding s 16) % 16 ≡ 0
even-padding s = omega (arith, length-padding s)

last-pad : (s : Text) (n b : ℕ) → 0 < n → last_byte (s ++ replicate n b) ≡ b
last-pad s zero b is_pos = omega (arith, is_pos)
last-pad s (suc n) b is_pos = last-replicate s n b

last-padding : (s : Text) → last_byte (padding s 16) ≡ 16 - length s % 16
unfolding padding
last-padding s =
    last-pad s (16 - length s % 16) ((16 - length s % 16) % 256) (omega arith) ∙ omega arith

take-padding : (s : Text) → take (length s) (padding s 16) ≡ s
unfolding padding
take-padding s = take-append s (replicate (16 - length s % 16) ((16 - length s % 16) % 256))

nat_beq_pos : (n : ℕ) → 0 < n → nat_beq n 0 ≡ false
nat_beq_pos n is_pos = ground arith

-- Two tests that fail leave the third case.
third-if :
    {A : Type 0} (p q : Bool) (a b c : A)
    → p ≡ false
    → q ≡ false
    → (if p then a else if q then b else c) ≡ c
third-if p q a b c not_p not_q = rw not_p (rw not_q refl)

-- The padding of a text that is not empty is taken off again.
pub un_padding-padding : (s : Text) → 0 < length s → un_padding (padding s 16) ≡ s
unfolding un_padding
un_padding-padding s is_pos =
    third-if (nat_beq (length (padding s 16)) 0)
      (nat_beq (length (padding s 16) - last_byte (padding s 16)) 0) (padding s 16) (padding s 16)
      (take (length (padding s 16) - last_byte (padding s 16)) (padding s 16))
      (nat_beq_pos (length (padding s 16)) (omega (arith, length-padding s, is_pos)))
      (nat_beq_pos (length (padding s 16) - last_byte (padding s 16))
        (omega (arith, length-padding s, last-padding s, is_pos)))
    ∙ ap (λ n. take n (padding s 16)) (omega (arith, length-padding s, last-padding s))
    ∙ take-padding s

-- The text that is read back: the padding of the empty text is a whole block, which is kept.
abbrev pub read_back : Text → Text
read_back [] = replicate 16 16
read_back (c ∷ s) = c ∷ s

un_padding-empty : un_padding (padding [] 16) ≡ replicate 16 16
unfolding un_padding padding
un_padding-empty = refl

un_padding-read_back : (s : Text) → un_padding (padding s 16) ≡ read_back s
un_padding-read_back [] = un_padding-empty
un_padding-read_back (c ∷ s) = un_padding-padding (c ∷ s) (omega arith)

module _ (c : Cipher) where
  pub sealed : Text → Text → Text
  sealed key s = c.base64_encode (c.cbc_encrypt key (padding s 16))

  even-sealed : (key s : Text) → nat_beq (length (c.cbc_encrypt key (padding s 16)) % 16) 0 ≡ true
  even-sealed key s = rw (c.length-cbc_encrypt key (padding s 16)) (rw (even-padding s) refl)

  encrypt-sealed :
      (key s : Text) → c.valid_key key ≡ true → encrypt c key s ≡ returned (some (sealed key s))
  unfolding encrypt encrypt_aes sealed
  encrypt-sealed key s is_valid = rw is_valid (rw (even-padding s) refl)

  decrypt-sealed :
      (key s : Text) → c.valid_key key ≡ true → decrypt c key (sealed key s) ≡ some (read_back s)
  unfolding decrypt decrypt_aes sealed
  decrypt-sealed key s is_valid = rw (c.base64_inverse (c.cbc_encrypt key (padding s 16))) (
      rw is_valid (
        rw (even-sealed key s) (
          rw (c.cbc_inverse key (padding s 16) is_valid (even-padding s))
            (ap some (un_padding-read_back s)))))

  -- With a key of a valid length what is encrypted is decrypted to the text itself, or to a block
  -- of sixteen bytes 16 when the text is empty.
  pub decrypt-encrypt :
      (key s : Text)
      → c.valid_key key ≡ true
      → (encrypt c key s ≡ returned (some (sealed key s)))
        × (decrypt c key (sealed key s) ≡ some (read_back s))
  decrypt-encrypt key s is_valid = (encrypt-sealed key s is_valid, decrypt-sealed key s is_valid)

  pub sealed_not_empty : (key s : Text) → 0 < length (sealed key s)
  unfolding sealed
  sealed_not_empty key s =
      c.base64_not_empty (c.cbc_encrypt key (padding s 16))
        (omega (arith, c.length-cbc_encrypt key (padding s 16), length-padding s))

  -- A bad key panics.
  encrypt-bad_key : (key s : Text) → c.valid_key key ≡ false → encrypt c key s ≡ panicked
  unfolding encrypt encrypt_aes
  encrypt-bad_key key s is_bad = rw is_bad refl
