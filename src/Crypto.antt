-- ===== src/Crypto.antt =====
-- core/pkg/functions/encryption.go: the encryption of tokens, AES in CBC mode with padding, and
-- base64. The block cipher of crypto/aes and crypto/cipher, whose blocks have 16 bytes, and the
-- coding of encoding/base64 are an interface. The key is the initial vector as well, so that keys of
-- 24 and 32 bytes, which AES takes, panic in both directions; they are left out, and `valid_key` says
-- whether a key has 16 bytes.
pub mod Roundtrip
pub mod Tests
use skeyevss_backend_service.Prelude.{
  ℕ, ◌+◌, ◌-◌, ◌%◌, ◌<◌, ◌≡◌, Bool, true, false, not, Option, none, some, List, [], ◌∷◌, ◌++◌,
  if◌then◌else◌, nat_beq, length, take, replicate,
}
use skeyevss_backend_service.Text.{Text}
use skeyevss_backend_service.XMap.{Outcome, returned, panicked}

-- What the code uses of the libraries, and what it relies on.
pub record Cipher : Type 0 where
  pub valid_key : Text → Bool
  pub cbc_encrypt : Text → Text → Text
  pub cbc_decrypt : Text → Text → Text
  pub base64_encode : Text → Text
  pub base64_decode : Text → Option Text
  pub length-cbc_encrypt : (key src : Text) → length (cbc_encrypt key src) ≡ length src
  pub cbc_inverse :
      (key src : Text)
      → valid_key key ≡ true
      → length src % 16 ≡ 0
      → cbc_decrypt key (cbc_encrypt key src) ≡ src
  pub base64_not_empty : (src : Text) → 0 < length src → 0 < length (base64_encode src)
  pub base64_inverse : (src : Text) → base64_decode (base64_encode src) ≡ some src

-- padding
pub padding : Text → ℕ → Text
padding src block_size =
    let pad_num = block_size - length src % block_size in src ++ replicate pad_num (pad_num % 256)

-- `src[n-1]`
abbrev pub last_byte : Text → ℕ
last_byte [] = 0
last_byte (c ∷ []) = c
last_byte (c ∷ d ∷ s) = last_byte (d ∷ s)

-- unPadding: `n1 > len(src)` never holds, and `n1 <= 0` is the truncated difference 0.
pub un_padding : Text → Text
un_padding src =
    let n1 = length src - last_byte src in
    if nat_beq (length src) 0 then src else if nat_beq n1 0 then src else take n1 src

module _ (c : Cipher) where
  -- encryptAES: the error of a bad key is dropped, and the nil block is used.
  pub encrypt_aes : Text → Text → Outcome (Option Text)
  unfolding padding
  encrypt_aes src key =
      if not (c.valid_key key)
      then panicked
      else if not (nat_beq (length (padding src 16) % 16) 0)
      then returned none
      else returned (some (c.cbc_encrypt key (padding src 16)))

  -- decryptAES; `none` is an error.
  pub decrypt_aes : Text → Text → Option Text
  unfolding un_padding
  decrypt_aes src key =
      if not (c.valid_key key)
      then none
      else if not (nat_beq (length src % 16) 0)
      then none
      else some (un_padding (c.cbc_decrypt key src))

  abbrev pub encoded : Outcome (Option Text) → Outcome (Option Text)
  encoded panicked = panicked
  encoded (returned none) = returned none
  encoded (returned (some p)) = returned (some (c.base64_encode p))

  -- Encrypt
  pub encrypt : Text → Text → Outcome (Option Text)
  unfolding encrypt_aes
  encrypt key pass = encoded (encrypt_aes pass key)

  abbrev pub decrypted : Text → Option Text → Option Text
  decrypted key none = none
  decrypted key (some bytes_pass) = decrypt_aes bytes_pass key

  -- Decrypt
  pub decrypt : Text → Text → Option Text
  unfolding decrypt_aes
  decrypt key cipher_text = decrypted key (c.base64_decode cipher_text)
