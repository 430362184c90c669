-- ===== src/Crypto/Tests.antt =====
-- A cipher that leaves the text as it is, with keys of 16 bytes.
use skeyevss_backend_service.Prelude.{◌≡◌, refl, some, nat_beq, length}
use skeyevss_backend_service.Text.{Text, bytes}
use skeyevss_backend_service.XMap.{returned}
use skeyevss_backend_service.Crypto.{Cipher, encrypt, decrypt}
use skeyevss_backend_service.Crypto.Roundtrip.{sealed, decrypt-encrypt}

abbrev pub plain_cipher : Cipher
plain_cipher = record {
  valid_key = λ key. nat_beq (length key) 16;
  cbc_encrypt = λ key src. src;
  cbc_decrypt = λ key src. src;
  base64_encode = λ src. src;
  base64_decode = λ src. some src;
  length-cbc_encrypt = λ key src. refl;
  cbc_inverse = λ key src is_valid is_even. refl;
  base64_not_empty = λ src is_pos. is_pos;
  base64_inverse = λ src. refl;
}

abbrev pub key16 : Text
key16 = bytes "lbV2lcq1mLoXL3GV"

abbrev greeting : Text
greeting = bytes "token"

decrypt-encrypt_example :
    (encrypt plain_cipher key16 greeting ≡ returned (some (sealed plain_cipher key16 greeting)))
    × (decrypt plain_cipher key16 (sealed plain_cipher key16 greeting) ≡ some greeting)
decrypt-encrypt_example = decrypt-encrypt plain_cipher key16 greeting refl
