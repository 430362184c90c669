-- ===== src/Gatekeeper/Token.antt =====
-- The shuffled text is shuffled back, and the item of a token is read from it.
use skeyevss_backend_service.Prelude.{
  ℕ, zero, suc, ◌+◌, ◌-◌, ◌≤◌, ◌<◌, ◌≡◌, refl, sym, ap, ◌∙◌, true, false, some, [], ◌∷◌, ◌++◌, ltb,
  ltb→lt, lt→ltb, length, take, drop, length-append, arith, Bool-cases, List-cases, inl, inr,
}
use mathlib.Core.List.{append_assoc}
use skeyevss_backend_service.Text.{Text, bytes, trim_space}
use skeyevss_backend_service.Text.Trim.{
  trim_prefix, trim_suffix, take-append, drop-append, trim_prefix-append, trim_suffix-append,
  trim_space-frame, black_equals, black_b,
}
use skeyevss_backend_service.XMap.{returned}
use skeyevss_backend_service.Crypto.{Cipher, decrypt}
use skeyevss_backend_service.Crypto.Roundtrip.{sealed, read_back, decrypt-encrypt, sealed_not_empty}
use skeyevss_backend_service.Gatekeeper.{
  CacheItem, Json, Gatekeeper, prefix, suffix, is_empty, swap_string_parts, encryption, inner,
  decrypt_token, unmarshalled, with_id,
}

take-drop : (n : ℕ) (s : Text) → take n s ++ drop n s ≡ s
take-drop zero s = refl
take-drop (suc n) [] = refl
take-drop (suc n) (c ∷ s) = ap (λ l. c ∷ l) (take-drop n s)

length-take : (n : ℕ) (s : Text) → n ≤ length s → length (take n s) ≡ n
length-take zero s is_le = refl
length-take (suc n) [] is_le = omega (arith, is_le)
length-take (suc n) (c ∷ s) is_le = ap suc (length-take n s (omega (arith, is_le)))

length-drop : (n : ℕ) (s : Text) → length (drop n s) ≡ length s - n
length-drop zero s = omega arith
length-drop (suc n) [] = omega arith
length-drop (suc n) (c ∷ s) = omega (arith, length-drop n s)

take-of : (n : ℕ) (s t : Text) → length s ≡ n → take n (s ++ t) ≡ s
take-of n s t eq = ap (λ k. take k (s ++ t)) (sym eq) ∙ take-append s t

drop-of : (n : ℕ) (s t : Text) → length s ≡ n → drop n (s ++ t) ≡ t
drop-of n s t eq = ap (λ k. drop k (s ++ t)) (sym eq) ∙ drop-append s t

-- A long text is three bytes, a middle and three bytes.
long_text :
    (s : Text)
    → 10 ≤ length s
    → s ≡ take 3 s ++ take (length s - 3 - 3) (drop 3 s) ++ drop (length s - 3 - 3) (drop 3 s)
long_text s is_long = sym (
    append_assoc (take 3 s) (take (length s - 3 - 3) (drop 3 s))
      (drop (length s - 3 - 3) (drop 3 s))
    ∙ ap (λ t. take 3 s ++ t) (take-drop (length s - 3 - 3) (drop 3 s))
    ∙ take-drop 3 s)

not-short : (n : ℕ) → 10 ≤ n → ltb n 10 ≡ false
not-short n is_long = ground arith

length-parts : (a m b : Text) → length (a ++ m ++ b) ≡ length a + (length m + length b)
length-parts a m b = omega (arith, length-append (a ++ m) b, length-append a m)

last-part :
    (a m b : Text) → length a ≡ 3 → length b ≡ 3 → drop (length (a ++ m ++ b) - 3) (a ++ m ++ b) ≡ b
last-part a m b len_a len_b =
    drop-of (length (a ++ m ++ b) - 3) (a ++ m) b
      (omega (arith, length-parts a m b, length-append a m, len_a, len_b))

middle-part :
    (a m b : Text)
    → length a ≡ 3
    → length b ≡ 3
    → take (length (a ++ m ++ b) - 3 - 3) (drop 3 (a ++ m ++ b)) ≡ m
middle-part a m b len_a len_b =
    ap (take (length (a ++ m ++ b) - 3 - 3))
      (ap (drop 3) (append_assoc a m b) ∙ drop-of 3 a (m ++ b) len_a)
    ∙ take-of (length (a ++ m ++ b) - 3 - 3) m b (omega (arith, length-parts a m b, len_a, len_b))

first-part : (a m b : Text) → length a ≡ 3 → take 3 (a ++ m ++ b) ≡ a
first-part a m b len_a = ap (take 3) (append_assoc a m b) ∙ take-of 3 a (m ++ b) len_a

swap-parts :
    (a m b : Text)
    → length a ≡ 3
    → length b ≡ 3
    → 4 ≤ length m
    → swap_string_parts (a ++ m ++ b) ≡ b ++ m ++ a
unfolding swap_string_parts
swap-parts a m b len_a len_b is_long =
    rw (not-short (length (a ++ m ++ b)) (omega (arith, length-parts a m b, len_a, len_b, is_long)))
      (rw (last-part a m b len_a len_b)
        (rw (middle-part a m b len_a len_b) (rw (first-part a m b len_a) refl)))

swap_short : (s : Text) → length s < 10 → swap_string_parts s ≡ s
unfolding swap_string_parts
swap_short s is_short = rw (lt→ltb (length s) 10 is_short) refl

swap_long : (s : Text) → 10 ≤ length s → swap_string_parts (swap_string_parts s) ≡ s
swap_long s is_long =
    let a = take 3 s in
    let m = take (length s - 3 - 3) (drop 3 s) in
    let b = drop (length s - 3 - 3) (drop 3 s) in
    let len_a : length a ≡ 3 = length-take 3 s (omega (arith, is_long)) in
    let len_m : length m ≡ length s - 3 - 3 =
      length-take (length s - 3 - 3) (drop 3 s) (omega (arith, length-drop 3 s)) in
    let len_b : length b ≡ 3 =
      omega (arith, length-drop (length s - 3 - 3) (drop 3 s), length-drop 3 s, is_long) in
    let long_m : 4 ≤ length m = omega (arith, len_m, is_long) in
    ap (λ t. swap_string_parts (swap_string_parts t)) (long_text s is_long)
    ∙ ap swap_string_parts (swap-parts a m b len_a len_b long_m)
    ∙ swap-parts b m a len_b len_a long_m
    ∙ sym (long_text s is_long)

pub swap-swap : (s : Text) → swap_string_parts (swap_string_parts s) ≡ s
swap-swap s = elim (Bool-cases (ltb (length s) 10)) [
  | inl is_short ↦
      let eq = swap_short s (ltb→lt (length s) 10 is_short) in ap swap_string_parts eq ∙ eq
  | inr is_long ↦ swap_long s (ground arith)
]

-- The frame begins and ends with no white space.
black_frame : (s : Text) → trim_space (prefix ++ s ++ suffix) ≡ prefix ++ s ++ suffix
black_frame s =
    let start = bytes "GB=l/yb=Gy/b" ++ s ++ bytes "=/b/===/=" in
    ap trim_space (sym (append_assoc (prefix ++ s) (bytes "=/b/===/=") (bytes "b")))
    ∙ trim_space-frame 61 start 98 black_equals black_b
    ∙ append_assoc (prefix ++ s) (bytes "=/b/===/=") (bytes "b")

-- What is between the prefix and the suffix comes out again.
inner-frame : (s : Text) → inner (prefix ++ s ++ suffix) ≡ s
unfolding inner
inner-frame s =
    ap (λ t. trim_suffix (trim_prefix t prefix) suffix) (black_frame s)
    ∙ ap (λ t. trim_suffix (trim_prefix t prefix) suffix) (append_assoc prefix s suffix)
    ∙ ap (λ t. trim_suffix t suffix) (trim_prefix-append prefix (s ++ suffix))
    ∙ trim_suffix-append s suffix

swap_empty : swap_string_parts [] ≡ []
unfolding swap_string_parts
swap_empty = refl

-- A text that is not empty is shuffled to one that is not empty.
swap_not_empty : (s : Text) → 0 < length s → is_empty (swap_string_parts s) ≡ false
swap_not_empty s is_pos = elim (List-cases (swap_string_parts s)) [
  | inl no_text ↦
      let gone : s ≡ [] = sym (swap-swap s) ∙ ap swap_string_parts no_text ∙ swap_empty in
      ground (arith, is_pos, ap length gone)
  | inr (b, r, some_text) ↦ ap is_empty some_text
]

read_back_lem : (s : Text) → 0 < length s → read_back s ≡ s
read_back_lem [] is_pos = ground arith
read_back_lem (b ∷ s) is_pos = refl

module _ (c : Cipher) (j : Json) where
  -- The token of an item.
  pub token_of : Gatekeeper → CacheItem → Text
  token_of l item = prefix ++ swap_string_parts (sealed c l.key (j.item_json item)) ++ suffix

  pub token_not_empty : (l : Gatekeeper) (item : CacheItem) → is_empty (token_of l item) ≡ false
  unfolding token_of
  token_not_empty l item = refl

  -- A token is opened when there is something in its frame.
  decrypt_token-inner :
      (l : Gatekeeper) (t s : Text)
      → is_empty t ≡ false
      → inner t ≡ s
      → is_empty s ≡ false
      → decrypt_token c j l t ≡ unmarshalled c j (decrypt c l.key (swap_string_parts s))
  unfolding decrypt_token
  decrypt_token-inner l t s full_t eq full_s = rw full_t (rw eq (rw full_s refl))

  open_sealed :
      (l : Gatekeeper) (item : CacheItem)
      → c.valid_key l.key ≡ true
      → decrypt c l.key (swap_string_parts (swap_string_parts (sealed c l.key (j.item_json item))))
        ≡ some (j.item_json item)
  open_sealed l item is_valid =
      ap (decrypt c l.key) (swap-swap (sealed c l.key (j.item_json item)))
      ∙ (decrypt-encrypt c l.key (j.item_json item) is_valid).1
      ∙ ap some (read_back_lem (j.item_json item) (j.length-item_json item))

  -- With a key of a valid length and an id that is a text of JSON and not empty, the token is made,
  -- and the item is read back from it.
  pub decrypt-encryption :
      (l : Gatekeeper) (item : CacheItem)
      → c.valid_key l.key ≡ true
      → j.is_json_text item.id ≡ true
      → is_empty item.id ≡ false
      → (encryption c j l item ≡ returned (some (token_of l item)))
        × (decrypt_token c j l (token_of l item) ≡ some item)
  unfolding encryption token_of
  decrypt-encryption l item is_valid is_text not_empty = (
    rw (j.marshal_item_lem item is_text)
        (rw (decrypt-encrypt c l.key (j.item_json item) is_valid).0 refl),
    decrypt_token-inner l (token_of l item) (swap_string_parts (sealed c l.key (j.item_json item)))
          refl (inner-frame (swap_string_parts (sealed c l.key (j.item_json item))))
          (swap_not_empty (sealed c l.key (j.item_json item))
            (sealed_not_empty c l.key (j.item_json item)))
        ∙ ap (unmarshalled c j) (open_sealed l item is_valid)
        ∙ ap (with_id c j) (j.item_inverse item is_text)
        ∙ rw not_empty refl,
  )
