-- ===== src/Stream/Names.antt =====
-- What the parser makes of the names that are produced.
use mathlib.Core.List.{append_assoc}
use skeyevss_backend_service.Prelude.{
  ℕ, ◌≡◌, refl, ap, ◌∙◌, true, some, [], ◌∷◌, ◌++◌, Bool-cases, inl, inr,
}
use skeyevss_backend_service.Text.{Text, bytes, text_beq, split, decimal}
use skeyevss_backend_service.Text.Split.{lacks, split_piece, split_first, split_last}
use skeyevss_backend_service.Stream.{
  playback, flag, Item, stem, produce_at, produce_with, to_play_type, item_of, parse,
}

split-stem :
    (device channel rest : Text)
    → lacks flag device ≡ true
    → lacks flag channel ≡ true
    → split flag (stem device channel rest) ≡ bytes "stream" ∷ device ∷ channel ∷ split flag rest
split-stem device channel rest h₀ h₁ =
    split_piece flag (bytes "stream") (device ++ (flag ∷ (channel ++ (flag ∷ rest)))) refl
    ∙ ap (λ l. bytes "stream" ∷ l)
        (split_piece flag device (channel ++ (flag ∷ rest)) h₀
          ∙ ap (λ l. device ∷ l) (split_piece flag channel rest h₁))

-- The item that a name for this play type stands for: a talk is read back as a play.
abbrev pub item : Text → Text → Text → Item
item device channel play_type = record {
  channel = channel;
  device = device;
  play_type = to_play_type play_type;
}

parse-stem :
    (device channel play_type rest : Text)
    → lacks flag device ≡ true
    → lacks flag channel ≡ true
    → lacks flag play_type ≡ true
    → (parse (stem device channel play_type) ≡ some (item device channel play_type))
      × (parse (stem device channel (play_type ++ flag ∷ rest))
          ≡ some (item device channel play_type))
unfolding parse item_of
parse-stem device channel play_type rest h₀ h₁ h₂ = (
  ap item_of (
      split-stem device channel play_type h₀ h₁
      ∙ ap (λ l. bytes "stream" ∷ device ∷ channel ∷ l) (split_last flag play_type h₂)),
  ap item_of (
      split-stem device channel (play_type ++ flag ∷ rest) h₀ h₁
      ∙ ap (λ l. bytes "stream" ∷ device ∷ channel ∷ l) (split_piece flag play_type rest h₂)),
)

-- Names of devices, channels and play types without an underscore are read back, whatever the
-- counter or the identifier at their end: the device, the channel, and the play type, where
-- everything but a playback, a talk included, becomes a play.
pub parse-produce :
    (count : ℕ) (device channel play_type unique_id : Text)
    → lacks flag device ≡ true
    → lacks flag channel ≡ true
    → lacks flag play_type ≡ true
    → (parse (produce_at count device channel play_type) ≡ some (item device channel play_type))
      × (parse (produce_with device channel play_type unique_id)
          ≡ some (item device channel play_type))
unfolding produce_at produce_with
parse-produce count device channel play_type unique_id h₀ h₁ h₂ = (
  elim (Bool-cases (text_beq play_type playback)) [
    | inl back ↦
        rw (back, produce_at) (parse-stem device channel play_type (decimal count) h₀ h₁ h₂).1
    | inr other ↦ rw (other, produce_at) (parse-stem device channel play_type [] h₀ h₁ h₂).0
  ],
  (parse-stem device channel play_type unique_id h₀ h₁ h₂).1,
)

-- A device with an underscore is taken apart: the parser gives its first piece as the device and
-- what follows, up to the next underscore, as the channel.
pub parse_misreads :
    (first second channel play_type : Text)
    → lacks flag first ≡ true
    → lacks flag second ≡ true
    → (p : Text) × (parse (stem (first ++ flag ∷ second) channel play_type)
        ≡ some (item first second p))
unfolding parse item_of
parse_misreads first second channel play_type h₀ h₁ =
    let s = channel ++ (flag ∷ play_type) in
    let f = split_first flag s in
    (
      f.0,
      ap item_of (
          ap (λ t. split flag (bytes "stream" ++ (flag ∷ t)))
            (append_assoc first (flag ∷ second) (flag ∷ s))
          ∙ split-stem first second s h₀ h₁
          ∙ ap (λ l. bytes "stream" ∷ first ∷ second ∷ l) f.2),
    )
