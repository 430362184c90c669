-- ===== src/Stream/Counter.antt =====
-- Names of playbacks differ by the counter. `Produce` adds one to it in one step and reads it in
-- another, and other goroutines may come in between.
use mathlib.Core.List.{append_cancel_left, append_assoc}
use skeyevss_backend_service.Prelude.{ℕ, ◌+◌, ◌≡◌, ◌≢◌, sym, ap, ◌∙◌, List, [], ◌∷◌, ◌++◌, arith}
use skeyevss_backend_service.Text.{Text, bytes}
use skeyevss_backend_service.Text.Decimal.{decimal_injective}
use skeyevss_backend_service.Stream.{playback, flag, produce_at, produce}

-- The steps of goroutines that produce names: add to the counter, then read it into a name.
pub data Act : Type 0 where
  adds : Act
  reads : Text → Text → Text → Act

-- The counter, and the names so far.
pub run_acts : List Act → ℕ → List Text → ℕ × List Text
unfolding produce_at
run_acts [] count names = (count, names)
run_acts (adds ∷ acts) count names = run_acts acts (count + 1) names
run_acts (reads device channel play_type ∷ acts) count names =
    run_acts acts count (names ++ produce_at count device channel play_type ∷ [])

under :
    (p s t : Text)
    → p ++ (flag ∷ s) ≡ p ++ (flag ∷ t)
    → (p ++ flag ∷ []) ++ s ≡ (p ++ flag ∷ []) ++ t
under p s t h = append_assoc p (flag ∷ []) s ∙ h ∙ sym (append_assoc p (flag ∷ []) t)

-- The names of playbacks of one channel differ whenever the counter that they read does.
pub playback_injective :
    (m n : ℕ) (device channel : Text)
    → produce_at m device channel playback ≡ produce_at n device channel playback
    → m ≡ n
unfolding produce_at
playback_injective m n device channel h = decimal_injective m n (
    append_cancel_left (playback ++ flag ∷ []) _ _ (
      append_cancel_left (channel ++ flag ∷ []) _ _ (
        under channel _ _ (
          append_cancel_left (device ++ flag ∷ []) _ _
            (under device _ _ (append_cancel_left (bytes "stream" ++ flag ∷ []) _ _ h))))))

-- The bug: when two goroutines produce the name of a playback of the same channel and both add to
-- the counter before either reads it, both streams get the same name.
pub playbacks_collide :
    (count : ℕ) (device channel : Text)
    → let read = reads device channel playback in
      let name = produce_at (count + 2) device channel playback in
      run_acts (adds ∷ adds ∷ read ∷ read ∷ []) count [] ≡ (count + 2, name ∷ name ∷ [])
unfolding run_acts
playbacks_collide count device channel =
    ap (λ n. (n, produce_at n device channel playback ∷ produce_at n device channel playback ∷ []))
      (omega arith)

-- One after the other, two playbacks of the same channel get different names.
pub playbacks_differ :
    (count : ℕ) (device channel : Text)
    → let first = produce device channel playback count in
      let second = produce device channel playback first.1 in first.0 ≢ second.0
unfolding produce
playbacks_differ count device channel h =
    let e = playback_injective (count + 1) (count + 1 + 1) device channel h in omega arith
