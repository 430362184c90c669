-- ===== src/Buffers/Tests.antt =====
-- Two chunks of a buffer, with a decoder that leaves the text as it is.
use skeyevss_backend_service.Prelude.{◌≡◌, refl, none, some, List, [], ◌∷◌}
use skeyevss_backend_service.Text.{bytes}
use skeyevss_backend_service.Buffers.{Item, get}
use skeyevss_backend_service.Buffers.Promise.{
  Op, adds, sets, gets, cleans, run, bytes_of, handed_out, spec_run, given_run,
}
use skeyevss_backend_service.Buffers.Contents.{get-run}

-- The item of "a" comes with a copy that is not its contents, and so does not "b", which was added to.
abbrev odd : Item
odd = record { contents = bytes "x"; created_at = 1; cached = some (bytes "y") }

abbrev calls : List Op
calls =
    sets (bytes "a") odd
    ∷ sets (bytes "b") odd
    ∷ gets (bytes "a")
    ∷ adds (bytes "b") (bytes "z") 2
    ∷ cleans 5 6
    ∷ []

get-run_example : bytes_of (get (bytes "a") (run (λ s. some s) calls [])).0 ≡ some (bytes "y")
get-run_example = get-run (λ s. some s) calls (bytes "a")

copy_dropped :
    handed_out
      (spec_run (λ s. some s) (bytes "b") calls none)
      (given_run (λ s. some s) (bytes "b") calls none)
    ≡ some (bytes "xz")
copy_dropped = refl
