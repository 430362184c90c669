-- ===== src/Broadcast/Tests.antt =====
-- The theorems of Broadcast at a concrete manager.
use mathlib.Core.List.Perm
use skeyevss_backend_service.Prelude.{ℕ, ◌≡◌, refl, none, some, List, [], ◌∷◌, ◌++◌, pos}
use skeyevss_backend_service.Text.{Text, bytes, text_comparable}
use skeyevss_backend_service.GoMap.{RangeOrder, lookup}
use skeyevss_backend_service.XMap.{returned, panicked}
use skeyevss_backend_service.Broadcast.{
  Info, Manager, touch, new_broadcast, push, fresh, register_receiver, retired_as,
  unregister_all_receivers,
}
use skeyevss_backend_service.Broadcast.Sound.{IsSound, Returns, register_receiver-IsSound}
use skeyevss_backend_service.Broadcast.Calls.{
  Call, sends, registers, unregisters, cleans, closes, run_calls, run_calls-new, never_cleaned,
}
use skeyevss_backend_service.Broadcast.Leaks.{send_after_close}

abbrev in_place : RangeOrder Text
in_place = record { arrange = λ l. l; arrange-perm = Perm.refl }

abbrev alarms : Text
alarms = bytes "alarms"

abbrev calls : List (Call ℕ)
calls =
    registers 10 alarms
    ∷ sends 11 alarms 7
    ∷ unregisters alarms
    ∷ cleans in_place 9000 60
    ∷ closes in_place
    ∷ sends 9001 alarms 8
    ∷ []

run_calls-new_example : Returns (run_calls calls (new_broadcast (pos 0)))
run_calls-new_example = run_calls-new (pos 0) calls

abbrev empty : Manager ℕ
empty = record { channels = []; max_capacity = 2; retired = [] }

empty-lookup : (name : Text) → lookup name empty.channels ≡ none
unfolding lookup
empty-lookup name = refl

empty-IsSound : IsSound empty
empty-IsSound name info e = cc (empty-lookup name, e)

abbrev one : Manager ℕ
one = register_receiver 10 alarms empty

one-IsSound : IsSound one
one-IsSound = register_receiver-IsSound 10 alarms empty empty-IsSound

never_cleaned_example :
    run_calls (calls ++ cleans in_place 99000 60 ∷ []) (new_broadcast (pos 0))
    ≡ run_calls calls (new_broadcast (pos 0))
never_cleaned_example = never_cleaned in_place 99000 60 (pos 0) calls

one-there : lookup alarms one.channels ≡ some (fresh 10 2)
unfolding register_receiver
one-there = refl

send_after_close_example :
    (after : Info ℕ) × (unregister_all_receivers alarms one
      ≡ retired_as alarms one (returned after))
    × (push 7 (touch 11 after) ≡ panicked)
send_after_close_example = send_after_close 11 alarms 7 one (fresh 10 2) one-IsSound one-there
