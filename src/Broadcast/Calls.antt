-- ===== src/Broadcast/Calls.antt =====
-- Sequences of calls on a manager.
use skeyevss_backend_service.Prelude.{
  ℕ, ◌≡◌, refl, sym, ◌∙◌, Bool, false, List, [], ◌∷◌, ◌++◌, arith, Option-cases, inl, inr, ℤ, ap,
}
use skeyevss_backend_service.Text.{Text, text_comparable}
use skeyevss_backend_service.GoMap.{GoMap, RangeOrder, keys, lookup, insert}
use skeyevss_backend_service.XMap.{Outcome, returned, panicked}
use skeyevss_backend_service.Broadcast.{
  Manager, new_broadcast, send, register_receiver, unregister_receiver, unregister_all_receivers,
  is_idle, and_then, cleanup_one, cleanup_loop, cleanup_tick, close_loop, close, noted,
  broadcast_loop, broadcast,
}
use skeyevss_backend_service.Broadcast.Sound.{
  IsSound, Returns, send-IsSound, register_receiver-IsSound, unregister_receiver-Returns,
  unregister_all_receivers-Returns,
}

pub data Call (D : Type 0) : Type 0 where
  sends : ℕ → Text → D → Call D
  registers : ℕ → Text → Call D
  unregisters unregisters_all : Text → Call D
  cleans : RangeOrder Text → ℕ → ℕ → Call D
  closes : RangeOrder Text → Call D
  broadcasts : RangeOrder Text → ℕ → D → Call D

module _ {D : Type 0} where
  abbrev pub state_of : Outcome (Bool × Manager D) → Outcome (Manager D)
  state_of panicked = panicked
  state_of (returned (ok, m)) = returned m

  abbrev pub state_after : Outcome (GoMap Text Bool × Manager D) → Outcome (Manager D)
  state_after panicked = panicked
  state_after (returned (result, m)) = returned m

  pub call : Call D → Manager D → Outcome (Manager D)
  call (sends now name d) m = state_of (send now name d m)
  call (registers now name) m = returned (register_receiver now name m)
  call (unregisters name) m = unregister_receiver name m
  call (unregisters_all name) m = unregister_all_receivers name m
  call (cleans order now max_idle) m = cleanup_tick order now max_idle m
  call (closes order) m = close order m
  call (broadcasts order now d) m = state_after (broadcast order now d m)

  pub run_calls : List (Call D) → Manager D → Outcome (Manager D)
  unfolding call
  run_calls [] m = returned m
  run_calls (c ∷ calls) m = and_then (run_calls calls) (call c m)

  cleanup_one_sound :
      (now max_idle : ℕ) (name : Text) (m : Manager D)
      → IsSound m
      → cleanup_one now max_idle name m ≡ returned m
  unfolding cleanup_one
  cleanup_one_sound now max_idle name m h = elim (Option-cases (lookup name m.channels)) [
    | inl e ↦ rw (e, cleanup_one) refl
    | inr (info, e) ↦
        let used = (h name info e).used in
        let busy : is_idle now max_idle info ≡ false = ground arith in
        rw (e, busy, cleanup_one) refl
  ]

  cleanup_loop_sound :
      (now max_idle : ℕ) (names : List Text) (m : Manager D)
      → IsSound m
      → cleanup_loop now max_idle names m ≡ returned m
  unfolding cleanup_loop
  cleanup_loop_sound now max_idle [] m h = refl
  cleanup_loop_sound now max_idle (name ∷ names) m h =
      ap (and_then (cleanup_loop now max_idle names)) (cleanup_one_sound now max_idle name m h)
      ∙ cleanup_loop_sound now max_idle names m h

  -- Where every entry of the map is open, used and within its capacity, as it is after
  -- every sequence of calls, the cleanup worker cleans up nothing, however long a channel is idle.
  cleanup_tick_sound :
      (order : RangeOrder Text) (now max_idle : ℕ) (m : Manager D)
      → IsSound m
      → cleanup_tick order now max_idle m ≡ returned m
  unfolding cleanup_tick
  cleanup_tick_sound order now max_idle m h =
      cleanup_loop_sound now max_idle (order.arrange (keys m.channels)) m h

  close_loop-Returns :
      (names : List Text) (m : Manager D) → IsSound m → Returns (close_loop names m)
  unfolding close_loop
  close_loop-Returns [] m h = (m, refl, h)
  close_loop-Returns (name ∷ names) m h =
      let r = unregister_all_receivers-Returns name m h in
      let rest = close_loop-Returns names r.0 r.2 in
      (rest.0, ap (and_then (close_loop names)) r.1 ∙ rest.1, rest.2)

  broadcast_loop-Returns :
      (now : ℕ) (d : D) (names : List Text) (result : GoMap Text Bool) (m : Manager D)
      → IsSound m
      → Returns (state_after (broadcast_loop now d names result m))
  unfolding broadcast_loop
  broadcast_loop-Returns now d [] result m h = (m, refl, h)
  broadcast_loop-Returns now d (name ∷ names) result m h =
      let r = send-IsSound now name d m h in
      let rest = broadcast_loop-Returns now d names (insert name r.0 result) r.1 r.3 in
      (
        rest.0,
        ap (λ o. state_after (noted name result (broadcast_loop now d names) o)) r.2 ∙ rest.1,
        rest.2,
      )

  call-Returns : (c : Call D) (m : Manager D) → IsSound m → Returns (call c m)
  unfolding call close broadcast
  call-Returns (sends now name d) m h =
      let r = send-IsSound now name d m h in (r.1, ap state_of r.2, r.3)
  call-Returns (registers now name) m h =
      (register_receiver now name m, refl, register_receiver-IsSound now name m h)
  call-Returns (unregisters name) m h = unregister_receiver-Returns name m h
  call-Returns (unregisters_all name) m h = unregister_all_receivers-Returns name m h
  call-Returns (cleans order now max_idle) m h = (m, cleanup_tick_sound order now max_idle m h, h)
  call-Returns (closes order) m h = close_loop-Returns (order.arrange (keys m.channels)) m h
  call-Returns (broadcasts order now d) m h =
      broadcast_loop-Returns now d (order.arrange (keys m.channels)) [] m h

  run_calls-Returns :
      (calls : List (Call D)) (m : Manager D) → IsSound m → Returns (run_calls calls m)
  unfolding run_calls
  run_calls-Returns [] m h = (m, refl, h)
  run_calls-Returns (c ∷ calls) m h =
      let r = call-Returns c m h in
      let rest = run_calls-Returns calls r.0 r.2 in
      (rest.0, ap (and_then (run_calls calls)) r.1 ∙ rest.1, rest.2)

  -- From a new manager on, every sequence of calls returns: none panics by a send on a closed
  -- channel or by closing a channel twice. Afterwards every entry of the map is open, is used and
  -- holds no more than its capacity.
  pub run_calls-new :
      (max_capacity : ℤ) (calls : List (Call D))
      → Returns (run_calls calls (new_broadcast max_capacity))
  unfolding new_broadcast lookup
  run_calls-new max_capacity calls =
      run_calls-Returns calls (new_broadcast max_capacity) (λ name info e. cc e)

  run_calls-cleans :
      (order : RangeOrder Text) (now max_idle : ℕ) (calls : List (Call D)) (m : Manager D)
      → IsSound m
      → run_calls (calls ++ cleans order now max_idle ∷ []) m ≡ run_calls calls m
  unfolding run_calls call
  run_calls-cleans order now max_idle [] m h =
      ap (and_then (run_calls [])) (cleanup_tick_sound order now max_idle m h)
  run_calls-cleans order now max_idle (c ∷ calls) m h =
      let r = call-Returns c m h in
      ap (and_then (run_calls (calls ++ cleans order now max_idle ∷ []))) r.1
      ∙ run_calls-cleans order now max_idle calls r.0 r.2
      ∙ ap (and_then (run_calls calls)) (sym r.1)

  -- The bug: after every sequence of calls on a new manager a round of the cleanup worker changes
  -- nothing, however long the channels have been idle.
  pub never_cleaned :
      (order : RangeOrder Text) (now max_idle : ℕ) (max_capacity : ℤ) (calls : List (Call D))
      → run_calls (calls ++ cleans order now max_idle ∷ []) (new_broadcast max_capacity)
        ≡ run_calls calls (new_broadcast max_capacity)
  unfolding new_broadcast lookup
  never_cleaned order now max_idle max_capacity calls =
      run_calls-cleans order now max_idle calls (new_broadcast max_capacity) (λ name info e. cc e)
