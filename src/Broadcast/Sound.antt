-- ===== src/Broadcast/Sound.antt =====
-- The entries of the map are open, used and within their capacity, whatever is called, and no
-- call panics.
use skeyevss_backend_service.Prelude.{
  ℕ, ◌-◌, ◌≤◌, ◌≡◌, refl, sym, ◌∙◌, Bool, true, false, some, List, [], ◌∷◌, ◌++◌, ◌==◌, ltb, leb,
  length, length-append, arith, Bool-cases, Option-cases, List-cases, inl, inr, ap,
}
use mathlib.Core.Option.{some-injective}
use skeyevss_backend_service.Text.{Text, text_comparable}
use skeyevss_backend_service.GoMap.{GoMap, lookup, insert, delete}
use skeyevss_backend_service.GoMap.Laws.{lookup-insert, lookup-delete}
use skeyevss_backend_service.XMap.{Outcome, returned}
use skeyevss_backend_service.Broadcast.{
  Info, Manager, touch, push, pushed, send, fresh, register_receiver, close_channel, retired_as,
  unregister_receiver, unregister_all_receivers,
}

module _ {D : Type 0} where
  -- An entry that the map may hold.
  pub record IsLive (info : Info D) : Type 0 where
    pub is_open : info.is_closed ≡ false
    pub used : 1 ≤ info.usage
    pub within : length info.queue ≤ info.capacity

  abbrev pub IsSound : Manager D → Type 0
  IsSound m = (name : Text) (info : Info D) → lookup name m.channels ≡ some info → IsLive info

  -- The call returns, in a sound state.
  abbrev pub Returns : Outcome (Manager D) → Type 0
  Returns r = (m : Manager D) × (r ≡ returned m) × IsSound m

  insert-IsSound :
      (name : Text) (info : Info D) (channels : GoMap Text (Info D)) (c : ℕ)
      (l : List (Text × Info D))
      → IsLive info
      → IsSound (record { channels = channels; max_capacity = c; retired = l })
      → IsSound (record { channels = insert name info channels; max_capacity = c; retired = l })
  insert-IsSound name info channels c l live h k i e = elim (Bool-cases (name == k)) [
    | inl same ↦
        let new : some info ≡ some i = rw same at (sym (lookup-insert name k info channels) ∙ e) in
        rw (← some-injective info i new) live
    | inr other ↦ h k i (rw other at (sym (lookup-insert name k info channels) ∙ e))
  ]

  delete-IsSound :
      (name : Text) (channels : GoMap Text (Info D)) (c : ℕ) (l l' : List (Text × Info D))
      → IsSound (record { channels = channels; max_capacity = c; retired = l })
      → IsSound (record { channels = delete name channels; max_capacity = c; retired = l' })
  delete-IsSound name channels c l l' h k i e = elim (Bool-cases (name == k)) [
    | inl same ↦ cc (rw same at (sym (lookup-delete name k channels) ∙ e))
    | inr other ↦ h k i (rw other at (sym (lookup-delete name k channels) ∙ e))
  ]

  touch-IsLive : (now : ℕ) (info : Info D) → IsLive info → IsLive (touch now info)
  touch-IsLive now info h = record { is_open = h.is_open; used = omega arith; within = h.within }

  push-IsLive :
      (d : D) (info : Info D)
      → IsLive info
      → (ok : Bool) × (after : Info D) × (push d info ≡ returned (ok, after)) × IsLive after
  unfolding push
  push-IsLive d info h = elim (Bool-cases (ltb (length info.queue) info.capacity)) [
    | inl room ↦ (
      true,
      record info { queue = info.queue ++ d ∷ [] },
      rw (h.is_open, room, push) refl,
      record {
        is_open = h.is_open;
        used = h.used;
        within = rw (length-append info.queue (d ∷ [])) (ground arith);
      },
    )
    | inr full ↦ (false, info, rw (h.is_open, full, push) refl, h)
  ]

  -- Send returns, and the state stays sound.
  pub send-IsSound :
      (now : ℕ) (name : Text) (d : D) (m : Manager D)
      → IsSound m
      → (ok : Bool) × (after : Manager D) × (send now name d m ≡ returned (ok, after))
        × IsSound after
  unfolding send
  send-IsSound now name d m h = elim (Option-cases (lookup name m.channels)) [
    | inl e ↦ (false, m, rw (e, send) refl, h)
    | inr (info, e) ↦
        let p = push-IsLive d (touch now info) (touch-IsLive now info (h name info e)) in
        (
          p.0,
          record m { channels = insert name p.1 m.channels },
          rw (e, send) (ap (pushed name m) p.2),
          insert-IsSound name p.1 m.channels m.max_capacity m.retired p.3 h,
        )
  ]

  fresh-IsLive : (now capacity : ℕ) → IsLive (fresh now capacity)
  fresh-IsLive now capacity = record { is_open = refl; used = omega arith; within = omega arith }

  pub register_receiver-IsSound :
      (now : ℕ) (name : Text) (m : Manager D) → IsSound m → IsSound (register_receiver now name m)
  unfolding register_receiver
  register_receiver-IsSound now name m h = elim (Option-cases (lookup name m.channels)) [
    | inl e ↦
        rw (e, register_receiver)
          (insert-IsSound name (fresh now m.max_capacity) m.channels m.max_capacity m.retired
            (fresh-IsLive now m.max_capacity) h)
    | inr (info, e) ↦
        rw (e, register_receiver)
          (insert-IsSound name (touch now info) m.channels m.max_capacity m.retired
            (touch-IsLive now info (h name info e)) h)
  ]

  pub close_channel-returns :
      (info : Info D)
      → info.is_closed ≡ false
      → (after : Info D) × (close_channel info ≡ returned after) × (after.is_closed ≡ true)
  unfolding close_channel
  close_channel-returns info h = elim (List-cases info.queue) [
    | inl e ↦ (
      record info { queue = []; is_closed = true },
      rw (e, close_channel) (ap (λ q. returned (record info { queue = q; is_closed = true })) e),
      refl,
    )
    | inr (d, rest, e) ↦
        (record info { queue = rest; is_closed = true }, rw (e, h, close_channel) refl, refl)
  ]

  retire-Returns :
      (name : Text) (info : Info D) (m : Manager D)
      → info.is_closed ≡ false
      → IsSound m
      → Returns (retired_as name m (close_channel info))
  retire-Returns name info m o h =
      let c = close_channel-returns info o in
      (
        record m { channels = delete name m.channels; retired = m.retired ++ (name, c.0) ∷ [] },
        ap (retired_as name m) c.1,
        delete-IsSound name m.channels m.max_capacity m.retired (m.retired ++ (name, c.0) ∷ []) h,
      )

  pub unregister_receiver-Returns :
      (name : Text) (m : Manager D) → IsSound m → Returns (unregister_receiver name m)
  unfolding unregister_receiver
  unregister_receiver-Returns name m h = elim (Option-cases (lookup name m.channels)) [
    | inl e ↦ (m, rw (e, unregister_receiver) refl, h)
    | inr (info, e) ↦
        let live = h name info e in
        elim (Bool-cases (leb (info.usage - 1) 0)) [
          | inl last ↦
              rw (e, last, unregister_receiver)
                (retire-Returns name (record info { usage = info.usage - 1 }) m live.is_open h)
          | inr more ↦
              let after = record info { usage = info.usage - 1 } in
              (
                record m { channels = insert name after m.channels },
                rw (e, more, unregister_receiver) refl,
                insert-IsSound name after m.channels m.max_capacity m.retired
                    (record { is_open = live.is_open; used = ground arith; within = live.within })
                    h,
              )
        ]
  ]

  pub unregister_all_receivers-Returns :
      (name : Text) (m : Manager D) → IsSound m → Returns (unregister_all_receivers name m)
  unfolding unregister_all_receivers
  unregister_all_receivers-Returns name m h = elim (Option-cases (lookup name m.channels)) [
    | inl e ↦ (m, rw (e, unregister_all_receivers) refl, h)
    | inr (info, e) ↦
        rw (e, unregister_all_receivers)
          (retire-Returns name (record info { usage = 0 }) m (h name info e).is_open h)
  ]
