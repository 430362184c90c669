-- ===== src/Broadcast/Leaks.antt =====
-- Sends count as uses, so a receiver that goes does not take its channel along; and a sender that
-- has loaded an entry may find it closed.
use skeyevss_backend_service.Prelude.{
  ℕ, ◌<◌, ◌≡◌, refl, ap, ◌∙◌, true, false, none, some, [], ◌∷◌, ◌++◌, ◌==◌, beq_refl, if◌then◌else◌,
  ltb, length, arith, Bool-cases, Option-cases, inl, inr,
}
use skeyevss_backend_service.Text.{Text, text_comparable}
use skeyevss_backend_service.GoMap.{lookup, insert}
use skeyevss_backend_service.GoMap.Laws.{lookup-insert}
use skeyevss_backend_service.XMap.{returned, panicked}
use skeyevss_backend_service.Broadcast.{
  Info, Manager, touch, push, send, fresh, register_receiver, retired_as, unregister_receiver,
  unregister_all_receivers,
}
use skeyevss_backend_service.Broadcast.Sound.{IsSound, close_channel-returns}

module _ {D : Type 0} where
  -- What a send does to an entry of the map: it stands for the channel with the data at the end,
  -- or, when it is full, without.
  abbrev pub sent : ℕ → D → Info D → Info D
  sent now d info =
      if ltb (length info.queue) info.capacity
      then record (touch now info) { queue = info.queue ++ d ∷ [] }
      else touch now info

  send-there :
      (now : ℕ) (name : Text) (d : D) (m : Manager D) (info : Info D)
      → lookup name m.channels ≡ some info
      → info.is_closed ≡ false
      → send now name d m
        ≡ returned (
          ltb (length info.queue) info.capacity,
          record m { channels = insert name (sent now d info) m.channels },
        )
  unfolding send push
  send-there now name d m info e o = elim (Bool-cases (ltb (length info.queue) info.capacity)) [
    | inl room ↦ rw (e, send, push, o, room) refl
    | inr full ↦ rw (e, send, push, o, full) refl
  ]

  send-room :
      (now : ℕ) (name : Text) (d : D) (m : Manager D) (info : Info D)
      → lookup name m.channels ≡ some info
      → info.is_closed ≡ false
      → ltb (length info.queue) info.capacity ≡ true
      → send now name d m
        ≡ returned (
          true,
          record m {
            channels =
                insert name (record (touch now info) { queue = info.queue ++ d ∷ [] }) m.channels;
          },
        )
  unfolding send push
  send-room now name d m info e o room = rw (e, send, push, o, room) refl

  -- A send in a sound state: to a name without a channel it changes nothing and says false.
  -- Otherwise it says whether there was room; with room the data stands at the end of the queue,
  -- without it the queue stays; the use is counted in both cases, and no other channel changes.
  pub send_lem :
      (now : ℕ) (name other : Text) (d : D) (m : Manager D)
      → IsSound m
      → (m' : Manager D) × (send now name d m
          ≡ returned (
            elim (lookup name m.channels) [
              | none ↦ false
              | some info ↦ ltb (length info.queue) info.capacity
            ],
            m',
          ))
        × (lookup other m'.channels ≡ (elim (lookup name m.channels) [
          | none ↦ lookup other m.channels
          | some info ↦ if name == other then some (sent now d info) else lookup other m.channels
        ]))
  unfolding send
  send_lem now name other d m h = elim (Option-cases (lookup name m.channels)) [
    | inl e ↦ (m, rw (e, send) refl, rw e refl)
    | inr (info, e) ↦ (
      record m { channels = insert name (sent now d info) m.channels },
      rw e (send-there now name d m info e (h name info e).is_open),
      rw e (lookup-insert name other (sent now d info) m.channels),
    )
  ]

  -- The bug: a channel that one receiver registered, and to which something was sent, is still
  -- there after that receiver has unregistered.
  pub unregister_leaves :
      (t now : ℕ) (name : Text) (d : D) (m : Manager D)
      → lookup name m.channels ≡ none
      → 0 < m.max_capacity
      → (m₁ : Manager D) × (m₂ : Manager D) × (left : Info D) × (send now name d
            (register_receiver t name m)
          ≡ returned (true, m₁))
        × (unregister_receiver name m₁ ≡ returned m₂)
        × (lookup name m₂.channels ≡ some left)
        × (left.queue ≡ d ∷ [])
  unfolding register_receiver unregister_receiver
  unregister_leaves t now name d m h c =
      let info = fresh t m.max_capacity in
      let r = record m { channels = insert name info m.channels } in
      let s = record r {
        channels = insert name (record (touch now info) { queue = d ∷ [] }) r.channels;
      } in
      let last = record (touch now info) { queue = d ∷ []; usage = 1 } in
      let u = record s { channels = insert name last s.channels } in
      let there : lookup name r.channels ≡ some info =
        lookup-insert name name info m.channels ∙ rw (beq_refl name) refl in
      let there₁ : lookup name s.channels ≡ some (record (touch now info) { queue = d ∷ [] }) =
        lookup-insert name name (record (touch now info) { queue = d ∷ [] }) r.channels
        ∙ rw (beq_refl name) refl in
      let room : ltb 0 m.max_capacity ≡ true = ground arith in
      (
        s,
        u,
        last,
        rw (h, register_receiver) (send-room now name d r info there refl room),
        rw (there₁, unregister_receiver) refl,
        lookup-insert name name last s.channels ∙ rw (beq_refl name) refl,
        refl,
      )

  -- The bug: a sender loads the entry of a channel, all receivers are unregistered, and the sender
  -- goes on with the entry, which is closed now: it panics.
  pub send_after_close :
      (now : ℕ) (name : Text) (d : D) (m : Manager D) (info : Info D)
      → IsSound m
      → lookup name m.channels ≡ some info
      → (after : Info D) × (unregister_all_receivers name m ≡ retired_as name m (returned after))
        × (push d (touch now after) ≡ panicked)
  unfolding unregister_all_receivers push
  send_after_close now name d m info h e =
      let c = close_channel-returns (record info { usage = 0 }) (h name info e).is_open in
      (c.0, rw (e, unregister_all_receivers) (ap (retired_as name m) c.1), rw (c.2, push) refl)
