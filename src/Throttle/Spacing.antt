-- ===== src/Throttle/Spacing.antt =====
-- The calls that the throttle makes for one key.
use mathlib.Core.Bool.{false≢true}
use skeyevss_backend_service.Prelude.{
  ℕ, ◌+◌, ◌≤◌, ◌≡◌, ◌≢◌, refl, sym, ap, ◌∙◌, subst, Bool, true, false, Option, none, some, List, [],
  ◌∷◌, if◌then◌else◌, nat_beq, ltb, arith, Bool-cases, Option-cases, inl, inr,
}
use skeyevss_backend_service.Text.{Text, text_beq, text_beq_iff}
use skeyevss_backend_service.Throttle.{
  ConcurrentMap, ThrottleEntry, new_entry, is_empty, is_free, throttle_entry, throttle,
}

-- The times, of calls for one key, at which a call is made: from the last one on.
abbrev pub made : ℕ → Option ℕ → List ℕ → List ℕ
made duration last [] = []
made duration last (now ∷ nows) =
    let others = made duration last nows in
    let after = now ∷ made duration (some now) nows in
    if is_free last duration now then after else others

-- Each of two neighbours is later than the one before by the duration at least.
abbrev pub IsSpaced : ℕ → List ℕ → Type 0
IsSpaced duration [] = Unit
IsSpaced duration (s ∷ []) = Unit
IsSpaced duration (s ∷ t ∷ times) = s + duration ≤ t × IsSpaced duration (t ∷ times)

made-IsSpaced :
    (duration : ℕ) (last : ℕ) (nows : List ℕ)
    → IsSpaced duration (last ∷ made duration (some last) nows)
made-IsSpaced duration last [] = tt
made-IsSpaced duration last (now ∷ nows) = elim (Bool-cases (ltb now (last + duration))) [
  | inl early ↦ rw early (made-IsSpaced duration last nows)
  | inr late ↦ rw late (ground arith, made-IsSpaced duration now nows)
]

-- The times of one key.
abbrev pub times_of : Text → List (Text × ℕ) → List ℕ
times_of id [] = []
times_of id ((i, now) ∷ calls) =
    let rest = times_of id calls in if text_beq i id then now ∷ rest else rest

all-IsSpaced : (duration : ℕ) (nows : List ℕ) → IsSpaced duration (made duration none nows)
all-IsSpaced duration [] = tt
all-IsSpaced duration (now ∷ nows) = made-IsSpaced duration now nows

times_if_same :
    (id i : Text) (now : ℕ) (b : Bool) (rest : List (Text × ℕ))
    → text_beq i id ≡ true
    → times_of id (if b then (i, now) ∷ rest else rest)
      ≡ (if b then now ∷ times_of id rest else times_of id rest)
times_if_same id i now true rest same = rw same refl
times_if_same id i now false rest same = refl

times_if_other :
    (id i : Text) (now : ℕ) (b : Bool) (rest : List (Text × ℕ))
    → text_beq i id ≡ false
    → times_of id (if b then (i, now) ∷ rest else rest) ≡ times_of id rest
times_if_other id i now true rest other = rw other refl
times_if_other id i now false rest other = refl

other_text : (a b : Text) → text_beq a b ≡ false → a ≢ b
other_text a b other eq = false≢true (sym other ∙ (text_beq_iff a b).1 eq)

-- The time of a key after a call for it.
abbrev next : ℕ → Option ℕ → ℕ → Option ℕ
next duration last now = if is_free last duration now then some now else last

made_step :
    (duration : ℕ) (last : Option ℕ) (now : ℕ) (nows : List ℕ) (b : Bool) (rest : List ℕ)
    → b ≡ is_free last duration now
    → rest ≡ made duration (next duration last now) nows
    → (if b then now ∷ rest else rest) ≡ made duration last (now ∷ nows)
made_step duration last now nows b rest eq ih = elim (Bool-cases (is_free last duration now)) [
  | inl free ↦ rw (eq, free) (ap (λ l. now ∷ l) (rw free at ih))
  | inr busy ↦ rw (eq, busy) (rw busy at ih)
]

module _ (m : ConcurrentMap ThrottleEntry) (duration : ℕ) where
  -- The calls that are made, of a sequence of calls with their keys.
  pub executed : List (Text × ℕ) → m.Store → List (Text × ℕ)
  executed [] s = []
  executed ((id, now) ∷ calls) s =
      let a = throttle m id duration now s in
      let rest = executed calls a.1 in if a.0 then (id, now) ∷ rest else rest

  -- The time that the map holds for a key.
  abbrev pub last_of : Option ThrottleEntry → Option ℕ
  last_of none = none
  last_of (some entry) = entry.last_exec

  -- What a call does: whether it is made, and the times that the map holds after it.
  abbrev Throttled : Text → ℕ → m.Store → Bool × m.Store → Type 0
  Throttled id now s a =
      (a.0 ≡ is_free (last_of (m.get id s)) duration now)
      × (last_of (m.get id a.1) ≡ next duration (last_of (m.get id s)) now)
      × ((i : Text) → i ≢ id → last_of (m.get i a.1) ≡ last_of (m.get i s))

  throttle_entry_lem :
      (id : Text) (now : ℕ) (s : m.Store) (entry : ThrottleEntry)
      → m.get id s ≡ some entry
      → Throttled id now s (throttle_entry m id duration now entry s)
  throttle_entry_lem id now s entry eq =
      let later : ThrottleEntry = record { last_exec = some now } in
      elim (Bool-cases (is_free entry.last_exec duration now)) [
        | inl free ↦ rw eq (
            rw free (
              rw (m.mutate_lem id later entry s eq) (
                refl,
                ap last_of (m.get-set id later s),
                λ i other. ap last_of (m.get-set_other id i later s other),
              )))
        | inr busy ↦ rw eq (rw busy (refl, ap last_of eq, λ i other. refl))
      ]

  throttle_lem :
      (id : Text) (now : ℕ) (s : m.Store)
      → is_empty id ≡ false
      → nat_beq duration 0 ≡ false
      → Throttled id now s (throttle m id duration now s)
  unfolding throttle
  throttle_lem id now s not_empty is_pos = elim (Option-cases (m.get id s)) [
    | inl absent ↦
        let first =
          throttle_entry_lem id now (m.set id new_entry s) new_entry (m.get-set id new_entry s) in
        let held = ap last_of (m.get-set id new_entry s) in
        rw (not_empty, is_pos, m.set_if_absent_new id new_entry s absent, absent)
          (
            first.0 ∙ ap (λ o. is_free o duration now) held,
            first.1 ∙ ap (λ o. next duration o now) held,
            λ i other. first.2 i other ∙ ap last_of (m.get-set_other id i new_entry s other),
          )
    | inr (entry, eq) ↦
        rw (not_empty, is_pos, m.set_if_absent_old id new_entry entry s eq, eq)
          (rw eq at (throttle_entry_lem id now s entry eq))
  ]

  throttle_other :
      (id i : Text) (now : ℕ) (s : m.Store)
      → nat_beq duration 0 ≡ false
      → id ≢ i
      → last_of (m.get id (throttle m i duration now s).1) ≡ last_of (m.get id s)
  unfolding throttle
  throttle_other id i now s is_pos other = elim (Bool-cases (is_empty i)) [
    | inl no_id ↦ rw no_id refl
    | inr some_id ↦ (throttle_lem i now s some_id is_pos).2 id other
  ]

  executed_same :
      (id : Text) (now : ℕ) (calls : List (Text × ℕ)) (s : m.Store)
      → is_empty id ≡ false
      → nat_beq duration 0 ≡ false
      → times_of id (executed calls (throttle m id duration now s).1)
        ≡ made duration (last_of (m.get id (throttle m id duration now s).1)) (times_of id calls)
      → times_of id (executed ((id, now) ∷ calls) s)
        ≡ made duration (last_of (m.get id s)) (now ∷ times_of id calls)
  unfolding executed
  executed_same id now calls s not_empty is_pos ih =
      let a = throttle m id duration now s in
      let lem = throttle_lem id now s not_empty is_pos in
      times_if_same id id now a.0 (executed calls a.1) ((text_beq_iff id id).1 refl)
      ∙ made_step duration (last_of (m.get id s)) now (times_of id calls) a.0
          (times_of id (executed calls a.1)) lem.0
          (ih ∙ ap (λ o. made duration o (times_of id calls)) lem.1)

  -- With a duration that is positive, the throttle makes, of the calls for a key that is not empty,
  -- among calls for other keys, the first one and each one that comes the duration after the last one
  -- made.
  pub executed_lem :
      (id : Text) (calls : List (Text × ℕ)) (s : m.Store)
      → is_empty id ≡ false
      → nat_beq duration 0 ≡ false
      → times_of id (executed calls s) ≡ made duration (last_of (m.get id s)) (times_of id calls)
  unfolding executed
  executed_lem id [] s not_empty is_pos = refl
  executed_lem id ((i, now) ∷ calls) s not_empty is_pos =
      let a = throttle m i duration now s in
      let ih = executed_lem id calls a.1 not_empty is_pos in
      elim (Bool-cases (text_beq i id)) [
        | inl same ↦ rw same (
            subst
              (λ k.
                times_of id (executed ((k, now) ∷ calls) s)
                ≡ made duration (last_of (m.get id s)) (now ∷ times_of id calls))
              (sym ((text_beq_iff i id).0 same))
              (executed_same id now calls s not_empty is_pos
                (executed_lem id calls (throttle m id duration now s).1 not_empty is_pos)))
        | inr other ↦ rw other (
            times_if_other id i now a.0 (executed calls a.1) other
            ∙ ih
            ∙ ap (λ o. made duration o (times_of id calls))
                (throttle_other id i now s is_pos (λ eq. other_text i id other (sym eq))))
      ]

  -- Among any calls after the start, two that are made for one key are apart by the duration.
  pub executed-IsSpaced :
      (id : Text) (calls : List (Text × ℕ))
      → is_empty id ≡ false
      → nat_beq duration 0 ≡ false
      → IsSpaced duration (times_of id (executed calls m.new))
  executed-IsSpaced id calls not_empty is_pos =
      rw (executed_lem id calls m.new not_empty is_pos)
        (rw (m.get-new id) (all-IsSpaced duration (times_of id calls)))
