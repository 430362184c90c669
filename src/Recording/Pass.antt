-- ===== src/Recording/Pass.antt =====
-- What one pass of the recording plans starts and stops.
use skeyevss_backend_service.Prelude.{
  ℕ, zero, suc, ◌+◌, ◌-◌, ◌*◌, ◌≤◌, ◌<◌, ◌≡◌, refl, sym, ap, ◌∙◌, Bool, true, false, not, ◌&&◌,
  ◌||◌, Option, none, some, List, [], ◌∷◌, ◌++◌, Nodup, if◌then◌else◌, ltb, leb, nat_beq, length,
  arith, Bool-cases, inl, inr, nat_comparable,
}
use skeyevss_backend_service.Text.{Text}
use skeyevss_backend_service.GoMap.{GoMap, lookup, insert}
use skeyevss_backend_service.GoMap.Laws.{lookup-insert}
use skeyevss_backend_service.Arrays.{contains, arr_unique}
use skeyevss_backend_service.Arrays.Unique.{contains_iff, arr_unique_lem}
use skeyevss_backend_service.XMap.Keyed.{any}
use skeyevss_backend_service.Recording.{
  take_hours, drop_hours, at_hour, within, get_time_ranges, Project, week_loop, week_maps,
  within_any, hours_run, runs_now, due_channels, stopping, lock_got, Answers, Recorder, rel_map,
  send_any, with_channels, with_projects, locked, with_lock, do_pass,
}
use skeyevss_backend_service.Recording.Cover.{on_at, get_time_ranges_cover}

length-take_hours : (n : ℕ) (l : List Text) → n ≤ length l → length (take_hours n l) ≡ n
length-take_hours zero l h = refl
length-take_hours (suc n) [] h = omega arith
length-take_hours (suc n) (x ∷ l) h =
    let ih = length-take_hours n l (omega arith) in omega (arith, ih)

length-drop_hours : (n : ℕ) (l : List Text) → length (drop_hours n l) ≡ length l - n
length-drop_hours zero l = omega arith
length-drop_hours (suc n) [] = omega arith
length-drop_hours (suc n) (x ∷ l) = omega (arith, length-drop_hours n l)

abbrev pub hours_of_day : ℕ → List Text → List Text
hours_of_day week_day plains = take_hours 24 (drop_hours ((week_day - 1) * 24) plains)

lookup-week_loop :
    (days i w : ℕ) (plains : List Text) (maps : GoMap ℕ (List Text))
    → lookup w (week_loop days i plains maps)
      ≡ (if leb i w && ltb w (i + days) then some (hours_of_day w plains) else lookup w maps)
unfolding week_loop
lookup-week_loop zero i w plains maps = ground arith
lookup-week_loop (suc days) i w plains maps =
    lookup-week_loop days (suc i) w plains (insert i (hours_of_day i plains) maps)
    ∙ elim (Bool-cases (nat_beq i w)) [
      | inl same ↦
          let e : i ≡ w = ground arith in
          ground (
            arith,
            lookup-insert i w (hours_of_day i plains) maps,
            ap (λ x. hours_of_day x plains) e,
          )
      | inr other ↦ ground (arith, lookup-insert i w (hours_of_day i plains) maps)
    ]

within_any-any : (now : ℕ) (l : List (ℕ × ℕ)) → within_any now l ≡ any (within now) l
unfolding within_any
within_any-any now [] = refl
within_any-any now (x ∷ l) = ground (arith, within_any-any now l)

-- A plan of 168 hours runs, on the day `w` of the week and at a time within the hour `h` of the day,
-- exactly when that hour of that day is on, or the time is the first second of the hour and the hour
-- before, of the same day, is on.
pub runs_now_lem :
    (item : Project) (w start_of_day h r : ℕ)
    → length item.plans ≡ 168
    → 1 ≤ w
    → w ≤ 7
    → r < 3600
    → runs_now (at_hour start_of_day h + r) w start_of_day item ≡ (
        on_at h 0 (hours_of_day w item.plans)
        || (nat_beq r 0 && on_at h 1 (hours_of_day w item.plans)))
unfolding runs_now hours_run week_maps
runs_now_lem item w start_of_day h r e h₀ h₁ h₂ =
    let there : lookup w (week_maps item.plans) ≡ some (hours_of_day w item.plans) =
      lookup-week_loop 7 1 w item.plans [] ∙ ground arith in
    let whole : length (hours_of_day w item.plans) ≡ 24 =
      length-take_hours 24 (drop_hours ((w - 1) * 24) item.plans)
        (omega (arith, length-drop_hours ((w - 1) * 24) item.plans)) in
    rw (e, there, hours_run)
      (within_any-any _ (get_time_ranges (hours_of_day w item.plans) start_of_day)
        ∙ get_time_ranges_cover (hours_of_day w item.plans) start_of_day h r whole h₂)

bool_iff : (a b : Bool) → (a ≡ true → b ≡ true) → (b ≡ true → a ≡ true) → a ≡ b
bool_iff true b f g = sym (f refl)
bool_iff false true f g = g refl
bool_iff false false f g = refl

contains-append : (id : ℕ) (l m : List ℕ) → contains id (l ++ m) ≡ (contains id l || contains id m)
unfolding contains
contains-append id [] m = refl
contains-append id (x ∷ l) m = ground (arith, contains-append id l m)

contains-arr_unique : (id : ℕ) (l : List ℕ) → contains id (arr_unique l) ≡ contains id l
contains-arr_unique id l =
    let u = (arr_unique_lem l).2 id in
    bool_iff _ _ (λ h. (contains_iff id l).1 (u.0 ((contains_iff id (arr_unique l)).0 h)))
      (λ h. (contains_iff id (arr_unique l)).1 (u.1 ((contains_iff id l).0 h)))

-- The plans say that the channel records now.
abbrev pub wants : ℕ → ℕ → ℕ → ℕ → List Project → Bool
wants now week_day start_of_day id =
    any (λ (p : Project). runs_now now week_day start_of_day p && contains id p.channel_unique_ids)

contains-due_channels :
    (now w d id : ℕ) (ps : List Project)
    → contains id (due_channels now w d ps) ≡ wants now w d id ps
unfolding due_channels contains
contains-due_channels now w d id [] = refl
contains-due_channels now w d id (p ∷ ps) = ground (
  arith,
  contains-due_channels now w d id ps,
  contains-append id p.channel_unique_ids (due_channels now w d ps),
)

contains-stopping :
    (id : ℕ) (c l : List ℕ) → contains id (stopping c l) ≡ (contains id l && not (contains id c))
unfolding stopping contains
contains-stopping id c [] = refl
contains-stopping id c (x ∷ l) = elim (Bool-cases (nat_beq x id)) [
  | inl same ↦
      let e : x ≡ id = ground arith in
      ground (arith, contains-stopping id c l, ap (λ y. contains y c) e)
  | inr other ↦ ground (arith, contains-stopping id c l)
]

lookup-rel_map :
    {Rel : Type 0} (rels : GoMap ℕ Rel) (id : ℕ) (l : List ℕ) (m : GoMap ℕ (Option Rel))
    → lookup id (rel_map rels l m) ≡ (if contains id l then some (lookup id rels) else lookup id m)
unfolding rel_map contains
lookup-rel_map rels id [] m = refl
lookup-rel_map rels id (x ∷ l) m =
    lookup-rel_map rels id l (insert x (lookup x rels) m) ∙ elim (Bool-cases (nat_beq x id)) [
      | inl same ↦
          let e : x ≡ id = ground arith in
          ground (arith, lookup-insert x id (lookup x rels) m, ap (λ y. lookup y rels) e)
      | inr other ↦ ground (arith, lookup-insert x id (lookup x rels) m)
    ]

empty-append : (l m : List ℕ) → nat_beq (length (l ++ m)) 0 ≡ true → (l ≡ []) × (m ≡ [])
empty-append [] [] h = (refl, refl)
empty-append [] (x ∷ m) h = ground arith
empty-append (x ∷ l) m h = ground arith

not_stopping : (l : List ℕ) → stopping [] l ≡ [] → l ≡ []
unfolding stopping contains
not_stopping [] h = refl
not_stopping (x ∷ l) h = cc h

module _ {Rel : Type 0} where
  -- The channels that record after a pass, and the messages to the loops that start and stop.
  pub record Recorded (answers : Answers Rel) (now : ℕ) (ps : List Project) (rels : GoMap ℕ Rel)
      (s t : Recorder Rel) : Type 0 where
    pub idle : t.executing ≡ false
    pub distinct : Nodup t.exec_channel_unique_ids
    pub recording :
        (id : ℕ)
        → contains id t.exec_channel_unique_ids
          ≡ wants now answers.week_day answers.start_of_day id ps
    pub starts : GoMap ℕ (Option Rel)
    pub stops : GoMap ℕ (Option Rel)
    pub started : t.start_recording_ids ≡ send_any starts s.start_recording_ids
    pub stopped : t.stop_recording_ids ≡ send_any stops s.stop_recording_ids
    pub start_entries :
        (id : ℕ)
        → lookup id starts ≡ (
            if wants now answers.week_day answers.start_of_day id ps
            then some (lookup id rels)
            else none)
    pub stop_entries :
        (id : ℕ)
        → lookup id stops ≡ (
            if contains id s.exec_channel_unique_ids
              && not (wants now answers.week_day answers.start_of_day id ps)
            then some (lookup id rels)
            else none)

  abbrev chosen : Answers Rel → ℕ → List Project → List ℕ
  chosen answers now ps = arr_unique (due_channels now answers.week_day answers.start_of_day ps)

  abbrev stays : List ℕ → List ℕ → GoMap ℕ Rel → Recorder Rel → Recorder Rel
  stays c l rels s = with_channels c l (some rels) s

  -- The early return is what the rest of the code would do.
  nothing_to_do :
      (c : List ℕ) (rels : GoMap ℕ Rel) (s : Recorder Rel)
      → nat_beq (length (c ++ stopping c s.exec_channel_unique_ids)) 0 ≡ true
      → s ≡ stays c (stopping c s.exec_channel_unique_ids) rels s
  unfolding with_channels rel_map send_any
  nothing_to_do c rels s h =
      let e = empty-append c (stopping c s.exec_channel_unique_ids) h in
      let l : stopping [] s.exec_channel_unique_ids ≡ [] = rw e.0 at e.1 in
      let none_before = not_stopping s.exec_channel_unique_ids l in
      rw (e.1, e.0) (ap (λ x. record s { exec_channel_unique_ids = x }) none_before)

  with_projects-all :
      (answers : Answers Rel) (now : ℕ) (ps : List Project) (rels : GoMap ℕ Rel) (s : Recorder Rel)
      → ((q : List ℕ) → answers.channel_maps q ≡ some rels)
      → with_projects answers now (some ps) s
        ≡ stays
            (chosen answers now ps)
            (stopping (chosen answers now ps) s.exec_channel_unique_ids)
            rels
            s
  unfolding with_projects
  with_projects-all answers now ps rels s h =
      let c = chosen answers now ps in
      let l = stopping c s.exec_channel_unique_ids in
      elim (Bool-cases (nat_beq (length (c ++ l)) 0)) [
        | inl empty ↦ rw (empty, with_projects) (nothing_to_do c rels s empty)
        | inr some_ids ↦ rw (some_ids, with_projects, h (c ++ l)) refl
      ]

  recorded :
      (answers : Answers Rel) (now : ℕ) (ps : List Project) (rels : GoMap ℕ Rel)
      (s u t : Recorder Rel)
      → u
        ≡ stays
            (chosen answers now ps)
            (stopping (chosen answers now ps) s.exec_channel_unique_ids)
            rels
            (record s { executing = true })
      → t.executing ≡ false
      → t.exec_channel_unique_ids ≡ u.exec_channel_unique_ids
      → t.start_recording_ids ≡ u.start_recording_ids
      → t.stop_recording_ids ≡ u.stop_recording_ids
      → Recorded answers now ps rels s t
  unfolding with_channels
  recorded answers now ps rels s u t e h₀ h₁ h₂ h₃ =
      let c = chosen answers now ps in
      let l = stopping c s.exec_channel_unique_ids in
      let w = answers.week_day in
      let d = answers.start_of_day in
      let in_c : (id : ℕ) → contains id c ≡ wants now w d id ps = λ id.
        contains-arr_unique id (due_channels now w d ps) ∙ contains-due_channels now w d id ps in
      let exec : t.exec_channel_unique_ids ≡ c =
        h₁ ∙ ap (λ (r : Recorder Rel). r.exec_channel_unique_ids) e in
      record {
        idle = h₀;
        distinct = rw exec (arr_unique_lem (due_channels now w d ps)).1;
        recording = λ id. rw exec (in_c id);
        starts = rel_map rels c [];
        stops = rel_map rels l [];
        started = h₂ ∙ ap (λ (r : Recorder Rel). r.start_recording_ids) e;
        stopped = h₃ ∙ ap (λ (r : Recorder Rel). r.stop_recording_ids) e;
        start_entries = λ id. lookup-rel_map rels id c [] ∙ rw (in_c id) (unfold lookup in refl);
        stop_entries = λ id.
            lookup-rel_map rels id l []
            ∙ rw (contains-stopping id c s.exec_channel_unique_ids, in_c id)
                (unfold lookup in refl);
      }

  -- A pass that gets the lock, the plans and the channels: the channels that record afterwards are
  -- those that some plan wants, each once. One message starts those, with what the device service
  -- says of them; another stops the channels that recorded before and that no plan wants. There is
  -- no message without channels.
  pub do_pass_lem :
      (answers : Answers Rel) (now : ℕ) (ps : List Project) (rels : GoMap ℕ Rel) (s : Recorder Rel)
      → answers.lock ≡ lock_got
      → answers.projects ≡ some ps
      → ((q : List ℕ) → answers.channel_maps q ≡ some rels)
      → Recorded answers now ps rels s (do_pass answers now s)
  unfolding do_pass with_lock locked
  do_pass_lem answers now ps rels s h₀ h₁ h₂ =
      let s' = record s { executing = true } in
      let u = with_projects answers now (some ps) s' in
      recorded answers now ps rels s u (do_pass answers now s)
        (with_projects-all answers now ps rels s' h₂) refl (rw (h₀, h₁, with_lock) (ground arith))
        (rw (h₀, h₁, with_lock) (ground arith)) (rw (h₀, h₁, with_lock) (ground arith))
