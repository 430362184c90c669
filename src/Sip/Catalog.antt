-- ===== src/Sip/Catalog.antt =====
-- core/app/sev/vss/internal/logic/gbs_sip/catalog.go: the channels that a device reports are stored.
-- Coordinates, and the copy of an item as JSON, are the opaque rest of an item. A closure's call of
-- the database service is one entry of the list of calls; its answers are parameters, each of which
-- may be an error. Times are milliseconds.
use skeyevss_backend_service.Prelude.{
  ℕ, ◌≡◌, refl, ap, Bool, true, false, ◌&&◌, Option, none, some, List, [], ◌∷◌, ◌++◌, map,
  if◌then◌else◌, nat_beq, leb, length, take, drop, Bool-cases, inl, inr,
}
use mathlib.Core.List.{append-nil}
use skeyevss_backend_service.Arrays.{contains}
use skeyevss_backend_service.Text.{Text, text_beq, text_comparable, bytes}
use skeyevss_backend_service.Text.Cutset.{to_lower}
use skeyevss_backend_service.Sip.{Reply, accepted, failed}

-- SipChannel
pub record Item (D : Type 0) : Type 0 where
  pub channel_id : Text
  pub name : Text
  pub parental : ℕ
  pub parent_id : Text
  pub status : Text
  pub ptz_type : ℕ
  pub rest : D

-- SipMessageCatLog
pub record Message (D : Type 0) : Type 0 where
  pub device_id : Text
  pub items : List (Item D)

-- channels.Channels
pub record Row (D : Type 0) : Type 0 where
  pub name : Text
  pub unique_id : Text
  pub device_unique_id : Text
  pub online : ℕ
  pub parent_id : Text
  pub parental : ℕ
  pub online_at : ℕ
  pub is_cascade : ℕ
  pub ptz_type : ℕ
  pub original : Item D

-- The calls of the database service: ChannelDeleteWithChannelFilters; ChannelUpdate for the channels
-- of a device that were on line three minutes before a time or earlier; ChannelUpsert; ChannelTotal;
-- DeviceUpdate.
pub data Call (D : Type 0) : Type 0 where
  delete_filtered : Text → List Text → Call D
  set_stale_offline : Text → ℕ → Call D
  upsert : List (Row D) → Call D
  count_channels : Text → Call D
  set_channel_count : Text → ℕ → Call D

-- What the service answers: the device's filters, whether an update and an upsert succeed, the count.
pub record Answers : Type 0 where
  pub channel_filters : Option (List Text)
  pub offline_set : Bool
  pub upserted : Bool
  pub total : Option ℕ

-- The user agent of this server's own cascade.
abbrev is_own : Text → Text × Text → Bool
is_own agent (name, value) = text_beq (to_lower name) (bytes "user-agent") && text_beq value agent

abbrev pub is_cascade_of : Text → List (Text × Text) → ℕ
is_cascade_of agent [] = 0
is_cascade_of agent (h ∷ headers) = if is_own agent h then 1 else is_cascade_of agent headers

-- item.ChannelID[10:13] among the filters, for identifiers of 20 bytes and more.
unfoldable pub is_excluded : List Text → Text → Bool
is_excluded filters id = leb 20 (length id) && contains (take 3 (drop 10 id)) filters

module _ {D : Type 0} where
  -- The item as the loop leaves it: the device itself is no directory.
  abbrev pub corrected : Text → Item D → Item D
  corrected device i =
      if text_beq i.channel_id device && nat_beq i.parental 1 then record i { parental = 0 } else i

  unfoldable pub row_of : Text → ℕ → ℕ → Item D → Row D
  row_of device now cascade i = record {
    name = i.name;
    unique_id = i.channel_id;
    device_unique_id = device;
    online = if text_beq i.status (bytes "ON") then 1 else 0;
    parent_id = i.parent_id;
    parental = if nat_beq i.parental 0 then 0 else 1;
    online_at = now;
    is_cascade = cascade;
    ptz_type = i.ptz_type;
    original = corrected device i;
  }

  -- The loop over the items; `convert` says whether ConvToModel and NewStruct take a row.
  unfoldable pub rows_of :
      (Row D → Bool) → Text → List Text → ℕ → ℕ → List (Item D) → Option (List (Row D))
  unfolding row_of is_excluded
  rows_of convert device filters now cascade [] = some []
  rows_of convert device filters now cascade (i ∷ items) =
      let r = row_of device now cascade i in
      let rest = rows_of convert device filters now cascade items in
      if is_excluded filters i.channel_id
      then rest
      else if convert r
      then (elim rest [ some rows ↦ some (r ∷ rows) | none ↦ none ])
      else none

  -- The deletion of excluded channels, which is left out without filters; its answer is dropped.
  abbrev pub deletion : Text → List Text → List (Call D)
  deletion device [] = []
  deletion device (f ∷ filters) = delete_filtered device (f ∷ filters) ∷ []

  -- The count, and its update if there is one.
  abbrev pub counted : Text → Option ℕ → List (Call D)
  counted device none = count_channels device ∷ []
  counted device (some n) = count_channels device ∷ set_channel_count device n ∷ []

  abbrev pub stored : Text → ℕ → Answers → List (Row D) → List (Call D) × Reply
  stored device now a rows =
      if a.offline_set
      then if a.upserted
        then (set_stale_offline device now ∷ upsert rows ∷ counted device a.total, accepted)
        else (set_stale_offline device now ∷ upsert rows ∷ [], failed)
      else (set_stale_offline device now ∷ [], failed)

  abbrev pub with_rows : Text → ℕ → Answers → Option (List (Row D)) → List (Call D) × Reply
  with_rows device now a none = ([], failed)
  with_rows device now a (some rows) = stored device now a rows

  abbrev pub with_filters :
      (Row D → Bool) → ℕ → ℕ → Message D → Answers → Option (List Text) → List (Call D) × Reply
  with_filters convert now cascade m a none = ([], failed)
  with_filters convert now cascade m a (some filters) =
      let rest =
        with_rows m.device_id now a (rows_of convert m.device_id filters now cascade m.items) in
      (deletion m.device_id filters ++ rest.0, rest.1)

  -- CatLogLogic.DO
  unfoldable pub catalog :
      (Row D → Bool)
      → Text
      → ℕ
      → Option (Message D)
      → List (Text × Text)
      → Answers
      → List (Call D) × Reply
  catalog convert agent now none headers a = ([], failed)
  catalog convert agent now (some m) headers a =
      with_filters convert now (is_cascade_of agent headers) m a a.channel_filters

  abbrev pub kept : List Text → List (Item D) → List (Item D)
  unfolding is_excluded
  kept filters [] = []
  kept filters (i ∷ items) =
      if is_excluded filters i.channel_id then kept filters items else i ∷ kept filters items

  rows_of_lem :
      (convert : Row D → Bool) (device : Text) (filters : List Text) (now cascade : ℕ)
      (items : List (Item D))
      → ((r : Row D) → convert r ≡ true)
      → rows_of convert device filters now cascade items
        ≡ some (map (row_of device now cascade) (kept filters items))
  unfolding rows_of kept
  rows_of_lem convert device filters now cascade [] converts = refl
  rows_of_lem convert device filters now cascade (i ∷ items) converts =
      let rest = rows_of_lem convert device filters now cascade items converts in
      elim (Bool-cases (is_excluded filters i.channel_id)) [
        | inl out ↦ rw out rest
        | inr stays ↦ rw (stays, converts (row_of device now cascade i), rest) refl
      ]

  -- Where the device is known, its items can be converted and the service takes the updates, the
  -- excluded channels are deleted, the stale ones set off line, and then exactly the items that are
  -- not excluded stored in their order; the number of channels is updated where it can be counted.
  pub catalog-kept :
      (convert : Row D → Bool) (agent : Text) (now : ℕ) (m : Message D)
      (headers : List (Text × Text)) (a : Answers) (filters : List Text)
      → a.channel_filters ≡ some filters
      → ((r : Row D) → convert r ≡ true)
      → a.offline_set ≡ true
      → a.upserted ≡ true
      → catalog convert agent now (some m) headers a ≡ (
        deletion m.device_id filters
            ++ (set_stale_offline m.device_id now
                ∷ upsert (
                    map
                      (row_of m.device_id now (is_cascade_of agent headers))
                      (kept filters m.items))
                ∷ counted m.device_id a.total),
        accepted,
      )
  unfolding catalog
  catalog-kept convert agent now m headers a filters known converts offline upserted =
      let cascade : ℕ = is_cascade_of agent headers in
      rw
        (
          known,
          rows_of_lem convert m.device_id filters now cascade m.items converts,
          offline,
          upserted,
        )
        refl

  rows_of-unconverted :
      (convert : Row D → Bool) (device : Text) (filters : List Text) (now cascade : ℕ)
      (front back : List (Item D)) (i : Item D)
      → is_excluded filters i.channel_id ≡ false
      → convert (row_of device now cascade i) ≡ false
      → rows_of convert device filters now cascade (front ++ i ∷ back) ≡ none
  unfolding rows_of
  rows_of-unconverted convert device filters now cascade [] back i stays bad = rw (stays, bad) refl
  rows_of-unconverted convert device filters now cascade (j ∷ front) back i stays bad =
      let rest = rows_of-unconverted convert device filters now cascade front back i stays bad in
      elim (Bool-cases (is_excluded filters j.channel_id)) [
        | inl out ↦ rw out rest
        | inr held ↦ (elim (Bool-cases (convert (row_of device now cascade j))) [
          | inl fine ↦ rw (held, fine, rest) refl
          | inr wrong ↦ rw (held, wrong) refl
        ])
      ]

  -- An item that cannot be converted keeps the whole catalog from being stored: only the excluded
  -- channels have been deleted by then.
  pub catalog-unconverted :
      (convert : Row D → Bool) (agent : Text) (now : ℕ) (m : Message D)
      (headers : List (Text × Text)) (a : Answers) (filters : List Text)
      (front back : List (Item D)) (i : Item D)
      → a.channel_filters ≡ some filters
      → m.items ≡ front ++ i ∷ back
      → is_excluded filters i.channel_id ≡ false
      → convert (row_of m.device_id now (is_cascade_of agent headers) i) ≡ false
      → catalog convert agent now (some m) headers a ≡ (deletion m.device_id filters, failed)
  unfolding catalog
  catalog-unconverted convert agent now m headers a filters front back i known parts stays bad =
      rw
        (
          known,
          parts,
          rows_of-unconverted convert m.device_id filters now (is_cascade_of agent headers) front
              back i stays bad,
        )
        (ap (λ calls. (calls, failed)) (append-nil (deletion m.device_id filters)))
