-- ===== src/Sip/Alarm.antt =====
-- core/app/sev/vss/internal/logic/gbs_sip/alarm.go: an alarm of a device is stored. What it prepares
-- for cascading servers is computed and dropped by the source, and is left out.
use skeyevss_backend_service.Prelude.{
  ℕ, zero, suc, ◌+◌, ◌≡◌, ◌≢◌, refl, sym, ◌∙◌, ap, Bool, true, false, Option, none, some, List, [],
  ◌∷◌, if◌then◌else◌, nat_beq, nat_beq_iff, ltb→lt, lt→ltb, ◌<◌, ◌≤◌, get_elem?, ltb, ◌-◌, arith,
  Bool-cases, inl, inr, leb, ◌&&◌,
}
use skeyevss_backend_service.Text.{Text, text_beq, bytes}
use skeyevss_backend_service.Sip.{Reply, accepted, failed}

-- SipMessageAlarmInfo, with the type of the event if there is one.
pub record Info : Type 0 where
  pub alarm_type : ℕ
  pub event_type : Option ℕ

-- SipMessageAlarm
pub record Message : Type 0 where
  pub device_id : Text
  pub alarm_method : ℕ
  pub alarm_priority : ℕ
  pub alarm_time : Text
  pub alarm_description : Text
  pub longitude : Text
  pub latitude : Text
  pub info : Option Info

-- alarms.Alarms
pub record Row : Type 0 where
  pub device_unique_id : Text
  pub alarm_method : ℕ
  pub alarm_priority : ℕ
  pub alarm_description : Text
  pub longitude : Text
  pub latitude : Text
  pub alarm_type : ℕ
  pub event_type : ℕ
  pub created_at : ℕ

abbrev pub code_or_0 : Option ℕ → ℕ
code_or_0 none = 0
code_or_0 (some c) = c

-- The code at a number that counts from 1, of a list of codes; 0 for the others.
abbrev pub pick : List ℕ → ℕ → ℕ
pick codes zero = 0
pick codes (suc i) = code_or_0 (get_elem? codes i)

-- The constants AlarmType_1 to AlarmType_19 for the methods 2, 5 and 6.
unfoldable pub alarm_type_of : ℕ → ℕ → ℕ
alarm_type_of method type =
    if nat_beq method 2
    then pick (1 ∷ 2 ∷ 3 ∷ 4 ∷ 5 ∷ []) type
    else if nat_beq method 5
    then pick (6 ∷ 7 ∷ 8 ∷ 9 ∷ 10 ∷ 11 ∷ 12 ∷ 13 ∷ 14 ∷ 15 ∷ 16 ∷ 17 ∷ []) type
    else if nat_beq method 6
    then pick (18 ∷ 19 ∷ []) type
    else 0

abbrev pub event_of : Option Info → ℕ
event_of none = 0
event_of (some i) = elim i.event_type [ some e ↦ e | none ↦ 0 ]

abbrev pub type_of : ℕ → Option Info → ℕ
unfolding alarm_type_of
type_of method none = 0
type_of method (some i) = alarm_type_of method i.alarm_type

-- The layout of FormatDateToMilli for its first argument.
abbrev pub layout_of : Text → Text
layout_of tmp =
    if text_beq tmp (bytes "ymdT")
    then bytes "2006-01-02T15:04:05"
    else if text_beq tmp (bytes "ymd")
    then bytes "2006-01-02"
    else bytes "2006-01-02 15:04:05"

-- FormatDateToMilli; time.ParseInLocation, with the milliseconds of the time, is a parameter.
unfoldable pub format_date_to_milli : (Text → Text → Option ℕ) → Text → Text → Option ℕ
format_date_to_milli parse_in_location tmp date = parse_in_location (layout_of tmp) date

-- FormatDateToMilli gives 0 beside an error.
abbrev pub created_with : ℕ → Option ℕ → ℕ
created_with now none = 0
created_with now (some milli) = now

-- The time of the alarm is given in place of the layout, and the name of the layout in place of the
-- time.
unfoldable pub created_at : (Text → Text → Option ℕ) → ℕ → Text → ℕ
unfolding format_date_to_milli
created_at parse_in_location now alarm_time =
    created_with now (format_date_to_milli parse_in_location alarm_time (bytes "ymdT"))

unfoldable pub row_of : (Text → Text → Option ℕ) → ℕ → Message → Row
unfolding type_of created_at
row_of parse_in_location now m = record {
  device_unique_id = m.device_id;
  alarm_method = m.alarm_method;
  alarm_priority = m.alarm_priority;
  alarm_description = m.alarm_description;
  longitude = m.longitude;
  latitude = m.latitude;
  alarm_type = type_of m.alarm_method m.info;
  event_type = event_of m.info;
  created_at = created_at parse_in_location now m.alarm_time;
}

-- AlarmLogic.DO: the rows that are sent to AlarmCreate, and the response. `channel_found` says
-- whether ChannelRowFind answers for the channel and the device, `created` whether AlarmCreate does.
unfoldable pub alarm :
    (Text → Text → Option ℕ)
    → ℕ
    → Option Message
    → Option Text
    → (Text → Text → Bool)
    → (Row → Bool)
    → List Row × Reply
unfolding row_of
alarm parse_in_location now none from channel_found created = ([], failed)
alarm parse_in_location now (some m) none channel_found created = ([], failed)
alarm parse_in_location now (some m) (some device) channel_found created =
    let r = row_of parse_in_location now m in
    if channel_found m.device_id device
    then (r ∷ [], if created r then accepted else failed)
    else ([], failed)

-- The method and the type that a code stands for.
abbrev pub kind_of : ℕ → ℕ × ℕ
kind_of code =
    if ltb code 6 then (2, code) else if ltb code 18 then (5, code - 5) else (6, code - 17)

-- Numbers one after the other.
abbrev upto : ℕ → ℕ → List ℕ
upto base zero = []
upto base (suc n) = base ∷ upto (base + 1) n

get_elem?-upto :
    (base n i : ℕ) → get_elem? (upto base n) i ≡ (if ltb i n then some (base + i) else none)
get_elem?-upto base zero i = ground arith
get_elem?-upto base (suc n) zero = ground arith
get_elem?-upto base (suc n) (suc i) = ground (arith, get_elem?-upto (base + 1) n i)

pick-upto :
    (base n type : ℕ)
    → pick (upto (suc base) n) type ≢ 0
    → (pick (upto (suc base) n) type ≡ base + type) × (0 < type) × (type ≤ n)
pick-upto base n zero known = elim (known refl) [ ]
pick-upto base n (suc i) known =
    let found = ap code_or_0 (get_elem?-upto (suc base) n i) in
    elim (Bool-cases (ltb i n)) [
      | inl within ↦
          ((rw within at found) ∙ omega arith, omega arith, omega (arith, ltb→lt i n within))
      | inr beyond ↦ elim (known (rw beyond at found)) [ ]
    ]

not_less : (a b : ℕ) → b ≤ a → ltb a b ≡ false
not_less a b h = ground (arith, h)

-- The three ranges of codes.
kind_of-2 : (type : ℕ) → type ≤ 5 → kind_of (0 + type) ≡ (2, type)
kind_of-2 type within =
    let small : ltb (0 + type) 6 ≡ true = lt→ltb (0 + type) 6 (omega (arith, within)) in
    let same : 0 + type ≡ type = omega arith in rw small (ap (λ (t : ℕ). (2, t)) same)

kind_of-5 : (type : ℕ) → 0 < type → type ≤ 12 → kind_of (5 + type) ≡ (5, type)
kind_of-5 type positive within =
    let above : ltb (5 + type) 6 ≡ false = not_less (5 + type) 6 (omega (arith, positive)) in
    let small : ltb (5 + type) 18 ≡ true = lt→ltb (5 + type) 18 (omega (arith, within)) in
    let same : 5 + type - 5 ≡ type = omega arith in rw (above, small) (ap (λ (t : ℕ). (5, t)) same)

kind_of-6 : (type : ℕ) → 0 < type → kind_of (17 + type) ≡ (6, type)
kind_of-6 type positive =
    let above : ltb (17 + type) 6 ≡ false = not_less (17 + type) 6 (omega (arith, positive)) in
    let beyond : ltb (17 + type) 18 ≡ false = not_less (17 + type) 18 (omega (arith, positive)) in
    let same : 17 + type - 17 ≡ type = omega arith in
    rw (above, beyond) (ap (λ (t : ℕ). (6, t)) same)

method_is : (method m type : ℕ) → nat_beq method m ≡ true → ◌≡◌ {A = ℕ × ℕ} (m, type) (method, type)
method_is method m type h = ap (λ (k : ℕ). (k, type)) (sym ((nat_beq_iff method m).0 h))

-- The code of an alarm gives back its method and its type, so that alarms of different methods or
-- types that have a code have different ones.
pub kind_of-alarm_type_of :
    (method type : ℕ)
    → alarm_type_of method type ≢ 0
    → kind_of (alarm_type_of method type) ≡ (method, type)
unfolding alarm_type_of
kind_of-alarm_type_of method type known = elim (Bool-cases (nat_beq method 2)) [
  | inl two ↦
      let (e, first, last) = pick-upto 0 5 type (rw two at known) in
      rw (two, e) (kind_of-2 type last ∙ method_is method 2 type two)
  | inr not_2 ↦ elim (Bool-cases (nat_beq method 5)) [
    | inl five ↦
        let (e, first, last) = pick-upto 5 12 type (rw (not_2, five) at known) in
        rw (not_2, five, e) (kind_of-5 type first last ∙ method_is method 5 type five)
    | inr not_5 ↦ elim (Bool-cases (nat_beq method 6)) [
      | inl six ↦
          let (e, first, last) = pick-upto 17 2 type (rw (not_2, not_5, six) at known) in
          rw (not_2, not_5, six, e) (kind_of-6 type first ∙ method_is method 6 type six)
      | inr not_6 ↦ elim ((rw (not_2, not_5, not_6) at known) refl) [ ]
    ]
  ]
]

-- A text that begins with a digit.
abbrev pub is_dated : Text → Bool
is_dated [] = false
is_dated (c ∷ s) = leb b'0' c && leb c b'9'
